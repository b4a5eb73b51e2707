-- ===== src/GuaranteePool/Solvency.antt =====
-- src/lib/guarantee-pool.ts: what the pool has taken in and paid out.
use x402_agent_suite.Base.{
  ℕ, ◌+◌, ◌-◌, ◌≤◌, refl, inl, inr, min, List, [], ◌∷◌, Option, none, some, Text, lookup, to_fixed4,
  IsFixed4, to_fixed4_idem, ltb, Bool-cases, arith,
}
use x402_agent_suite.GuaranteePool.{
  Reputation, Pool, empty_pool, GuaranteePolicy, quote_guarantee, buy_guarantee, claim_guarantee,
  claim_policy, pay_out, is_active, is_high_risk, set_status, expired,
}

-- Both totals are multiples of 10^-4 USDC, and the payouts are covered by the premiums.
pub record IsSolvent (pool : Pool) : Type 0 where
  pub premiums : IsFixed4 pool.premiums_collected_usdc
  pub payouts : IsFixed4 pool.payouts_usdc
  pub covered : pool.payouts_usdc ≤ pool.premiums_collected_usdc

pub empty-IsSolvent : IsSolvent empty_pool
unfolding to_fixed4
empty-IsSolvent = record { premiums = refl; payouts = refl; covered = omega arith }

premiums-grow : (p q : ℕ) → IsFixed4 p → p ≤ to_fixed4 (p + q)
unfolding to_fixed4
premiums-grow p q h = omega (arith, h)

payout-covered :
    (premiums payouts amount : ℕ)
    → IsFixed4 premiums
    → IsFixed4 payouts
    → payouts ≤ premiums
    → to_fixed4 (payouts + min amount (to_fixed4 (premiums - payouts))) ≤ premiums
unfolding to_fixed4
payout-covered premiums payouts amount f g h = omega (arith, f, g, h)

buy-IsSolvent :
    (rep : Reputation) (now : ℕ) (id : Text) (amount ttl_seconds : ℕ) (pool : Pool)
    → IsSolvent pool
    → IsSolvent (buy_guarantee rep now id amount ttl_seconds pool).0
unfolding buy_guarantee to_fixed4
buy-IsSolvent rep now id amount ttl_seconds pool s =
    elim (Bool-cases (quote_guarantee rep amount).insurable) [
      | inr declined ↦ rw declined s
      | inl insurable ↦ rw insurable (record {
        premiums = to_fixed4_idem _;
        payouts = s.payouts;
        covered = omega (
          arith,
          s.covered,
          premiums-grow pool.premiums_collected_usdc (quote_guarantee rep amount).premium_usdc
              s.premiums,
        );
      })
    ]

pay_out-IsSolvent :
    (id : Text) (p : GuaranteePolicy) (pool : Pool)
    → IsSolvent pool
    → IsSolvent (pay_out id p pool).0
pay_out-IsSolvent id p pool s = record {
  premiums = s.premiums;
  payouts = to_fixed4_idem _;
  covered =
      payout-covered pool.premiums_collected_usdc pool.payouts_usdc p.amount_usdc s.premiums
        s.payouts s.covered;
}

status-IsSolvent :
    (id : Text) (p : GuaranteePolicy) (pool : Pool)
    → IsSolvent pool
    → IsSolvent (set_status id p expired pool)
status-IsSolvent id p pool s = record {
  premiums = s.premiums;
  payouts = s.payouts;
  covered = s.covered;
}

claim-IsSolvent :
    (reputation : Text → Reputation) (now : ℕ) (id : Text) (pool : Pool)
    (o : Option GuaranteePolicy)
    → IsSolvent pool
    → IsSolvent (claim_policy reputation now id pool o).0
claim-IsSolvent reputation now id pool none s = s
claim-IsSolvent reputation now id pool (some p) s = elim (Bool-cases (is_active p.status)) [
  | inr closed ↦ rw closed s
  | inl live ↦ elim (Bool-cases (ltb p.expires_at now)) [
    | inl late ↦ rw (live, late) (status-IsSolvent id p pool s)
    | inr early ↦ elim (Bool-cases (is_high_risk (reputation p.subject).tier)) [
      | inr safe ↦ rw (live, early, safe) s
      | inl bad ↦ rw (live, early, bad) (pay_out-IsSolvent id p pool s)
    ]
  ]
]

-- A purchase or a claim, with what the reputation network says at the time.
pub data Call : Type 0 where
  buy : (rep : Reputation) (now : ℕ) (id : Text) (amount ttl_seconds : ℕ) → Call
  claim : (reputation : Text → Reputation) (now : ℕ) (id : Text) → Call

unfoldable pub perform : Call → Pool → Pool
unfolding buy_guarantee claim_guarantee
perform (buy rep now id amount ttl_seconds) pool =
    (buy_guarantee rep now id amount ttl_seconds pool).0
perform (claim reputation now id) pool = (claim_guarantee reputation now id pool).0

unfoldable pub run : List Call → Pool → Pool
unfolding perform
run [] pool = pool
run (c ∷ cs) pool = run cs (perform c pool)

perform-IsSolvent : (c : Call) (pool : Pool) → IsSolvent pool → IsSolvent (perform c pool)
unfolding perform claim_guarantee
perform-IsSolvent (buy rep now id amount ttl_seconds) pool s =
    buy-IsSolvent rep now id amount ttl_seconds pool s
perform-IsSolvent (claim reputation now id) pool s =
    claim-IsSolvent reputation now id pool (lookup id pool.policies) s

run-IsSolvent_from : (cs : List Call) (pool : Pool) → IsSolvent pool → IsSolvent (run cs pool)
unfolding run
run-IsSolvent_from [] pool s = s
run-IsSolvent_from (c ∷ cs) pool s =
    run-IsSolvent_from cs (perform c pool) (perform-IsSolvent c pool s)

-- After any purchases and claims, whatever the reputations and the times, the pool has paid out no
-- more than the premiums that it has collected, and both totals are whole multiples of 0.0001 USDC.
pub run-IsSolvent : (cs : List Call) → IsSolvent (run cs empty_pool)
run-IsSolvent cs = run-IsSolvent_from cs empty_pool empty-IsSolvent
