-- ===== src/GuaranteePool/Claims.antt =====
-- src/lib/guarantee-pool.ts: what a claim pays, and how often.
use x402_agent_suite.Base.{
  ℕ, ◌+◌, ◌-◌, ◌≤◌, ◌≡◌, refl, ap, ◌∙◌, true, false, min, some, Text, lookup, lookup-insert_self,
  to_fixed4, IsFixed4, le→ltb, arith,
}
use x402_agent_suite.GuaranteePool.{
  Reputation, Pool, GuaranteePolicy, not_active, claimed, refused, claim_guarantee, pay_out,
  available, is_active, is_high_risk,
}
use x402_agent_suite.GuaranteePool.Solvency.{IsSolvent}

available-exact :
    (pool : Pool)
    → IsSolvent pool
    → available pool ≡ pool.premiums_collected_usdc - pool.payouts_usdc
unfolding to_fixed4
available-exact pool s = let p = s.premiums in let q = s.payouts in omega (arith, p, q)

sum-exact :
    (premiums payouts amount : ℕ)
    → IsFixed4 premiums
    → IsFixed4 payouts
    → IsFixed4 amount
    → to_fixed4 (payouts + min amount (premiums - payouts))
      ≡ payouts + min amount (premiums - payouts)
unfolding to_fixed4
sum-exact premiums payouts amount f g h = omega (arith, f, g, h)

module _ (reputation : Text → Reputation) (now : ℕ) (id : Text) (p : GuaranteePolicy)
    (pool : Pool) where
  claim-triggered :
      lookup id pool.policies ≡ some p
      → is_active p.status ≡ true
      → now ≤ p.expires_at
      → is_high_risk (reputation p.subject).tier ≡ true
      → claim_guarantee reputation now id pool ≡ pay_out id p pool
  unfolding claim_guarantee
  claim-triggered there live early bad =
      let time = le→ltb now p.expires_at early in rw there (rw (live, time, bad) refl)

  claim-inactive :
      lookup id pool.policies ≡ some p
      → is_active p.status ≡ false
      → claim_guarantee reputation now id pool ≡ (pool, refused not_active)
  unfolding claim_guarantee
  claim-inactive there closed = rw there (rw closed refl)

-- A claim on an active policy that has not expired, whose subject has become high-risk, pays the
-- cover, or what is left of the premiums if that is less. For a cover that is a multiple of 0.0001
-- USDC the payouts grow by exactly that. Any later claim on the policy pays nothing and changes nothing.
pub claim_pays_once :
    (reputation : Text → Reputation) (now : ℕ) (id : Text) (p : GuaranteePolicy) (pool : Pool)
    → IsSolvent pool
    → lookup id pool.policies ≡ some p
    → is_active p.status ≡ true
    → now ≤ p.expires_at
    → is_high_risk (reputation p.subject).tier ≡ true
    → let (pool', result) = claim_guarantee reputation now id pool in
      let due = min p.amount_usdc (pool.premiums_collected_usdc - pool.payouts_usdc) in
      (result.payout_usdc ≡ due)
      × (IsFixed4 p.amount_usdc → pool'.payouts_usdc ≡ pool.payouts_usdc + due)
      × ((again : Text → Reputation) (later : ℕ)
          → claim_guarantee again later id pool' ≡ (pool', refused not_active))
claim_pays_once reputation now id p pool s there live early bad =
    rw (claim-triggered reputation now id p pool there live early bad) (
      ap (min p.amount_usdc) (available-exact pool s),
      λ whole.
          ap (λ a. to_fixed4 (pool.payouts_usdc + min p.amount_usdc a)) (available-exact pool s)
          ∙ sum-exact pool.premiums_collected_usdc pool.payouts_usdc p.amount_usdc s.premiums
              s.payouts whole,
      λ again later.
          claim-inactive again later id (record p { status = claimed }) (pay_out id p pool).0
            (lookup-insert_self id (record p { status = claimed }) pool.policies) refl,
    )
