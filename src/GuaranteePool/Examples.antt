-- ===== src/GuaranteePool/Examples.antt =====
-- The guarantee pool: a policy that is bought and claimed, and the theorems at it.
use x402_agent_suite.Base.{
  ℕ, ◌+◌, ◌-◌, ◌≡◌, refl, min, List, [], ◌∷◌, some, Text, text, text_eq, lookup, insert, IsFixed4,
  arith,
}
use x402_agent_suite.GuaranteePool.{
  Reputation, high_risk, trusted, Pool, empty_pool, GuaranteePolicy, active, not_active, refused,
  quote_guarantee, claim_guarantee,
}
use x402_agent_suite.GuaranteePool.Solvency.{
  IsSolvent, Call, buy, claim, run, perform, run-IsSolvent,
}
use x402_agent_suite.GuaranteePool.Claims.{claim_pays_once}

abbrev good : Reputation
good = record { subject = text "0xab"; score = 90; tier = trusted }

abbrev bad : Text → Reputation
bad subject = record { subject = subject; score = 10; tier = high_risk }

abbrev bought : List Call
bought = buy good 1_000 (text "pol_1") 100_000_000 60 ∷ []

abbrev pool : Pool
pool = run bought empty_pool

abbrev policy : GuaranteePolicy
policy = record {
  id = text "pol_1";
  subject = text "0xab";
  amount_usdc = 100_000_000;
  premium_usdc = 960_000;
  status = active;
  created_at = 1_000;
  expires_at = 61_000;
}

pool-policy : lookup (text "pol_1") pool.policies ≡ some policy
unfolding run perform quote_guarantee insert lookup text_eq
pool-policy = refl

claim_pays_once_example :
    let (pool', result) = claim_guarantee bad 2_000 (text "pol_1") pool in
    let due = min 100_000_000 (pool.premiums_collected_usdc - pool.payouts_usdc) in
    (result.payout_usdc ≡ due)
    × (IsFixed4 100_000_000 → pool'.payouts_usdc ≡ pool.payouts_usdc + due)
    × ((again : Text → Reputation) (later : ℕ)
        → claim_guarantee again later (text "pol_1") pool' ≡ (pool', refused not_active))
claim_pays_once_example =
    claim_pays_once bad 2_000 (text "pol_1") policy pool (run-IsSolvent bought) pool-policy refl
      (omega arith) refl

run-IsSolvent_example : IsSolvent (
    run
      (buy good 1_000 (text "pol_1") 100_000_000 60 ∷ claim bad 2_000 (text "pol_1") ∷ [])
      empty_pool)
run-IsSolvent_example =
    run-IsSolvent
      (buy good 1_000 (text "pol_1") 100_000_000 60 ∷ claim bad 2_000 (text "pol_1") ∷ [])
