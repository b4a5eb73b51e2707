-- ===== src/NonceStore/Examples.antt =====
-- One-time keys: a run of claims, and the theorem at it.
use x402_agent_suite.Base.{
  ℕ, Bool, false, some, ◌≤◌, ◌≡◌, List, [], ◌∷◌, Text, text, lookup, arith, refl, text_eq, insert,
  trim, keep_entries,
}
use x402_agent_suite.NonceStore.{NonceRow, Nonces, claim_nonce_key}
use x402_agent_suite.NonceStore.Once.{Claim, granted, granted_once}

-- A Redis that is not there.
abbrev no_redis : Text → ℕ → Unit {0} → Unit {0} × Bool
no_redis key ttl r = (r, false)

abbrev claim_at : ℕ → Claim
claim_at now = record { now = now; raw_key = text " payment-1 "; network = text "eip155:8453" }

abbrev nonces : Nonces
nonces = record { used_nonces = []; clean_counter = 48 }

abbrev claims : List Claim
claims = claim_at 1_000 ∷ claim_at 2_000 ∷ claim_at 604_801_000 ∷ []

granted-claims : granted no_redis 300 tt (text "payment-1") claims nonces ≡ 1
unfolding granted claim_nonce_key trim lookup insert text_eq keep_entries
granted-claims = refl

granted_once_example :
    (granted no_redis 300 tt (text "payment-1") claims nonces ≤ 1)
    × ((row : NonceRow)
        → lookup (text "payment-1") nonces.used_nonces ≡ some row
        → granted no_redis 300 tt (text "payment-1") claims nonces ≡ 0)
unfolding lookup
granted_once_example =
    granted_once no_redis 300 tt 604_801_000 (text "payment-1") claims nonces tt tt
      ((omega arith, omega arith), ((omega arith, omega arith), ((omega arith, omega arith), tt)))
