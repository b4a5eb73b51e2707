-- ===== src/ReplayGuard/Examples.antt =====
-- Replay bindings: a binding's life, and the theorems at it. The hash below writes the codes of a
-- text in front of 64 hex digits and is injective.
use x402_agent_suite.Base.{
  every, and-eq-true, ℕ, ◌≤◌, ◌≡◌, refl, Bool, true, false, [], ◌∷◌, ◌++◌, Option, none, some, Text,
  text, text_eq, trim, lookup, insert, arith,
}
use x402_agent_suite.NonceStore.{
  NonceRow, Nonces, sqlite_only, claim_nonce_key, store_key, is_untracked,
}
use x402_agent_suite.ReplayGuard.{
  is_hex, safe_nonce, ReplayBindingInput, ReplayBinding, Presented, valid, already_consumed,
  ReplayCrypto, create_replay_binding, verify_replay_binding,
}
use x402_agent_suite.ReplayGuard.Binding.{IsHex, IsNonce}
use x402_agent_suite.ReplayGuard.Replays.{Attempt, verified, verified_once, key_of}
use x402_agent_suite.ReplayGuard.Cleanup.{consumed_again}

abbrev no_redis : Text → ℕ → Unit {0} → Unit {0} × Bool
no_redis key ttl r = (r, false)

abbrev digits : Text
digits = text "00112233445566778899aabbccddeeff"

abbrev crypto : ReplayCrypto
crypto = record { sha256_hex = λ t. digits ++ t; hmac_sign = λ p. p.nonce ++ p.resource_hash }

abbrev input : Option Text → ReplayBindingInput
input method = record {
  agent_id = text "a1";
  session_id = none;
  resource_url = text "https://x.dev/r";
  method = method;
  request_body = none;
  ttl_seconds = some 2_000_000;
}

abbrev made : Option Text → ReplayBinding
made method = (create_replay_binding crypto 1_000 (text "1000") (input method) []).1

abbrev nonces : Nonces
nonces = record { used_nonces = []; clean_counter = 49 }

IsHex-every : (s : Text) → every is_hex s ≡ true → IsHex s
IsHex-every [] h = tt
IsHex-every (c ∷ s) h =
    let p = (and-eq-true (is_hex c) (every is_hex s)).0 h in (p.0, IsHex-every s p.1)

made-IsNonce : (method : Option Text) → IsNonce (made method).payload.nonce
unfolding create_replay_binding
made-IsNonce method = (IsHex-every digits refl, refl)

abbrev attempt_at : ℕ → Attempt
attempt_at now = record {
  now = now;
  binding_id = (made none).payload.binding_id;
  headers = record { nonce = none; resource_url = none; request_body = none };
  bindings = (create_replay_binding crypto 1_000 (text "1000") (input none) []).0;
}

verified_once_example :
    (verified no_redis crypto tt digits (attempt_at 2_000 ∷ attempt_at 3_000 ∷ []) nonces ≤ 1)
    × ((row : NonceRow)
        → lookup (key_of digits) nonces.used_nonces ≡ some row
        → verified no_redis crypto tt digits (attempt_at 2_000 ∷ attempt_at 3_000 ∷ []) nonces ≡ 0)
unfolding lookup
verified_once_example =
    verified_once no_redis crypto tt 3_000 digits (attempt_at 2_000 ∷ attempt_at 3_000 ∷ []) nonces
      (IsHex-every digits refl, refl) tt tt
      ((omega arith, omega arith), ((omega arith, omega arith), tt))

abbrev used : Nonces
used = record {
  used_nonces = (key_of digits, record { network = text "protocol-replay"; used_at = 9 }) ∷ [];
  clean_counter = 49;
}

consumed_again_example :
    let (store, b) = create_replay_binding crypto 1_000 (text "1000") (input none) [] in
    let headers : Presented = record { nonce = none; resource_url = none; request_body = none } in
    let cleaned =
      (claim_nonce_key no_redis sqlite_only 604_811_000
        (text "payment-2")
        (text "n")
        604_800
        tt
        used).1 in
    ((verify_replay_binding no_redis sqlite_only crypto 604_812_000 b.payload.binding_id headers
        store tt used).2
      ≡ already_consumed)
    × ((verify_replay_binding no_redis sqlite_only crypto 604_812_000 b.payload.binding_id headers
          store tt cleaned).2
        ≡ valid)
unfolding create_replay_binding lookup insert text_eq store_key is_untracked trim safe_nonce
consumed_again_example =
    consumed_again no_redis crypto tt 604_811_000 604_812_000 (text "payment-2") (text "n")
      (made none).payload.binding_id (record { network = text "protocol-replay"; used_at = 9 })
      (record { nonce = none; resource_url = none; request_body = none }) (made none)
      (create_replay_binding crypto 1_000 (text "1000") (input none) []).0 used (made-IsNonce none)
      refl refl (refl, tt) refl (omega arith) (omega arith) refl refl
