-- ===== src/ReplayGuard/Replays.antt =====
-- src/protocol/replay-guard.ts: how often a binding's nonce is consumed.
use mathlib.Core.Path.{subst}
use x402_agent_suite.Base.{
  ℕ, ◌+◌, ◌≤◌, ◌≡◌, refl, sym, inl, inr, Bool, true, false, ◌&&◌, List, [], ◌∷◌, Option, none, some,
  Text, text, text_eq, text_eq_iff, text_eq_refl, is_empty, Dict, lookup, IsUnique, All, Bool-cases,
  Option-cases, if◌then◌else◌, arith,
}
use x402_agent_suite.NonceStore.{
  NonceRow, Nonces, sqlite_only, seconds, seven_days, store_key, is_nonce_key_used,
}
use x402_agent_suite.NonceStore.Once.{Claim, InStretch, IsFresh, claim-left, left, left-le, counts}
use x402_agent_suite.ReplayGuard.{
  ReplayBinding, Presented, Verdict, valid, already_consumed, ReplayCrypto, safe_nonce,
  claim_nonce_once, consume, check_binding, verify_found, verify_replay_binding,
}
use x402_agent_suite.ReplayGuard.Binding.{IsNonce, proto_key, proto_key-tracked}

-- A call of `verifyReplayBinding`, with the bindings that are stored at the time.
pub record Attempt : Type 0 where
  pub now : ℕ
  pub binding_id : Text
  pub headers : Presented
  pub bindings : Dict ReplayBinding

abbrev pub claim_of : ℕ → Text → Claim
claim_of now nonce = record {
  now = now;
  raw_key = proto_key nonce;
  network = text "protocol-replay";
}

-- The call comes at most seven days before the time `end`.
abbrev pub WithinWeek : ℕ → Attempt → Type 0
WithinWeek end a = (seconds a.now ≤ seconds end) × (seconds end ≤ seconds a.now + seven_days)

abbrev pub is_valid : Verdict → Bool
is_valid valid = true
is_valid v = false

abbrev pub has_nonce : Text → Option ReplayBinding → Bool
has_nonce n none = false
has_nonce n (some b) = text_eq b.payload.nonce n

abbrev pub key_of : Text → Text
key_of n = store_key (proto_key n)

-- What one step leaves of the claims of the key of `n`, `done` telling whether it took one.
abbrev pub Spends : ℕ → Text → Bool → Nonces → Nonces → Type 0
Spends end n done s s' =
    ((if done then 1 else 0) + left (lookup (key_of n) s'.used_nonces)
      ≤ left (lookup (key_of n) s.used_nonces))
    × IsFresh end (lookup (key_of n) s'.used_nonces)
    × IsUnique s'.used_nonces

unspent :
    (end : ℕ) (n m : Text) (s : Nonces)
    → IsUnique s.used_nonces
    → IsFresh end (lookup (key_of n) s.used_nonces)
    → Spends end n (text_eq m n && false) s s
unspent end n m s u fresh = elim (Bool-cases (text_eq m n)) [
  | inl same ↦ rw same (omega arith, fresh, u)
  | inr other ↦ rw other (omega arith, fresh, u)
]

counted : (now : ℕ) (n m : Text) → IsNonce n → m ≡ n → counts (key_of n) (claim_of now m) ≡ true
counted now n m h same =
    subst (λ m. counts (key_of n) (claim_of now m) ≡ true) (sym same)
      (rw (proto_key-tracked n h, text_eq_refl (key_of n)) refl)

is_valid-if : (ok : Bool) → is_valid (if ok then valid else already_consumed) ≡ ok
is_valid-if true = refl
is_valid-if false = refl

module _ {R : Type 0} (set_nx : Text → ℕ → R → R × Bool) (k : ReplayCrypto) (r : R) where
  abbrev pub attempt : Attempt → Nonces → R × Nonces × Verdict
  attempt a s =
      verify_replay_binding set_nx sqlite_only k a.now a.binding_id a.headers a.bindings r s

  -- How many attempts verify a binding with the nonce `n`.
  unfoldable pub verified : Text → List Attempt → Nonces → ℕ
  unfolding verify_replay_binding
  verified n [] s = 0
  verified n (a ∷ rest) s =
      let (r', s', v) = attempt a s in
      (if has_nonce n (lookup a.binding_id a.bindings) && is_valid v then 1 else 0)
      + verified n rest s'

  claim_nonce_once-Spends :
      (end now : ℕ) (n m : Text) (s : Nonces)
      → IsNonce n
      → IsUnique s.used_nonces
      → IsFresh end (lookup (key_of n) s.used_nonces)
      → InStretch end (claim_of now m)
      → let (r', s', ok) = claim_nonce_once set_nx sqlite_only now m r s in
        Spends end n (text_eq m n && ok) s s'
  unfolding claim_nonce_once
  claim_nonce_once-Spends end now n m s h u fresh w = elim (Bool-cases (is_empty (safe_nonce m))) [
    | inl empty ↦ rw empty (unspent end n m s u fresh)
    | inr filled ↦ elim (Bool-cases (is_nonce_key_used (proto_key m) s)) [
      | inl used ↦ rw (filled, used) (unspent end n m s u fresh)
      | inr unused ↦
          let spent = claim-left set_nx 604_800 r end (key_of n) (claim_of now m) s u fresh w in
          rw (filled, unused)
            (elim (Bool-cases (text_eq m n)) [
              | inr other ↦ rw other (omega (arith, spent.0), spent.1, spent.2)
              | inl same ↦ rw same (rw (counted now n m h ((text_eq_iff m n).0 same)) at spent)
            ])
    ]
  ]

  pub verify_found-refused :
      (now : ℕ) (headers : Presented) (b : ReplayBinding) (v : Verdict) (s : Nonces)
      → check_binding k now headers b ≡ some v
      → verify_found set_nx sqlite_only k now headers (some b) r s ≡ (r, s, v)
  verify_found-refused now headers b v s refused = rw (verify_found, refused) refl

  pub verify_found-passed :
      (now : ℕ) (headers : Presented) (b : ReplayBinding) (s : Nonces)
      → check_binding k now headers b ≡ none
      → verify_found set_nx sqlite_only k now headers (some b) r s
        ≡ consume set_nx sqlite_only now b.payload.nonce r s
  verify_found-passed now headers b s passed = rw (verify_found, passed) refl

  refused-invalid :
      (now : ℕ) (headers : Presented) (b : ReplayBinding) (v : Verdict)
      → check_binding k now headers b ≡ some v
      → is_valid v ≡ false
  refused-invalid now headers b v refused = ground arith

  attempt-Spends :
      (end : ℕ) (n : Text) (a : Attempt) (s : Nonces)
      → IsNonce n
      → IsUnique s.used_nonces
      → IsFresh end (lookup (key_of n) s.used_nonces)
      → (seconds a.now ≤ seconds end) × (seconds end ≤ seconds a.now + seven_days)
      → let (r', s', v) = attempt a s in
        Spends end n (has_nonce n (lookup a.binding_id a.bindings) && is_valid v) s s'
  unfolding verify_replay_binding
  attempt-Spends end n a s h u fresh w = elim (Option-cases (lookup a.binding_id a.bindings)) [
    | inl gone ↦ rw gone (omega arith, fresh, u)
    | inr (b, there) ↦ elim (Option-cases (check_binding k a.now a.headers b)) [
      | inr (v, refused) ↦ rw there (
          rw (verify_found-refused a.now a.headers b v s refused) (
            rw (refused-invalid a.now a.headers b v refused)
              (unspent end n b.payload.nonce s u fresh)))
      | inl passed ↦
          let spent = claim_nonce_once-Spends end a.now n b.payload.nonce s h u fresh w in
          rw there (
            rw (verify_found-passed a.now a.headers b s passed) (
              rw (is_valid-if (claim_nonce_once set_nx sqlite_only a.now b.payload.nonce r s).2)
                spent))
    ]
  ]

  verified-le-left :
      (end : ℕ) (n : Text) (calls : List Attempt) (s : Nonces)
      → IsNonce n
      → IsUnique s.used_nonces
      → IsFresh end (lookup (key_of n) s.used_nonces)
      → All (WithinWeek end) calls
      → verified n calls s ≤ left (lookup (key_of n) s.used_nonces)
  unfolding verified
  verified-le-left end n [] s h u fresh w = omega arith
  verified-le-left end n (a ∷ rest) s h u fresh w =
      let (le, fresh', u') = attempt-Spends end n a s h u fresh w.0 in
      omega (arith, le, verified-le-left end n rest (attempt a s).1 h u' fresh' w.1)

  -- Where neither a Redis nor its REST service is configured, so that SQLite decides: of all verifications that
  -- come within seven days, of any bindings and in any order, at most one
  -- finds a binding with a given nonce valid; none does, if the nonce was consumed before and its row
  -- is at most seven days old at the end.
  pub verified_once :
      (end : ℕ) (n : Text) (calls : List Attempt) (s : Nonces)
      → IsNonce n
      → IsUnique s.used_nonces
      → IsFresh end (lookup (key_of n) s.used_nonces)
      → All (WithinWeek end) calls
      → (verified n calls s ≤ 1)
        × ((row : NonceRow) → lookup (key_of n) s.used_nonces ≡ some row → verified n calls s ≡ 0)
  verified_once end n calls s h u fresh w =
      let le = verified-le-left end n calls s h u fresh w in
      (
        omega (arith, le, left-le (lookup (key_of n) s.used_nonces)),
        λ row there. let le' = rw there at le in omega (arith, le'),
      )
