-- ===== src/ReplayGuard/Verdicts.antt =====
-- src/protocol/replay-guard.ts: what the verification of a binding that was created says.
use mathlib.Core.List.{append_cancel_right}
use x402_agent_suite.Base.{
  le→ltb, ℕ, ◌+◌, ◌≤◌, ◌≡◌, ◌≢◌, refl, sym, inl, inr, Bool, true, false, not, ◌&&◌, ◌++◌, none,
  some, Text, text, text_eq, text_eq_iff, text_eq_refl, is_empty, Dict, lookup, lookup-insert_self,
  IsUnique, lookup-keep_entries, Bool-cases, ltb, leb,
}
use x402_agent_suite.NonceStore.{
  Nonces, sqlite_only, sqlite_clean_every, is_used, is_kept, claim_nonce_key, is_nonce_key_used,
  maybe_clean_sqlite,
}
use x402_agent_suite.NonceStore.Once.{sqlite_claim-new}
use x402_agent_suite.ReplayGuard.{
  ReplayBindingInput, ReplayBinding, Presented, valid, resource_substitution, ReplayCrypto, or_else,
  body_json, claim_nonce_once, check_binding, verify_found, verify_replay_binding,
  create_replay_binding, new_payload, other_resource, differs, other_body,
}
use x402_agent_suite.ReplayGuard.Binding.{IsNonce, proto_key-tracked, safe_nonce-filled}
use x402_agent_suite.ReplayGuard.Replays.{key_of, verify_found-refused, verify_found-passed}

clean-none :
    (now : ℕ) (key : Text) (s : Nonces)
    → IsUnique s.used_nonces
    → lookup key s.used_nonces ≡ none
    → lookup key (maybe_clean_sqlite now s).used_nonces ≡ none
unfolding maybe_clean_sqlite
clean-none now key s u free = elim (Bool-cases (leb sqlite_clean_every (s.clean_counter + 1))) [
  | inl due ↦ rw (due, lookup-keep_entries (is_kept now) key s.used_nonces u, free) refl
  | inr not_due ↦ rw not_due free
]

and-false : (a : Bool) → (a && false) ≡ false
and-false true = refl
and-false false = refl

differs_self : (t : Text) → differs (some t) t ≡ false
differs_self t = rw (text_eq_refl t) (and-false (not (is_empty t)))

unequal : (s t : Text) → s ≢ t → text_eq s t ≡ false
unequal s t other = elim (Bool-cases (text_eq s t)) [
  | inl same ↦ absurd (other ((text_eq_iff s t).0 same))
  | inr differ ↦ differ
]

module _ {R : Type 0} (set_nx : Text → ℕ → R → R × Bool) (k : ReplayCrypto) (r : R) where
  -- A nonce without a row is consumed.
  claim_nonce_once-free :
      (now : ℕ) (n : Text) (s : Nonces)
      → IsNonce n
      → IsUnique s.used_nonces
      → lookup (key_of n) s.used_nonces ≡ none
      → (claim_nonce_once set_nx sqlite_only now n r s).2 ≡ true
  unfolding claim_nonce_once is_nonce_key_used claim_nonce_key
  claim_nonce_once-free now n s h u free =
      rw (safe_nonce-filled n h, proto_key-tracked n h, is_used, free)
        (rw
          (sqlite_claim-new now (key_of n) (text "protocol-replay") (maybe_clean_sqlite now s)
            (clean-none now (key_of n) s u free))
          refl)

  pub found-valid :
      (now : ℕ) (headers : Presented) (b : ReplayBinding) (s : Nonces)
      → check_binding k now headers b ≡ none
      → IsNonce b.payload.nonce
      → IsUnique s.used_nonces
      → lookup (key_of b.payload.nonce) s.used_nonces ≡ none
      → (verify_found set_nx sqlite_only k now headers (some b) r s).2 ≡ valid
  found-valid now headers b s passed h u free =
      rw (verify_found-passed set_nx k r now headers b s passed)
        (rw (claim_nonce_once-free now b.payload.nonce s h u free) refl)

  -- The headers that present a binding as it was created.
  abbrev pub presented : ReplayBindingInput → Text → Presented
  presented input nonce = record {
    nonce = some nonce;
    resource_url = some input.resource_url;
    request_body = some (body_json input.request_body);
  }

  abbrev pub created : ℕ → Text → ReplayBindingInput → ReplayBinding
  created now clock_text input =
      let p = new_payload k now clock_text input in
      record { payload = p; signature = k.hmac_sign p }

  check-created :
      (now later : ℕ) (clock_text : Text) (input : ReplayBindingInput)
      → or_else input.method (text "POST") ≡ text "POST"
      → later ≤ (created now clock_text input).payload.expires_at
      → let b = created now clock_text input in
        check_binding k later (presented input b.payload.nonce) b ≡ none
  unfolding new_payload
  check-created now later clock_text input post early =
      let b = created now clock_text input in
      let p = b.payload in
      let nonce : differs (some p.nonce) p.nonce ≡ false = differs_self p.nonce in
      let url : other_resource k (some input.resource_url) p.resource_hash ≡ false =
        rw (post, text_eq_refl (k.sha256_hex (text "POST:" ++ input.resource_url)))
          (and-false (not (is_empty input.resource_url))) in
      let body : other_body k (some (body_json input.request_body)) p.request_hash ≡ false =
        rw (text_eq_refl p.request_hash) refl in
      let time : ltb p.expires_at later ≡ false = le→ltb later p.expires_at early in
      rw (check_binding, text_eq_refl (k.hmac_sign p), time) (rw nonce (rw url (rw body refl)))

  -- A binding created for POST, presented before it expires with its own nonce, resource and body,
  -- is valid, if its nonce is 32 hex digits that were not consumed before.
  pub verify-create :
      (now later : ℕ) (clock_text : Text) (input : ReplayBindingInput) (store : Dict ReplayBinding)
      (s : Nonces)
      → or_else input.method (text "POST") ≡ text "POST"
      → let (store', b) = create_replay_binding k now clock_text input store in
        IsNonce b.payload.nonce
        → later ≤ b.payload.expires_at
        → IsUnique s.used_nonces
        → lookup (key_of b.payload.nonce) s.used_nonces ≡ none
        → (verify_replay_binding set_nx sqlite_only k later b.payload.binding_id
            (presented input b.payload.nonce)
            store'
            r
            s).2
          ≡ valid
  unfolding create_replay_binding verify_replay_binding
  verify-create now later clock_text input store s post h early u free =
      let b = created now clock_text input in
      rw (lookup-insert_self b.payload.binding_id b store) (
        found-valid later (presented input b.payload.nonce) b s
          (check-created now later clock_text input post early) h u free)

  check-other_method :
      (now later : ℕ) (clock_text method : Text) (input : ReplayBindingInput)
      → ((t u : Text) → k.sha256_hex t ≡ k.sha256_hex u → t ≡ u)
      → input.method ≡ some method
      → method ≢ text "POST"
      → is_empty input.resource_url ≡ false
      → later ≤ (created now clock_text input).payload.expires_at
      → let b = created now clock_text input in
        check_binding k later (presented input b.payload.nonce) b ≡ some resource_substitution
  unfolding new_payload
  check-other_method now later clock_text method input injective is other url early =
      let b = created now clock_text input in
      let p = b.payload in
      let nonce : differs (some p.nonce) p.nonce ≡ false = differs_self p.nonce in
      let differ : text_eq (k.sha256_hex (text "POST:" ++ input.resource_url)) p.resource_hash
          ≡ false =
        rw is (
          unequal _ _ (λ e. other (
            append_cancel_right method (text "POST") (text ":" ++ input.resource_url)
              (sym (injective _ _ e))))) in
      let time : ltb p.expires_at later ≡ false = le→ltb later p.expires_at early in
      rw (check_binding, text_eq_refl (k.hmac_sign p), time) (rw nonce (rw (url, differ) refl))

  -- A binding created for another method than POST is refused when it is presented in time with its
  -- own nonce and its own resource, as a substitution of the resource, if SHA-256 does not collide.
  pub other_method_refused :
      (now later : ℕ) (clock_text method : Text) (input : ReplayBindingInput)
      (store : Dict ReplayBinding) (s : Nonces)
      → ((t u : Text) → k.sha256_hex t ≡ k.sha256_hex u → t ≡ u)
      → input.method ≡ some method
      → method ≢ text "POST"
      → is_empty input.resource_url ≡ false
      → let (store', b) = create_replay_binding k now clock_text input store in
        later ≤ b.payload.expires_at
        → verify_replay_binding set_nx sqlite_only k later b.payload.binding_id
            (presented input b.payload.nonce)
            store'
            r
            s
          ≡ (r, s, resource_substitution)
  unfolding create_replay_binding verify_replay_binding
  other_method_refused now later clock_text method input store s injective is other url early =
      let b = created now clock_text input in
      rw (lookup-insert_self b.payload.binding_id b store) (
        verify_found-refused set_nx k r later (presented input b.payload.nonce) b
          resource_substitution s
          (check-other_method now later clock_text method input injective is other url early))
