-- ===== src/ReplayGuard.antt =====
-- src/protocol/replay-guard.ts: bindings of a nonce to a request, which verify once. SHA-256 and the
-- HMAC of a payload's JSON text are arguments; bodies are JSON texts, times are milliseconds. The
-- protocol store "replay-bindings" is read and written as a whole.
mod Binding
mod Replays
mod Verdicts
mod Cleanup
mod Examples
use x402_agent_suite.Base.{
  ℕ, ◌+◌, ◌*◌, Bool, true, false, not, ◌&&◌, ◌||◌, Option, none, some, Text, text, text_eq,
  is_empty, ◌++◌, keep, take, Dict, lookup, insert, ltb, leb, if◌then◌else◌,
}
use x402_agent_suite.NonceStore.{Nonces, Backend, claim_nonce_key, is_nonce_key_used}

pub record ReplayBindingInput : Type 0 where
  pub agent_id : Text
  pub session_id : Option Text
  pub resource_url : Text
  pub method : Option Text
  pub request_body : Option Text
  pub ttl_seconds : Option ℕ

-- A `ReplayBinding` without its signature.
pub record Payload : Type 0 where
  pub binding_id : Text
  pub nonce : Text
  pub resource_hash : Text
  pub request_hash : Text
  pub agent_id : Text
  pub session_id : Text
  pub expires_at : ℕ

pub record ReplayBinding : Type 0 where
  pub payload : Payload
  pub signature : Text

-- The headers of a call; the agent id that they may name is not read.
pub record Presented : Type 0 where
  pub nonce : Option Text
  pub resource_url : Option Text
  pub request_body : Option Text

pub data Verdict : Type 0 where
  valid not_found signature_invalid expired nonce_mismatch : Verdict
  resource_substitution body_mismatch already_consumed : Verdict

-- What node computes: SHA-256 in hex, and `hmacSign(JSON.stringify(payload))`.
pub record ReplayCrypto : Type 0 where
  pub sha256_hex : Text → Text
  pub hmac_sign : Payload → Text

abbrev pub or_else {ℓ} : {A : Type ℓ} → Option A → A → A
or_else none d = d
or_else (some a) d = a

-- `JSON.stringify(body ?? {})`: a missing body and null are written `{}`.
abbrev pub body_json : Option Text → Text
body_json none = text "{}"
body_json (some t) = if text_eq t (text "null") then text "{}" else t

abbrev pub is_hex : ℕ → Bool
is_hex c = (leb b'0' c && leb c b'9') || ((leb b'a' c && leb c b'f') || (leb b'A' c && leb c b'F'))

-- `nonce.replace(/[^a-f0-9]/gi, "").slice(0, 64)`.
unfoldable pub safe_nonce : Text → Text
safe_nonce nonce = take 64 (keep is_hex nonce)

unfoldable pub new_payload : ReplayCrypto → ℕ → Text → ReplayBindingInput → Payload
new_payload k now clock_text input = record {
  binding_id = text "rb_" ++ take 16 nonce;
  nonce = nonce;
  resource_hash =
      k.sha256_hex (or_else input.method (text "POST") ++ (text ":" ++ input.resource_url));
  request_hash = k.sha256_hex (body_json input.request_body);
  agent_id = input.agent_id;
  session_id = or_else input.session_id (text "sess_" ++ input.agent_id);
  expires_at = now + or_else input.ttl_seconds 300 * 1000;
}
  where
    nonce : Text
    nonce = take 32 (k.sha256_hex (clock_text ++ (text ":" ++ input.agent_id)))

-- `clock_text` is the text of `Date.now()`.
unfoldable pub create_replay_binding :
    ReplayCrypto
    → ℕ
    → Text
    → ReplayBindingInput
    → Dict ReplayBinding
    → Dict ReplayBinding × ReplayBinding
unfolding new_payload
create_replay_binding k now clock_text input store =
    let p = new_payload k now clock_text input in
    let binding : ReplayBinding = record { payload = p; signature = k.hmac_sign p } in
    (insert p.binding_id binding store, binding)

-- `value && value !== expected`.
abbrev pub differs : Option Text → Text → Bool
differs none expected = false
differs (some t) expected = not (is_empty t) && not (text_eq t expected)

abbrev pub other_resource : ReplayCrypto → Option Text → Text → Bool
other_resource k none expected = false
other_resource k (some url) expected =
    not (is_empty url) && not (text_eq (k.sha256_hex (text "POST:" ++ url)) expected)

abbrev pub other_body : ReplayCrypto → Option Text → Text → Bool
other_body k none expected = false
other_body k (some body) expected = not (text_eq (k.sha256_hex body) expected)

abbrev pub check_binding : ReplayCrypto → ℕ → Presented → ReplayBinding → Option Verdict
check_binding k now headers b =
    if not (text_eq (k.hmac_sign b.payload) b.signature)
    then some signature_invalid
    else if ltb b.payload.expires_at now
    then some expired
    else if differs headers.nonce b.payload.nonce
    then some nonce_mismatch
    else if other_resource k headers.resource_url b.payload.resource_hash
    then some resource_substitution
    else if other_body k headers.request_body b.payload.request_hash
    then some body_mismatch
    else none

module _ {R : Type 0} (set_nx : Text → ℕ → R → R × Bool) (backend : Backend) where
  unfoldable pub claim_nonce_once : ℕ → Text → R → Nonces → R × Nonces × Bool
  unfolding claim_nonce_key is_nonce_key_used safe_nonce
  claim_nonce_once now nonce r s =
      let key = text "proto:" ++ safe_nonce nonce in
      if is_empty (safe_nonce nonce)
      then (r, s, false)
      else if is_nonce_key_used key s
      then (r, s, false)
      else claim_nonce_key set_nx backend now key (text "protocol-replay") 604_800 r s

  -- The last step: the nonce is consumed.
  abbrev pub consume : ℕ → Text → R → Nonces → R × Nonces × Verdict
  consume now nonce r s =
      let (r', s', ok) = claim_nonce_once now nonce r s in
      (r', s', if ok then valid else already_consumed)

  abbrev pub verify_found :
      ReplayCrypto → ℕ → Presented → Option ReplayBinding → R → Nonces → R × Nonces × Verdict
  verify_found k now headers none r s = (r, s, not_found)
  verify_found k now headers (some b) r s = elim (check_binding k now headers b) [
    | some v ↦ (r, s, v)
    | none ↦ consume now b.payload.nonce r s
  ]

  unfoldable pub verify_replay_binding :
      ReplayCrypto → ℕ → Text → Presented → Dict ReplayBinding → R → Nonces → R × Nonces × Verdict
  unfolding claim_nonce_once
  verify_replay_binding k now binding_id headers store r s =
      verify_found k now headers (lookup binding_id store) r s
