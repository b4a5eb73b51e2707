-- ===== src/WalletSessions.antt =====
-- src/lib/wallet-sessions.ts: signed session tokens and the table `wallet_sessions`. The base64url
-- coding and the HMAC under the configured secret are functions of node; the random id and the clock,
-- in seconds, are arguments. `metadata` is kept as the JSON text that the row holds.
mod Token
mod Limits
mod Counting
mod Acceptance
mod Examples
use x402_agent_suite.Base.{
  split_dots, ℕ, ◌+◌, ◌-◌, min, Bool, true, false, ◌&&◌, ◌||◌, List, [], ◌∷◌, ◌++◌, Option, none,
  some, Text, text, text_eq, is_empty, lower, Dict, lookup, insert, length, keep_entries, not, ltb,
  leb, ◌==◌, if◌then◌else◌,
}

pub record WalletSession : Type 0 where
  pub session_id : Text
  pub wallet_address : Text
  pub agent_id : Option Text
  pub network : Text
  pub stablecoin : Text
  pub amount_paid : Text
  pub created_at : ℕ
  pub expires_at : ℕ
  pub revoked_at : Option ℕ
  pub call_count : ℕ
  pub max_calls : Option ℕ
  pub metadata : Option Text

pub record CreateSessionInput : Type 0 where
  pub wallet_address : Text
  pub agent_id : Option Text
  pub network : Text
  pub stablecoin : Option Text
  pub amount_paid : Text
  pub ttl_seconds : Option ℕ
  pub max_calls : Option ℕ
  pub metadata : Option Text

pub data Reason : Type 0 where
  invalid_token_signature session_not_found session_revoked session_expired : Reason
  call_limit_reached already_revoked : Reason

pub data SessionVerifyResult : Type 0 where
  valid : WalletSession → ℕ → Option ℕ → SessionVerifyResult
  invalid : Reason → SessionVerifyResult

abbrev pub default_ttl_seconds : ℕ
default_ttl_seconds = 3600

abbrev pub max_ttl_seconds : ℕ
max_ttl_seconds = 604_800

abbrev pub or_else {ℓ} : {A : Type ℓ} → Option A → A → A
or_else none d = d
or_else (some a) d = a

-- What node computes: `Buffer.from(id).toString("base64url")`, its inverse, and the HMAC.
pub record TokenCrypto : Type 0 where
  pub encode : Text → Text
  pub decode : Text → Text
  pub mac : Text → Text

abbrev pub verify_parts : TokenCrypto → List Text → Option Text
verify_parts k (encoded ∷ sig ∷ []) =
    let session_id = k.decode encoded in
    if text_eq sig (k.mac session_id) then some session_id else none
verify_parts k _ = none

unfoldable pub sign_token : TokenCrypto → Text → Text
sign_token k session_id = k.encode session_id ++ (b'.' ∷ k.mac session_id)

unfoldable pub verify_token : TokenCrypto → Text → Option Text
verify_token k token = verify_parts k (split_dots [] token)

-- `if (!sessionId)`: null and the empty text are refused alike.
abbrev pub truthy : Option Text → Option Text
truthy none = none
truthy (some id) = if is_empty id then none else some id

unfoldable pub create_wallet_session :
    TokenCrypto
    → Text
    → ℕ
    → CreateSessionInput
    → Dict WalletSession
    → Dict WalletSession × Text × WalletSession
unfolding sign_token
create_wallet_session k session_id now input table =
    (insert session_id row table, sign_token k session_id, row)
  where
    row : WalletSession
    row = record {
      session_id = session_id;
      wallet_address = lower input.wallet_address;
      agent_id = input.agent_id;
      network = input.network;
      stablecoin = or_else input.stablecoin (text "USDC");
      amount_paid = input.amount_paid;
      created_at = now;
      expires_at = now + min (or_else input.ttl_seconds default_ttl_seconds) max_ttl_seconds;
      revoked_at = none;
      call_count = 0;
      max_calls = input.max_calls;
      metadata = input.metadata;
    }

abbrev pub at_limit : Option ℕ → ℕ → Bool
at_limit none calls = false
at_limit (some m) calls = leb m calls

abbrev pub remaining_calls : Option ℕ → ℕ → Option ℕ
remaining_calls none calls = none
remaining_calls (some m) calls = some (m - calls)

abbrev pub is_some {ℓ} : {A : Type ℓ} → Option A → Bool
is_some none = false
is_some (some a) = true

-- `UPDATE wallet_sessions SET call_count = call_count + 1`, and the row read back.
abbrev pub counted : WalletSession → WalletSession
counted s = record s { call_count = s.call_count + 1 }

unfoldable pub verify_session :
    ℕ → Text → WalletSession → Dict WalletSession → Dict WalletSession × SessionVerifyResult
verify_session now session_id s table =
    if is_some s.revoked_at
    then (table, invalid session_revoked)
    else if leb s.expires_at now
    then (table, invalid session_expired)
    else if at_limit s.max_calls s.call_count
    then (table, invalid call_limit_reached)
    else (
      insert session_id (counted s) table,
      valid (counted s) (s.expires_at - now) (remaining_calls s.max_calls (counted s).call_count),
    )

-- What a checked session id leads to: the row, or its absence.
abbrev pub with_session {ℓ} :
    {A : Type ℓ} → Option Text → Dict WalletSession → A → A → (Text → WalletSession → A) → A
with_session none table bad_token missing k = bad_token
with_session (some id) table bad_token missing k = elim (lookup id table) [
  | none ↦ missing
  | some s ↦ k id s
]

unfoldable pub verify_wallet_session :
    TokenCrypto → ℕ → Text → Dict WalletSession → Dict WalletSession × SessionVerifyResult
unfolding verify_session verify_token
verify_wallet_session k now token table =
    with_session (truthy (verify_token k token)) table (table, invalid invalid_token_signature)
      (table, invalid session_not_found) (λ id s. verify_session now id s table)

-- `{ revoked: true }` is `none`, a refusal its reason.
unfoldable pub revoke_session :
    ℕ → Text → WalletSession → Dict WalletSession → Dict WalletSession × Option Reason
revoke_session now session_id s table =
    if is_some s.revoked_at
    then (table, some already_revoked)
    else (insert session_id (record s { revoked_at = some now }) table, none)

unfoldable pub revoke_wallet_session :
    TokenCrypto → ℕ → Text → Dict WalletSession → Dict WalletSession × Option Reason
unfolding revoke_session verify_token
revoke_wallet_session k now token table =
    with_session (truthy (verify_token k token)) table (table, some invalid_token_signature)
      (table, some session_not_found) (λ id s. revoke_session now id s table)

unfoldable pub get_wallet_session_info :
    TokenCrypto → Text → Dict WalletSession → Option WalletSession
unfolding verify_token
get_wallet_session_info k token table =
    with_session (truthy (verify_token k token)) table none none (λ id s. some s)

abbrev pub is_stale : ℕ → WalletSession → Bool
is_stale cutoff s = (ltb s.expires_at cutoff || is_some s.revoked_at) && ltb s.created_at cutoff

-- `DELETE FROM wallet_sessions WHERE ...`; `changes` counts the rows that went. No time lies below 0,
-- so the cut-off may stop there.
unfoldable pub prune_expired_sessions : ℕ → Dict WalletSession → Dict WalletSession × ℕ
prune_expired_sessions now table =
    let rest = keep_entries (λ s. not (is_stale (now - 2_592_000) s)) table in
    (rest, length table - length rest)
