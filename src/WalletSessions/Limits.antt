-- ===== src/WalletSessions/Limits.antt =====
-- src/lib/wallet-sessions.ts: when a token is accepted, and how often.
use mathlib.Core.Path.{subst}
use x402_agent_suite.Base.{
  ℕ, ◌+◌, ◌-◌, ◌<◌, ◌≡◌, refl, sym, ap, ◌∙◌, ◌↔◌, Bool, true, false, Option, none, some, Text, Dict,
  lookup, insert, lookup-insert_self, arith,
}
use x402_agent_suite.WalletSessions.{
  WalletSession, TokenCrypto, SessionVerifyResult, valid, invalid, verify_token, truthy, at_limit,
  remaining_calls, counted, verify_session, with_session, verify_wallet_session,
}

abbrev pub is_valid : SessionVerifyResult → Bool
is_valid (valid s ttl calls) = true
is_valid (invalid r) = false

-- The token leads to the stored session `s`.
abbrev pub LeadsTo : TokenCrypto → Text → Dict WalletSession → Text → WalletSession → Type 0
LeadsTo k token table id s = (truthy (verify_token k token) ≡ some id) × (lookup id table ≡ some s)

pub verify_leads :
    (k : TokenCrypto) (now : ℕ) (token : Text) (table : Dict WalletSession) (id : Text)
    (s : WalletSession)
    → LeadsTo k token table id s
    → verify_wallet_session k now token table ≡ verify_session now id s table
unfolding verify_wallet_session
verify_leads k now token table id s (t, row) = rw (t, with_session) (rw (row, with_session))

-- A number of calls below the limit, if there is one.
abbrev pub IsBelow : Option ℕ → ℕ → Type 0
IsBelow none calls = Unit
IsBelow (some m) calls = calls < m

pub at_limit_iff :
    (limit : Option ℕ) (calls : ℕ) → (at_limit limit calls ≡ false) ↔ IsBelow limit calls
at_limit_iff none calls = ((λ h. tt), λ h. refl)
at_limit_iff (some m) calls = ((λ h. ground (arith, h)), λ h. ground (arith, h))

-- The three conditions under which a call is admitted.
abbrev pub Usable : ℕ → WalletSession → Type 0
Usable now s = (s.revoked_at ≡ none) × (now < s.expires_at) × IsBelow s.max_calls s.call_count

-- What an answer says to the caller: the session with this call counted, the seconds until it expires, and
-- the calls that are left after this one, if they are limited.
abbrev pub AddsUp : Option ℕ → ℕ → Option ℕ → Type 0
AddsUp none calls rest = rest ≡ none
AddsUp (some m) calls rest = (n : ℕ) × (rest ≡ some n) × (calls + 1 + n ≡ m)

abbrev pub IsExact : ℕ → WalletSession → SessionVerifyResult → Type 0
IsExact now s (invalid reason) = ⊥
IsExact now s (valid s' ttl rest) =
    (s' ≡ record s { call_count = s.call_count + 1 })
    × (now + ttl ≡ s.expires_at)
    × AddsUp s.max_calls s.call_count rest

remaining-AddsUp :
    (limit : Option ℕ) (calls : ℕ)
    → IsBelow limit calls
    → AddsUp limit calls (remaining_calls limit (calls + 1))
remaining-AddsUp none calls h = refl
remaining-AddsUp (some m) calls h = (m - (calls + 1), refl, omega (arith, h))

module _ (now : ℕ) (id : Text) (s : WalletSession) (table : Dict WalletSession) where
  pub verify_session_iff : (is_valid (verify_session now id s table).1 ≡ true) ↔ Usable now s
  unfolding verify_session
  verify_session_iff = ground (arith, at_limit_iff s.max_calls s.call_count)

  pub verify_session_admits :
      is_valid (verify_session now id s table).1 ≡ true
      → verify_session now id s table ≡ (
        insert id (counted s) table,
        valid (counted s) (s.expires_at - now) (remaining_calls s.max_calls (counted s).call_count),
      )
  unfolding verify_session
  verify_session_admits h = ground arith

  pub verify_session_refuses :
      is_valid (verify_session now id s table).1 ≡ false → (verify_session now id s table).0 ≡ table
  unfolding verify_session
  verify_session_refuses h = ground arith

-- A token of a stored session is accepted exactly when the session is not revoked, its expiry is still to
-- come and its calls are fewer than its limit, if it has one. Then the call is counted in the table, and
-- the answer has the session with this call, the seconds until it expires, and the number of calls that
-- are left after this one; otherwise the table stays as it is.
pub verify_valid_iff :
    (k : TokenCrypto) (now : ℕ) (token : Text) (table : Dict WalletSession) (id : Text)
    (s : WalletSession)
    → LeadsTo k token table id s
    → let r = verify_wallet_session k now token table in
      ((is_valid r.1 ≡ true) ↔ Usable now s)
      × (is_valid r.1 ≡ true → (lookup id r.0 ≡ some (counted s)) × IsExact now s r.1)
      × (is_valid r.1 ≡ false → r.0 ≡ table)
verify_valid_iff k now token table id s leads = rw (verify_leads k now token table id s leads) (
  verify_session_iff now id s table,
  λ h.
      let (unrevoked, early, below) = (verify_session_iff now id s table).0 h in
      let same = verify_session_admits now id s table h in
      (
        ap (λ r. lookup id r.0) same ∙ lookup-insert_self id (counted s) table,
        subst (λ r. IsExact now s r.1) (sym same)
            (refl, omega (arith, early), remaining-AddsUp s.max_calls s.call_count below),
      ),
  verify_session_refuses now id s table,
)
