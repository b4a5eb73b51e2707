-- ===== src/WalletSessions/Counting.antt =====
-- src/lib/wallet-sessions.ts: how often the tokens of one session are accepted, over all orders of calls.
use mathlib.Core.Path.{subst}
use x402_agent_suite.Base.{
  ℕ, ◌+◌, ◌≤◌, ◌≡◌, refl, inl, inr, Bool, true, false, List, [], ◌∷◌, ◌&&◌, Option, none, some,
  Text, text_eq, text_eq_iff, Dict, lookup, insert, lookup-insert, IsUnique, passing,
  lookup-keep_entries, Bool-cases, Option-cases, if◌then◌else◌, arith,
}
use x402_agent_suite.WalletSessions.{
  WalletSession, TokenCrypto, invalid, invalid_token_signature, session_not_found, verify_token,
  truthy, at_limit, is_some, counted, verify_session, with_session, verify_wallet_session,
  revoke_session, revoke_wallet_session, prune_expired_sessions,
}
use x402_agent_suite.WalletSessions.Limits.{
  is_valid, at_limit_iff, verify_leads, verify_session_iff, verify_session_admits,
  verify_session_refuses,
}

pub data Call : Type 0 where
  verifies revokes : (now : ℕ) (token : Text) → Call
  prunes : (now : ℕ) → Call

unfoldable pub perform : TokenCrypto → Call → Dict WalletSession → Dict WalletSession
unfolding verify_wallet_session revoke_wallet_session prune_expired_sessions
perform k (verifies now token) table = (verify_wallet_session k now token table).0
perform k (revokes now token) table = (revoke_wallet_session k now token table).0
perform k (prunes now) table = (prune_expired_sessions now table).0

abbrev pub is_for : Text → Option Text → Bool
is_for id none = false
is_for id (some j) = text_eq j id

-- 1 if the call is an accepted verification of the session `id`, and 0 otherwise.
unfoldable pub hit : TokenCrypto → Text → Call → Dict WalletSession → ℕ
hit k id (verifies now token) table =
    if is_for id (truthy (verify_token k token))
      && is_valid (verify_wallet_session k now token table).1
    then 1
    else 0
hit k id (revokes now token) table = 0
hit k id (prunes now) table = 0

-- How many verifications of the session are accepted in a sequence of calls.
unfoldable pub accepted : TokenCrypto → Text → List Call → Dict WalletSession → ℕ
unfolding hit perform
accepted k id [] table = 0
accepted k id (c ∷ cs) table = hit k id c table + accepted k id cs (perform k c table)

-- What one call does to the row of a session with the call limit `m`.
abbrev pub Counts : ℕ → ℕ → Option WalletSession → Option WalletSession → Type 0
Counts m h none o = (o ≡ none) × (h ≡ 0)
Counts m h (some s) none = h ≡ 0
Counts m h (some s) (some t) =
    (t.max_calls ≡ s.max_calls)
    × (t.call_count ≡ s.call_count + h)
    × (s.max_calls ≡ some m → s.call_count ≤ m → t.call_count ≤ m)

Counts-same : (m : ℕ) (o : Option WalletSession) → Counts m 0 o o
Counts-same m none = (refl, refl)
Counts-same m (some s) = (refl, omega arith, λ e h. h)

Counts-refused :
    (m : ℕ) (b : Bool) (o : Option WalletSession) → Counts m (if b && false then 1 else 0) o o
Counts-refused m true o = Counts-same m o
Counts-refused m false o = Counts-same m o

Counts-same_of_bad :
    (m : ℕ) (b : Bool) (o : Option WalletSession) → Counts m (if false && b then 1 else 0) o o
Counts-same_of_bad m b o = Counts-same m o

module _ (k : TokenCrypto) (now : ℕ) (token : Text) (table : Dict WalletSession) where
  pub verify_bad_token :
      truthy (verify_token k token) ≡ none
      → verify_wallet_session k now token table ≡ (table, invalid invalid_token_signature)
  unfolding verify_wallet_session
  verify_bad_token e = rw (e, with_session)

  pub verify_missing :
      (j : Text)
      → truthy (verify_token k token) ≡ some j
      → lookup j table ≡ none
      → verify_wallet_session k now token table ≡ (table, invalid session_not_found)
  unfolding verify_wallet_session
  verify_missing j e f = rw (e, with_session) (rw (f, with_session))

-- An admitted call, seen from the session `id`.
Counts-counted :
    (m : ℕ) (j id : Text) (s : WalletSession) (table : Dict WalletSession)
    → lookup j table ≡ some s
    → at_limit s.max_calls s.call_count ≡ false
    → Counts m
        (if text_eq j id && true then 1 else 0)
        (lookup id table)
        (lookup id (insert j (counted s) table))
Counts-counted m j id s table found below = elim (Bool-cases (text_eq j id)) [
  | inl same ↦
      let row : lookup id table ≡ some s =
        subst (λ i. lookup i table ≡ some s) ((text_eq_iff j id).0 same) found in
      rw (lookup-insert j id (counted s) table, same, row)
        (refl, refl, λ e h. ground (arith, below, e, h))
  | inr other ↦ rw (lookup-insert j id (counted s) table, other) (Counts-same m (lookup id table))
]

module _ (k : TokenCrypto) (m : ℕ) (id : Text) (table : Dict WalletSession) where
  verify-Counts :
      (now : ℕ) (token : Text)
      → Counts m
          (hit k id (verifies now token) table)
          (lookup id table)
          (lookup id (verify_wallet_session k now token table).0)
  unfolding hit
  verify-Counts now token = elim (Option-cases (truthy (verify_token k token))) [
    | inl e ↦ rw (e, verify_bad_token k now token table e) (Counts-same m (lookup id table))
    | inr (j, e) ↦ elim (Option-cases (lookup j table)) [
      | inl missing ↦
          rw (verify_missing k now token table j e missing)
            (Counts-refused m (is_for id (truthy (verify_token k token))) (lookup id table))
      | inr (s, found) ↦
          rw (e, verify_leads k now token table j s (e, found))
            (elim (Bool-cases (is_valid (verify_session now j s table).1)) [
              | inl good ↦ rw (verify_session_admits now j s table good) (
                  Counts-counted m j id s table found (
                    (at_limit_iff s.max_calls s.call_count).1
                      ((verify_session_iff now j s table).0 good).2))
              | inr bad ↦
                  rw (bad, verify_session_refuses now j s table bad)
                    (Counts-refused m (text_eq j id) (lookup id table))
            ])
    ]
  ]

  revoke_session-Counts :
      (now : ℕ) (j : Text) (s : WalletSession)
      → lookup j table ≡ some s
      → Counts m 0 (lookup id table) (lookup id (revoke_session now j s table).0)
  unfolding revoke_session
  revoke_session-Counts now j s found = elim (Bool-cases (is_some s.revoked_at)) [
    | inl old ↦ rw old (Counts-same m (lookup id table))
    | inr new ↦ rw new (elim (Bool-cases (text_eq j id)) [
      | inl same ↦
          let row : lookup id table ≡ some s =
            subst (λ i. lookup i table ≡ some s) ((text_eq_iff j id).0 same) found in
          rw (lookup-insert j id (record s { revoked_at = some now }) table, same, row)
            (refl, omega arith, λ e h. h)
      | inr other ↦
          rw (lookup-insert j id (record s { revoked_at = some now }) table, other)
            (Counts-same m (lookup id table))
    ])
  ]

  revoke-Counts :
      (now : ℕ) (token : Text)
      → Counts m 0 (lookup id table) (lookup id (revoke_wallet_session k now token table).0)
  unfolding revoke_wallet_session
  revoke-Counts now token = elim (Option-cases (truthy (verify_token k token))) [
    | inl e ↦ rw (e, with_session) (Counts-same m (lookup id table))
    | inr (j, e) ↦ elim (Option-cases (lookup j table)) [
      | inl missing ↦
          rw (e, with_session) (rw (missing, with_session) (Counts-same m (lookup id table)))
      | inr (s, found) ↦
          rw (e, with_session) (rw (found, with_session) (revoke_session-Counts now j s found))
    ]
  ]

  passing-Counts :
      (p : WalletSession → Bool) (o : Option WalletSession) → Counts m 0 o (passing p o)
  passing-Counts p none = (refl, refl)
  passing-Counts p (some s) = elim (Bool-cases (p s)) [
    | inl good ↦ rw good (Counts-same m (some s))
    | inr bad ↦ rw bad refl
  ]

  prune-Counts :
      (now : ℕ)
      → IsUnique table
      → Counts m 0 (lookup id table) (lookup id (prune_expired_sessions now table).0)
  unfolding prune_expired_sessions
  prune-Counts now u = rw (lookup-keep_entries _ id table u) (passing-Counts _ (lookup id table))

  pub perform-Counts :
      (c : Call)
      → IsUnique table
      → Counts m (hit k id c table) (lookup id table) (lookup id (perform k c table))
  unfolding perform
  perform-Counts (verifies now token) u = verify-Counts now token
  perform-Counts (revokes now token) u = unfold hit in revoke-Counts now token
  perform-Counts (prunes now) u = unfold hit in prune-Counts now u
