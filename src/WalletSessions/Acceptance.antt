-- ===== src/WalletSessions/Acceptance.antt =====
-- src/lib/wallet-sessions.ts: acceptances of a session against its limit.
use mathlib.Core.Path.{subst}
use x402_agent_suite.Base.{
  ℕ, ◌+◌, ◌≤◌, ◌≡◌, refl, ◌∙◌, inl, inr, List, [], ◌∷◌, Option, none, some, Text, Dict, lookup,
  IsUnique, IsUnique-keep_entries, IsUnique-insert, Bool-cases, Option-cases, arith,
}
use x402_agent_suite.WalletSessions.{
  WalletSession, TokenCrypto, verify_token, truthy, is_some, counted, verify_session, with_session,
  verify_wallet_session, revoke_session, revoke_wallet_session, prune_expired_sessions,
}
use x402_agent_suite.WalletSessions.Limits.{
  is_valid, verify_leads, verify_session_admits, verify_session_refuses,
}
use x402_agent_suite.WalletSessions.Counting.{
  Call, verifies, revokes, prunes, perform, hit, accepted, Counts, verify_bad_token, verify_missing,
  perform-Counts,
}

verify-IsUnique :
    (k : TokenCrypto) (now : ℕ) (token : Text) (table : Dict WalletSession)
    → IsUnique table
    → IsUnique (verify_wallet_session k now token table).0
verify-IsUnique k now token table u = elim (Option-cases (truthy (verify_token k token))) [
  | inl e ↦ rw (verify_bad_token k now token table e) u
  | inr (j, e) ↦ elim (Option-cases (lookup j table)) [
    | inl missing ↦ rw (verify_missing k now token table j e missing) u
    | inr (s, found) ↦
        rw (verify_leads k now token table j s (e, found))
          (elim (Bool-cases (is_valid (verify_session now j s table).1)) [
            | inl good ↦
                rw (verify_session_admits now j s table good)
                  (IsUnique-insert j (counted s) table u)
            | inr bad ↦ rw (verify_session_refuses now j s table bad) u
          ])
  ]
]

revoke-IsUnique :
    (k : TokenCrypto) (now : ℕ) (token : Text) (table : Dict WalletSession)
    → IsUnique table
    → IsUnique (revoke_wallet_session k now token table).0
unfolding revoke_wallet_session
revoke-IsUnique k now token table u = elim (Option-cases (truthy (verify_token k token))) [
  | inl e ↦ rw (e, with_session) u
  | inr (j, e) ↦ elim (Option-cases (lookup j table)) [
    | inl missing ↦ rw (e, with_session) (rw (missing, with_session) u)
    | inr (s, found) ↦
        rw (e, with_session)
          (rw (found, with_session)
            (elim (Bool-cases (is_some s.revoked_at)) [
              | inl old ↦ rw (old, revoke_session) u
              | inr new ↦ rw (new, revoke_session) (IsUnique-insert j _ table u)
            ]))
  ]
]

perform-IsUnique :
    (k : TokenCrypto) (c : Call) (table : Dict WalletSession)
    → IsUnique table
    → IsUnique (perform k c table)
unfolding perform
perform-IsUnique k (verifies now token) table u = verify-IsUnique k now token table u
perform-IsUnique k (revokes now token) table u = revoke-IsUnique k now token table u
perform-IsUnique k (prunes now) table u =
    unfold prune_expired_sessions in IsUnique-keep_entries _ table u

-- A bound on the calls still to come, from the row that is there now.
abbrev Bound : ℕ → ℕ → Option WalletSession → Type 0
Bound m n none = n ≡ 0
Bound m n (some s) = s.max_calls ≡ some m → s.call_count ≤ m → n + s.call_count ≤ m

Bound-step :
    (m h n : ℕ) (o p : Option WalletSession) → Counts m h o p → Bound m n p → Bound m (h + n) o
Bound-step m h n none p (gone, zero_hit) b =
    let none_left : n ≡ 0 = subst (Bound m n) gone b in omega arith
Bound-step m h n (some s) none zero_hit b = λ e below. omega arith
Bound-step m h n (some s) (some t) (same, count, keeps) b = λ e below.
    let later : n + t.call_count ≤ m = b (same ∙ e) (keeps e below) in omega (arith, count)

accepted-Bound :
    (k : TokenCrypto) (m : ℕ) (id : Text) (cs : List Call) (table : Dict WalletSession)
    → IsUnique table
    → Bound m (accepted k id cs table) (lookup id table)
unfolding accepted
accepted-Bound k m id [] table u = elim (lookup id table) as (λ o. Bound m 0 o) [
  | none ↦ refl
  | some s ↦ λ e h. omega arith
]
accepted-Bound k m id (c ∷ cs) table u =
    Bound-step m (hit k id c table) (accepted k id cs (perform k c table)) (lookup id table) _
      (perform-Counts k m id table c u)
      (accepted-Bound k m id cs (perform k c table) (perform-IsUnique k c table u))

-- However verifications, revocations and clean-ups of any sessions are ordered, a session with a call
-- limit has at most as many verifications accepted as its limit leaves over its call count.
pub accepted-le-max_calls :
    (k : TokenCrypto) (m : ℕ) (id : Text) (s : WalletSession) (cs : List Call)
    (table : Dict WalletSession)
    → IsUnique table
    → lookup id table ≡ some s
    → s.max_calls ≡ some m
    → s.call_count ≤ m
    → accepted k id cs table + s.call_count ≤ m
accepted-le-max_calls k m id s cs table u found limit below =
    (subst (Bound m (accepted k id cs table)) found (accepted-Bound k m id cs table u)) limit below
