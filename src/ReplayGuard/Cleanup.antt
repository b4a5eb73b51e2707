-- ===== src/ReplayGuard/Cleanup.antt =====
-- src/protocol/replay-guard.ts and src/lib/nonce-store.ts: a consumed nonce after its row is gone.
use x402_agent_suite.Base.{
  ℕ, ◌+◌, ◌≤◌, ◌<◌, ◌≡◌, refl, ◌∙◌, inl, inr, Bool, false, none, some, Text, text_eq, Dict, lookup,
  lookup-insert, IsUnique, IsUnique-insert, IsUnique-keep_entries, lookup-keep_entries, Bool-cases,
  Option-cases, leb, arith,
}
use x402_agent_suite.NonceStore.{
  NonceRow, Nonces, sqlite_only, seconds, seven_days, sqlite_clean_every, store_key, is_untracked,
  is_used, is_kept, claim_nonce_key, sqlite_claim, maybe_clean_sqlite, is_nonce_key_used,
}
use x402_agent_suite.NonceStore.Once.{sqlite_claim-new, sqlite_claim-used}
use x402_agent_suite.ReplayGuard.{
  ReplayBinding, Presented, valid, already_consumed, ReplayCrypto, check_binding,
  verify_replay_binding, claim_nonce_once,
}
use x402_agent_suite.ReplayGuard.Binding.{IsNonce, proto_key-tracked, safe_nonce-filled}
use x402_agent_suite.ReplayGuard.Replays.{key_of, verify_found-passed}
use x402_agent_suite.ReplayGuard.Verdicts.{found-valid}

clean-gone :
    (now : ℕ) (key : Text) (row : NonceRow) (s : Nonces)
    → IsUnique s.used_nonces
    → lookup key s.used_nonces ≡ some row
    → row.used_at + seven_days < seconds now
    → 50 ≤ s.clean_counter + 1
    → (lookup key (maybe_clean_sqlite now s).used_nonces ≡ none)
      × IsUnique (maybe_clean_sqlite now s).used_nonces
unfolding maybe_clean_sqlite
clean-gone now key row s u there old due =
    elim (Bool-cases (leb sqlite_clean_every (s.clean_counter + 1))) [
      | inl turn ↦ rw turn (
        lookup-keep_entries (is_kept now) key s.used_nonces u ∙ rw there ground arith,
        IsUnique-keep_entries (is_kept now) s.used_nonces u,
      )
      | inr wait ↦ absurd (ground (arith, wait, due))
    ]

sqlite_claim-other :
    (now : ℕ) (key k network : Text) (s : Nonces)
    → IsUnique s.used_nonces
    → lookup key s.used_nonces ≡ none
    → text_eq k key ≡ false
    → (lookup key (sqlite_claim now k network s).0.used_nonces ≡ none)
      × IsUnique (sqlite_claim now k network s).0.used_nonces
sqlite_claim-other now key k network s u free other = elim (Option-cases (lookup k s.used_nonces)) [
  | inr (row, taken) ↦ rw (sqlite_claim-used now k network row s taken) (free, u)
  | inl new ↦
      rw (sqlite_claim-new now k network s new)
        (lookup-insert k key _ s.used_nonces ∙ rw other free, IsUnique-insert k _ s.used_nonces u)
]

module _ {R : Type 0} (set_nx : Text → ℕ → R → R × Bool) (k : ReplayCrypto) (r : R) where
  -- A binding that has been consumed and has not expired is refused as a replay; once its nonce is
  -- seven days old and the claim of any other key has made the table be cleaned, it is valid again.
  pub consumed_again :
      (t later : ℕ) (other network id : Text) (row : NonceRow) (headers : Presented)
      (b : ReplayBinding) (store : Dict ReplayBinding) (s : Nonces)
      → IsNonce b.payload.nonce
      → lookup id store ≡ some b
      → check_binding k later headers b ≡ none
      → IsUnique s.used_nonces
      → lookup (key_of b.payload.nonce) s.used_nonces ≡ some row
      → row.used_at + seven_days < seconds t
      → 50 ≤ s.clean_counter + 1
      → is_untracked other ≡ false
      → text_eq (store_key other) (key_of b.payload.nonce) ≡ false
      → let s' = (claim_nonce_key set_nx sqlite_only t other network 604_800 r s).1 in
        ((verify_replay_binding set_nx sqlite_only k later id headers store r s).2
          ≡ already_consumed)
        × ((verify_replay_binding set_nx sqlite_only k later id headers store r s').2 ≡ valid)
  unfolding verify_replay_binding claim_nonce_key claim_nonce_once is_nonce_key_used
  consumed_again t later other network id row headers b store s h stored passed u there old due
        tracked differ =
      let (gone, u') = clean-gone t (key_of b.payload.nonce) row s u there old due in
      let (free, u'') =
        sqlite_claim-other t (key_of b.payload.nonce) (store_key other) network
          (maybe_clean_sqlite t s) u' gone differ in
      (
        rw stored (
            rw (verify_found-passed set_nx k r later headers b s passed) (
              rw
                (
                  safe_nonce-filled b.payload.nonce h,
                  proto_key-tracked b.payload.nonce h,
                  is_used,
                  there,
                )
                refl)),
        rw (stored, tracked)
            (found-valid set_nx k r later headers b
              (sqlite_claim t (store_key other) network (maybe_clean_sqlite t s)).0 passed h u''
              free),
      )
