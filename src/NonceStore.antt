-- ===== src/NonceStore.antt =====
-- src/lib/nonce-store.ts: one-time keys in the table used_nonces, or in a Redis that is shared by
-- several servers. Redis is an argument: its `SET key 1 NX EX ttl`, as a function of its own state.
pub mod Once
mod Examples
use x402_agent_suite.Base.{
  ℕ, ◌+◌, ◌/◌, Bool, true, false, not, Option, none, some, Text, text, is_empty, trim, ◌++◌, length,
  take, ◌||◌, ◌&&◌, Dict, lookup, insert, keep_entries, ltb, leb, if◌then◌else◌,
}

pub record NonceRow : Type 0 where
  pub network : Text
  pub used_at : ℕ

pub record Nonces : Type 0 where
  pub used_nonces : Dict NonceRow
  pub clean_counter : ℕ

-- Which store takes the claims: a Redis client, the Redis REST interface, or SQLite alone.
pub data Backend : Type 0 where
  redis_client redis_rest sqlite_only : Backend

abbrev pub sqlite_clean_every : ℕ
sqlite_clean_every = 50

abbrev pub seven_days : ℕ
seven_days = 604_800

abbrev pub seconds : ℕ → ℕ
seconds now = now / 1000

-- The key as it is stored: trimmed, at most 200 characters of it.
unfoldable pub store_key : Text → Text
store_key raw = take 200 (trim raw)

-- `!key || key.length < 8`: such keys are not tracked.
unfoldable pub is_untracked : Text → Bool
is_untracked raw = is_empty (trim raw) || ltb (length (trim raw)) 8

abbrev pub is_used : Text → Dict NonceRow → Bool
is_used key rows = elim (lookup key rows) [ none ↦ false | some r ↦ true ]

-- `INSERT OR IGNORE`, where no row has the key.
abbrev pub insert_nonce : ℕ → Text → Text → Nonces → Nonces
insert_nonce now key network s = record s {
  used_nonces = insert key (record { network = network; used_at = seconds now }) s.used_nonces;
}

unfoldable pub sqlite_claim : ℕ → Text → Text → Nonces → Nonces × Bool
sqlite_claim now key network s =
    if is_used key s.used_nonces then (s, false) else (insert_nonce now key network s, true)

abbrev pub is_kept : ℕ → NonceRow → Bool
is_kept now r = leb (seconds now) (r.used_at + seven_days)

unfoldable pub maybe_clean_sqlite : ℕ → Nonces → Nonces
maybe_clean_sqlite now s =
    if leb sqlite_clean_every (s.clean_counter + 1)
    then record { used_nonces = keep_entries (is_kept now) s.used_nonces; clean_counter = 0 }
    else record s { clean_counter = s.clean_counter + 1 }

module _ {R : Type 0} (set_nx : Text → ℕ → R → R × Bool) where
  -- With Redis the claim is decided there, and SQLite notes it.
  abbrev pub claim_remote : ℕ → Text → Text → ℕ → R → Nonces → R × Nonces × Bool
  claim_remote now key network ttl_sec r s =
      let (r', ok) = set_nx (text "x402:nonce:" ++ key) ttl_sec r in
      if ok then (r', (sqlite_claim now key network s).0, true) else (r', s, false)

  abbrev pub claim_local : ℕ → Text → Text → R → Nonces → R × Nonces × Bool
  claim_local now key network r s =
      let (s', ok) = sqlite_claim now key network (maybe_clean_sqlite now s) in (r, s', ok)

  unfoldable pub claim_nonce_key : Backend → ℕ → Text → Text → ℕ → R → Nonces → R × Nonces × Bool
  unfolding sqlite_claim maybe_clean_sqlite store_key is_untracked
  claim_nonce_key backend now raw_key network ttl_sec r s =
      if is_untracked raw_key then (r, s, true) else elim backend [
        | redis_client ↦ claim_remote now (store_key raw_key) network ttl_sec r s
        | redis_rest ↦ claim_remote now (store_key raw_key) network ttl_sec r s
        | sqlite_only ↦ claim_local now (store_key raw_key) network r s
      ]

unfoldable pub is_nonce_key_used : Text → Nonces → Bool
unfolding store_key is_untracked
is_nonce_key_used raw_key s =
    not (is_untracked raw_key) && is_used (store_key raw_key) s.used_nonces
