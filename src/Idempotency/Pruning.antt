-- ===== src/Idempotency/Pruning.antt =====
-- src/lib/idempotency.ts: what the periodic pruning leaves.
use x402_agent_suite.Base.{
  ℕ, ◌+◌, ◌*◌, ◌≤◌, ◌<◌, ◌≡◌, refl, inl, inr, Option, none, some, Text, lookup, insert, passing,
  lookup-keep_entries, IsUnique, IsUnique-keep_entries, IsUnique-insert, Bool-cases, leb, arith,
}
use x402_agent_suite.Idempotency.{
  CacheRow, Store, ttl_sec, prune_every, seconds, kept_in_cache, kept_in_flight, maybe_prune,
  unexpired, load_hit,
}

-- Each table has a primary key.
pub record IsTable (s : Store) : Type 0 where
  pub cache_unique : IsUnique s.cache
  pub inflight_unique : IsUnique s.inflight

pub maybe_prune-IsTable : (now : ℕ) (s : Store) → IsTable s → IsTable (maybe_prune now s)
unfolding maybe_prune
maybe_prune-IsTable now s t = elim (Bool-cases (leb prune_every (s.prune_counter + 1))) [
  | inl due ↦ rw due (record {
    cache_unique = IsUnique-keep_entries (kept_in_cache now) s.cache t.cache_unique;
    inflight_unique = IsUnique-keep_entries (kept_in_flight now) s.inflight t.inflight_unique;
  })
  | inr early ↦
      rw early (record { cache_unique = t.cache_unique; inflight_unique = t.inflight_unique })
]

unexpired-passing :
    (now : ℕ) (o : Option CacheRow)
    → unexpired now (passing (kept_in_cache now) o) ≡ unexpired now o
unexpired-passing now none = refl
unexpired-passing now (some r) = ground arith

-- Pruning never takes a response away that could still be replayed: a lookup finds what it would
-- find without any pruning, the stored response for the 24 hours after it was stored.
pub load_hit-lookup :
    (now : ℕ) (k : Text) (s : Store)
    → IsTable s
    → (load_hit now k s).1 ≡ unexpired now (lookup k s.cache)
unfolding load_hit maybe_prune
load_hit-lookup now k s t = elim (Bool-cases (leb prune_every (s.prune_counter + 1))) [
  | inl due ↦
      rw (due, lookup-keep_entries (kept_in_cache now) k s.cache t.cache_unique)
        (unexpired-passing now (lookup k s.cache))
  | inr early ↦ rw early refl
]

-- A claim that is at most an hour old stays.
pub maybe_prune-inflight :
    (now c : ℕ) (k : Text) (s : Store)
    → IsTable s
    → lookup k s.inflight ≡ some c
    → seconds now ≤ c + 3600
    → lookup k (maybe_prune now s).inflight ≡ some c
unfolding maybe_prune
maybe_prune-inflight now c k s t held young =
    elim (Bool-cases (leb prune_every (s.prune_counter + 1))) [
      | inl due ↦
          rw (due, lookup-keep_entries (kept_in_flight now) k s.inflight t.inflight_unique, held)
            ground arith
      | inr early ↦ rw early held
    ]

pub maybe_prune-none :
    (now : ℕ) (k : Text) (s : Store)
    → IsTable s
    → lookup k s.inflight ≡ none
    → lookup k (maybe_prune now s).inflight ≡ none
unfolding maybe_prune
maybe_prune-none now k s t free = elim (Bool-cases (leb prune_every (s.prune_counter + 1))) [
  | inl due ↦
      rw (due, lookup-keep_entries (kept_in_flight now) k s.inflight t.inflight_unique, free) refl
  | inr early ↦ rw early free
]

pub maybe_prune-uncached :
    (now : ℕ) (k : Text) (s : Store)
    → IsTable s
    → lookup k s.cache ≡ none
    → lookup k (maybe_prune now s).cache ≡ none
unfolding maybe_prune
maybe_prune-uncached now k s t miss = elim (Bool-cases (leb prune_every (s.prune_counter + 1))) [
  | inl due ↦ rw (due, lookup-keep_entries (kept_in_cache now) k s.cache t.cache_unique, miss) refl
  | inr early ↦ rw early miss
]

-- Pruning keeps a response that could still be replayed.
pub maybe_prune-cache :
    (now : ℕ) (k : Text) (r : CacheRow) (s : Store)
    → IsTable s
    → lookup k s.cache ≡ some r
    → now < (r.created_at + ttl_sec) * 1000
    → lookup k (maybe_prune now s).cache ≡ some r
unfolding maybe_prune
maybe_prune-cache now k r s t held fresh =
    elim (Bool-cases (leb prune_every (s.prune_counter + 1))) [
      | inl due ↦
          rw (due, lookup-keep_entries (kept_in_cache now) k s.cache t.cache_unique, held) ground
            arith
      | inr early ↦ rw early held
    ]

pub claim-IsTable :
    (k : Text) (c : ℕ) (s : Store)
    → IsTable s
    → IsTable (record s { inflight = insert k c s.inflight })
claim-IsTable k c s t = record {
  cache_unique = t.cache_unique;
  inflight_unique = IsUnique-insert k c s.inflight t.inflight_unique;
}
