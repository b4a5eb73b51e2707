-- ===== src/Idempotency.antt =====
-- src/lib/idempotency.ts: safe retries of paid requests. Times are milliseconds; `unixepoch()` is the
-- whole seconds of the same clock. A JSON body is its text, and the hash of one is an argument.
mod Pruning
mod PreCheck
mod Responses
mod Exclusive
mod OneEach
mod Replay
mod Promises
mod Retries
mod Blocked
mod Examples
use x402_agent_suite.Base.{
  ℕ, ◌+◌, ◌*◌, ◌/◌, Bool, true, false, not, ◌&&◌, ◌||◌, Option, none, some, Text, text, is_empty,
  trim, ◌++◌, length, Dict, lookup, insert, remove, keep_entries, text_eq, ltb, leb, if◌then◌else◌,
}
use x402_agent_suite.X402Headers.{PaymentHeaders, has_payment_signature_header}

-- A row of the table idempotency_cache; its key is the cache key.
pub record CacheRow : Type 0 where
  pub status : ℕ
  pub body : Text
  pub body_hash : Text
  pub route : Text
  pub created_at : ℕ

pub record Store : Type 0 where
  pub cache : Dict CacheRow
  -- idempotency_inflight: when each claim was made.
  pub inflight : Dict ℕ
  pub prune_counter : ℕ

pub record Request : Type 0 where
  pub idempotency_key : Option Text
  pub headers : PaymentHeaders
  pub path : Text
  pub body : Text

-- What `idempotencyPreCheck` does: call `next()`, with a claim or without one, or answer itself.
pub data Answer : Type 0 where
  next : Option Text → Answer
  replayed : ℕ → Text → Answer
  key_reused : Answer
  in_progress : Answer

abbrev pub ttl_sec : ℕ
ttl_sec = 86_400

abbrev pub prune_every : ℕ
prune_every = 1000

abbrev pub seconds : ℕ → ℕ
seconds now = now / 1000

abbrev pub kept_in_cache : ℕ → CacheRow → Bool
kept_in_cache now r = not (ltb (r.created_at + ttl_sec) (seconds now))

abbrev pub kept_in_flight : ℕ → ℕ → Bool
kept_in_flight now created_at = not (ltb (created_at + 3600) (seconds now))

unfoldable pub maybe_prune : ℕ → Store → Store
maybe_prune now s =
    if leb prune_every (s.prune_counter + 1)
    then record {
      cache = keep_entries (kept_in_cache now) s.cache;
      inflight = keep_entries (kept_in_flight now) s.inflight;
      prune_counter = 0;
    }
    else record s { prune_counter = s.prune_counter + 1 }

abbrev pub cache_key : Text → Text → Text
cache_key route key = route ++ (text "::" ++ key)

abbrev pub released : Text → Store → Store
released k s = record s { inflight = remove k s.inflight }

abbrev pub claim_free : ℕ → Text → Option ℕ → Store → Store × Bool
claim_free now k none s = (record s { inflight = insert k (seconds now) s.inflight }, true)
claim_free now k (some t) s = (s, false)

unfoldable pub try_claim_in_flight : ℕ → Text → Store → Store × Bool
try_claim_in_flight now k s = claim_free now k (lookup k s.inflight) s

abbrev pub unexpired : ℕ → Option CacheRow → Option CacheRow
unexpired now none = none
unexpired now (some r) = if leb (r.created_at * 1000 + ttl_sec * 1000) now then none else some r

unfoldable pub load_hit : ℕ → Text → Store → Store × Option CacheRow
unfolding maybe_prune
load_hit now k s = let p = maybe_prune now s in (p, unexpired now (lookup k p.cache))

abbrev pub key_of : Request → Text
key_of req = elim req.idempotency_key [ none ↦ text "" | some t ↦ trim t ]

abbrev pub is_usable : Text → Bool
is_usable key = not (is_empty key || ltb 128 (length key))

abbrev pub release_claim : Option Text → Store → Store
release_claim none s = s
release_claim (some k) s = released k s

abbrev pub is_success : ℕ → Bool
is_success status = leb 200 status && ltb status 300

-- `res.end` without `res.json`.
unfoldable pub respond_end : Request → Option Text → Store → Store
respond_end req claim s = if not (is_usable (key_of req)) then s else release_claim claim s

module _ (hash : Text → Text) where
  abbrev pub answer_hit : Request → CacheRow → Answer
  answer_hit req r =
      if not (text_eq r.body_hash (hash req.body)) then key_reused else replayed r.status r.body

  abbrev pub answer_retry : Request → Store × Option CacheRow → Store × Answer
  answer_retry req (s, some r) = (s, answer_hit req r)
  answer_retry req (s, none) = (s, in_progress)

  abbrev pub answer_claim : ℕ → Request → Text → Store × Bool → Store × Answer
  answer_claim now req k (s, true) = (s, next (some k))
  answer_claim now req k (s, false) = answer_retry req (load_hit now k s)

  abbrev pub answer_lookup : ℕ → Request → Text → Store × Option CacheRow → Store × Answer
  answer_lookup now req k (s, some r) = (s, answer_hit req r)
  answer_lookup now req k (s, none) = answer_claim now req k (try_claim_in_flight now k s)

  unfoldable pub pre_check : ℕ → Request → Store → Store × Answer
  unfolding load_hit try_claim_in_flight
  pre_check now req s =
      if not (is_usable (key_of req))
      then (s, next none)
      else if not (has_payment_signature_header req.headers)
      then (s, next none)
      else let k = cache_key req.path (key_of req) in answer_lookup now req k (load_hit now k s)

  abbrev pub row_of : ℕ → Request → ℕ → Text → CacheRow
  row_of now req status body = record {
    status = status;
    body = body;
    body_hash = hash req.body;
    route = req.path;
    created_at = seconds now;
  }

  abbrev pub captured : ℕ → Request → ℕ → Text → Store → Store
  captured now req status body s = record s {
    cache = insert (cache_key req.path (key_of req)) (row_of now req status body) s.cache;
  }

  -- `res.json` as `idempotencyCapture` wraps it; it ends in `res.end`, which releases once more.
  unfoldable pub respond_json : ℕ → Request → Option Text → ℕ → Text → Store → Store
  respond_json now req claim status body s =
      if not (is_usable (key_of req))
      then s
      else release_claim claim (
          release_claim claim (
            if is_success status && has_payment_signature_header req.headers
            then captured now req status body s
            else s))
