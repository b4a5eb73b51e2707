-- ===== src/RateLimit/Window.antt =====
-- src/lib/rate-limit.ts: how many requests of one key pass in a stretch of time.
use mathlib.Core.Path.{subst}
use x402_agent_suite.Base.{
  ℕ, ◌+◌, ◌-◌, ◌*◌, ◌≤◌, ◌<◌, ◌≡◌, refl, inl, inr, Bool, true, false, List, [], ◌∷◌, ◌&&◌, Option,
  none, some, Text, text_eq, text_eq_iff, text_eq_refl, Dict, lookup, lookup-insert,
  lookup-insert_self, IsUnique, passing, lookup-keep_entries, IsUnique-keep_entries,
  IsUnique-insert, ltb, leb, All, Bool-cases, if◌then◌else◌, arith,
}
use x402_agent_suite.RateLimit.{
  Bucket, Verdict, next, too_many, prune_expired, current_bucket, count_one, retry_after,
  count_request,
}

-- A request of some key, or the clean-up timer.
pub data Event : Type 0 where
  request : (key : Text) (now : ℕ) → Event
  sweep : (now : ℕ) → Event

abbrev pub time_of : Event → ℕ
time_of (request key now) = now
time_of (sweep now) = now

abbrev pub passes : Verdict → Bool
passes next = true
passes (too_many n) = false

leb-false : {a b : ℕ} → b < a → leb a b ≡ false
leb-false {a} {b} h = ground arith

module _ (window limit : ℕ) where
  unfoldable pub perform : Event → Dict Bucket → Dict Bucket
  unfolding count_request prune_expired
  perform (request key now) m = (count_request window limit key now m).0
  perform (sweep now) m = prune_expired now m

  -- 1 for a request of `key` that passes.
  unfoldable pub pass : Text → Event → Dict Bucket → ℕ
  unfolding count_request
  pass key (request j now) m =
      if text_eq j key && passes (count_request window limit j now m).1 then 1 else 0
  pass key (sweep now) m = 0

  unfoldable pub passed : Text → List Event → Dict Bucket → ℕ
  unfolding pass perform
  passed key [] m = 0
  passed key (e ∷ es) m = pass key e m + passed key es (perform e m)

  -- What a bucket still lets through before the time `end`, if no event comes a whole window earlier.
  abbrev pub allowance : ℕ → Option Bucket → ℕ
  allowance end none = limit
  allowance end (some b) = if leb end b.reset_at then limit - b.count else limit - b.count + limit

  -- The time lies in the window that ends at `end`.
  abbrev pub InWindow : ℕ → ℕ → Type 0
  InWindow end now = (now < end) × (end ≤ now + window)

  count_request-allowance :
      (end : ℕ) (o : Option Bucket) (now : ℕ)
      → InWindow end now
      → let b = count_one (current_bucket window now o) in
        (if passes (if ltb limit b.count then too_many (retry_after now b) else next) then 1 else 0)
          + allowance end (some b)
        ≤ allowance end o
  unfolding current_bucket
  count_request-allowance end o now w = ground arith

  sweep-allowance :
      (end : ℕ) (o : Option Bucket) (now : ℕ)
      → InWindow end now
      → allowance end (passing (λ b. ltb now b.reset_at) o) ≤ allowance end o
  sweep-allowance end o now w = ground arith

  own-allowance :
      (end : ℕ) (key : Text) (now : ℕ) (m : Dict Bucket)
      → InWindow end now
      → pass key (request key now) m + allowance end (lookup key (perform (request key now) m))
        ≤ allowance end (lookup key m)
  unfolding pass perform
  own-allowance end key now m w =
      rw
        (
          text_eq_refl key,
          lookup-insert_self key (count_one (current_bucket window now (lookup key m))) m,
        )
        (count_request-allowance end (lookup key m) now w)

  pass-allowance :
      (end : ℕ) (key : Text) (e : Event) (m : Dict Bucket)
      → InWindow end (time_of e)
      → IsUnique m
      → pass key e m + allowance end (lookup key (perform e m)) ≤ allowance end (lookup key m)
  pass-allowance end key (sweep now) m w u =
      unfold pass perform in
      rw (lookup-keep_entries (λ b. ltb now b.reset_at) key m u)
        (omega (arith, sweep-allowance end (lookup key m) now w))
  pass-allowance end key (request j now) m w u = elim (Bool-cases (text_eq j key)) [
    | inl same ↦
        subst
          (λ k.
            pass k (request j now) m + allowance end (lookup k (perform (request j now) m))
            ≤ allowance end (lookup k m))
          ((text_eq_iff j key).0 same) (own-allowance end j now m w)
    | inr miss ↦
        unfold pass perform in
        rw (miss, lookup-insert j key (count_one (current_bucket window now (lookup j m))) m)
          (rw miss (omega arith))
  ]

  perform-IsUnique : (e : Event) (m : Dict Bucket) → IsUnique m → IsUnique (perform e m)
  unfolding perform
  perform-IsUnique (request key now) m u = IsUnique-insert key _ m u
  perform-IsUnique (sweep now) m u = IsUnique-keep_entries _ m u

  passed-le-allowance :
      (end : ℕ) (key : Text) (es : List Event) (m : Dict Bucket)
      → All (λ e. InWindow end (time_of e)) es
      → IsUnique m
      → passed key es m ≤ allowance end (lookup key m)
  unfolding passed
  passed-le-allowance end key [] m w u = omega arith
  passed-le-allowance end key (e ∷ es) m w u = omega (
    arith,
    pass-allowance end key e m w.0 u,
    passed-le-allowance end key es (perform e m) w.1 (perform-IsUnique e m u),
  )

  allowance-le : (end : ℕ) (o : Option Bucket) → allowance end o ≤ limit + limit
  allowance-le end o = ground arith

  -- In any stretch of one window length, whatever the order of the requests of all keys and of the
  -- clean-ups, at most twice the limit of one key's requests pass; at most the limit, if the key has
  -- no bucket when the stretch begins.
  pub passed_bound :
      (end : ℕ) (key : Text) (es : List Event) (m : Dict Bucket)
      → All (λ e. InWindow end (time_of e)) es
      → IsUnique m
      → (passed key es m ≤ limit + limit) × (lookup key m ≡ none → passed key es m ≤ limit)
  passed_bound end key es m w u = (
    omega (arith, passed-le-allowance end key es m w u, allowance-le end (lookup key m)),
    λ fresh.
        subst (λ o. passed key es m ≤ allowance end o) fresh (passed-le-allowance end key es m w u),
  )

  live-current_bucket :
      (now : ℕ) (b : Bucket) → now < b.reset_at → current_bucket window now (some b) ≡ b
  unfolding current_bucket
  live-current_bucket now b live = rw (leb-false live) refl

  retry_after-bounds :
      (now : ℕ) (b : Bucket)
      → now < b.reset_at
      → let s = retry_after now b in
        (b.reset_at ≤ now + s * 1000) × (now + s * 1000 < b.reset_at + 1000)
  retry_after-bounds now b live = omega arith

  -- The next request of a key in a window that is under way is refused exactly when the limit is used
  -- up, and the wait that it is told ends in the second in which the window does.
  pub refused_iff :
      (key : Text) (now : ℕ) (b : Bucket) (m : Dict Bucket)
      → lookup key m ≡ some b
      → now < b.reset_at
      → let v = (count_request window limit key now m).1 in
        ((limit ≤ b.count)
          → (s : ℕ) × (v ≡ too_many s)
            × (b.reset_at ≤ now + s * 1000)
            × (now + s * 1000 < b.reset_at + 1000))
        × ((b.count < limit) → v ≡ next)
  unfolding count_request
  refused_iff key now b m found live =
      rw (found, live-current_bucket now b live)
        (
          λ full.
              let bounds = retry_after-bounds now b live in
              (retry_after now b, ground arith, bounds.0, bounds.1),
          λ room. ground arith,
        )
