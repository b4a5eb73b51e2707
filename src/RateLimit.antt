-- ===== src/RateLimit.antt =====
-- src/lib/rate-limit.ts: fixed-window request limits. Times are milliseconds; each
-- `Map` of buckets is an association list.
mod Window
mod Middleware
mod Examples
use x402_agent_suite.Base.{
  ℕ, ◌+◌, ◌-◌, ◌/◌, Bool, true, false, not, Option, none, some, Text, text, is_empty, lower, trim,
  Dict, lookup, insert, keep_entries, ltb, leb, if◌then◌else◌,
}
use x402_agent_suite.X402Headers.{PaymentHeaders, has_payment_signature_header}

pub record Bucket : Type 0 where
  pub count : ℕ
  pub reset_at : ℕ

-- `next()`, or a 429 with `retryAfterSeconds`.
pub data Verdict : Type 0 where
  next : Verdict
  too_many : ℕ → Verdict

-- A field of the JSON body: missing or null, a text, or any other value.
pub data Field : Type 0 where
  missing : Field
  string : Text → Field
  other : Field

pub record Request : Type 0 where
  pub headers : PaymentHeaders
  pub ip : Option Text
  pub remote_address : Option Text
  pub wallet_address : Field
  pub agent_id : Field

abbrev pub first_of_two : Option Text → Option Text → Text
first_of_two (some a) _ = a
first_of_two none (some b) = b
first_of_two none none = text "unknown"

unfoldable pub client_key : Request → Text
client_key req = first_of_two req.ip req.remote_address

unfoldable pub prune_expired : ℕ → Dict Bucket → Dict Bucket
prune_expired now buckets = keep_entries (λ b. ltb now b.reset_at) buckets

-- The bucket in force: the one that is there, or a new one if that has run out.
unfoldable pub current_bucket : ℕ → ℕ → Option Bucket → Bucket
current_bucket window now none = record { count = 0; reset_at = now + window }
current_bucket window now (some b) =
    if leb b.reset_at now then record { count = 0; reset_at = now + window } else b

abbrev pub count_one : Bucket → Bucket
count_one b = record b { count = b.count + 1 }

-- `Math.ceil((bucket.resetAt - now) / 1000)`, where the bucket in force ends after `now`.
abbrev pub retry_after : ℕ → Bucket → ℕ
retry_after now b = (b.reset_at - now + 999) / 1000

-- What the five limiters share: count the request, and refuse it above the limit.
unfoldable pub count_request : ℕ → ℕ → Text → ℕ → Dict Bucket → Dict Bucket × Verdict
unfolding current_bucket
count_request window max_requests key now buckets =
    let b = count_one (current_bucket window now (lookup key buckets)) in
    (insert key b buckets, if ltb max_requests b.count then too_many (retry_after now b) else next)

pub record Limits : Type 0 where
  pub buckets : Dict Bucket
  pub hourly_buckets : Dict Bucket
  pub buckets_unpaid : Dict Bucket
  pub lookup_buckets : Dict Bucket
  pub wallet_buckets : Dict Bucket

unfoldable pub clean_up : ℕ → Limits → Limits
unfolding prune_expired
clean_up now l = record {
  buckets = prune_expired now l.buckets;
  hourly_buckets = prune_expired now l.hourly_buckets;
  buckets_unpaid = prune_expired now l.buckets_unpaid;
  lookup_buckets = prune_expired now l.lookup_buckets;
  wallet_buckets = prune_expired now l.wallet_buckets;
}

unfoldable pub rate_limit_per_minute : ℕ → ℕ → Request → Limits → Limits × Verdict
unfolding has_payment_signature_header client_key
rate_limit_per_minute max_requests now req l =
    if has_payment_signature_header req.headers
    then (let (m, v) = count_request 60_000 max_requests (client_key req) now l.buckets in
        (record l { buckets = m }, v))
    else (l, next)

unfoldable pub rate_limit_per_hour : ℕ → ℕ → Request → Limits → Limits × Verdict
unfolding client_key
rate_limit_per_hour max_requests now req l =
    let (m, v) = count_request 3_600_000 max_requests (client_key req) now l.hourly_buckets in
    (record l { hourly_buckets = m }, v)

unfoldable pub rate_limit_unpaid_probes : ℕ → ℕ → Request → Limits → Limits × Verdict
unfolding has_payment_signature_header client_key
rate_limit_unpaid_probes max_per_minute now req l =
    if has_payment_signature_header req.headers
    then (l, next)
    else let (m, v) = count_request 60_000 max_per_minute (client_key req) now l.buckets_unpaid in
      (record l { buckets_unpaid = m }, v)

abbrev pub or_field : Field → Field → Field
or_field missing f = f
or_field f _ = f

abbrev pub normalized : Field → Text
normalized (string t) = lower (trim t)
normalized missing = text ""
normalized other = text ""

-- The wallet or agent that a request names, in small letters.
unfoldable pub wallet_key : Request → Text
wallet_key req = normalized (or_field req.wallet_address req.agent_id)

unfoldable pub rate_limit_per_wallet : ℕ → ℕ → Request → Limits → Limits × Verdict
unfolding wallet_key
rate_limit_per_wallet max_per_min now req l =
    if is_empty (wallet_key req)
    then (l, next)
    else let (m, v) = count_request 60_000 max_per_min (wallet_key req) now l.wallet_buckets in
      (record l { wallet_buckets = m }, v)

unfoldable pub rate_limit_agent_lookup : ℕ → ℕ → Request → Limits → Limits × Verdict
unfolding client_key
rate_limit_agent_lookup max_per_hour now req l =
    let (m, v) = count_request 3_600_000 max_per_hour (client_key req) now l.lookup_buckets in
    (record l { lookup_buckets = m }, v)
