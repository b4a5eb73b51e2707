-- ===== src/RateLimit/Middleware.antt =====
-- src/lib/rate-limit.ts as src/index.ts mounts it on /api: what keeps paid and unpaid requests apart.
use x402_agent_suite.Base.{ℕ, ◌≡◌, refl, true, false, Text, lower, trim}
use x402_agent_suite.RateLimit.{
  Verdict, next, too_many, string, Request, Limits, client_key, count_request,
  rate_limit_per_minute, rate_limit_unpaid_probes, rate_limit_per_wallet, wallet_key,
}
use x402_agent_suite.X402Headers.{has_payment_signature_header}

abbrev pub then_also : (Limits → Limits × Verdict) → Limits × Verdict → Limits × Verdict
then_also f (l, next) = f l
then_also f (l, too_many s) = (l, too_many s)

-- `app.use("/api", rateLimitUnpaidProbes(..)); app.use("/api", rateLimitPerMinute(..))`.
unfoldable pub limit_api : ℕ → ℕ → ℕ → Request → Limits → Limits × Verdict
unfolding rate_limit_unpaid_probes rate_limit_per_minute
limit_api probes paid now req l =
    then_also (rate_limit_per_minute paid now req) (rate_limit_unpaid_probes probes now req l)

also-next :
    (f : Limits → Limits × Verdict) (l : Limits) (v : Verdict)
    → ((k : Limits) → f k ≡ (k, next))
    → then_also f (l, v) ≡ (l, v)
also-next f l next same = same l
also-next f l (too_many s) same = refl

unpaid-next :
    (paid now : ℕ) (req : Request)
    → has_payment_signature_header req.headers ≡ false
    → (k : Limits) → rate_limit_per_minute paid now req k ≡ (k, next)
unfolding rate_limit_per_minute
unpaid-next paid now req h k = rw h refl

-- Of the two limiters on /api each request meets one: a paid one is judged and counted among the
-- paid requests of its client, an unpaid one among the probes, and the other counts stay as they were.
pub limit_api-separate :
    (probes paid now : ℕ) (req : Request) (l : Limits)
    → (has_payment_signature_header req.headers ≡ true
        → limit_api probes paid now req l ≡ (
            let (m, v) = count_request 60_000 paid (client_key req) now l.buckets in
            (record l { buckets = m }, v)))
      × (has_payment_signature_header req.headers ≡ false
          → limit_api probes paid now req l ≡ (
              let (m, v) = count_request 60_000 probes (client_key req) now l.buckets_unpaid in
              (record l { buckets_unpaid = m }, v)))
unfolding limit_api rate_limit_unpaid_probes
limit_api-separate probes paid now req l = (
  λ h. unfold rate_limit_per_minute in rw (h, h) refl,
  λ h. rw h (also-next (rate_limit_per_minute paid now req) _ _ (unpaid-next paid now req h)),
)

-- The limiter of a wallet treats the spellings of an address alike: two requests whose addresses
-- agree after trimming and in small letters are counted together and get the same answer.
pub rate_limit_per_wallet_spelling :
    (max now : ℕ) (a b : Text) (req other : Request) (l : Limits)
    → req.wallet_address ≡ string a
    → other.wallet_address ≡ string b
    → lower (trim a) ≡ lower (trim b)
    → rate_limit_per_wallet max now req l ≡ rate_limit_per_wallet max now other l
unfolding rate_limit_per_wallet wallet_key
rate_limit_per_wallet_spelling max now a b req other l ha hb same = rw (ha, hb, same) refl
