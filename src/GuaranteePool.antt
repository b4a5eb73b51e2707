-- ===== src/GuaranteePool.antt =====
-- src/lib/guarantee-pool.ts: quotes, policies and claims over data/guarantee-pool.json. Amounts are
-- micro-USDC, times milliseconds. The reputation of a subject (src/lib/reputation-network.ts, whose
-- scores are hyperbolic tangents), the random id and the clock are arguments.
mod Solvency
mod Claims
mod Examples
use x402_agent_suite.Base.{
  ℕ, ◌+◌, ◌-◌, ◌*◌, ◌/◌, min, max, Bool, true, false, not, ◌&&◌, [], Option, none, some, Text, text,
  ◌++◌, Dict, lookup, insert, to_fixed4, ltb, if◌then◌else◌,
}

abbrev pub min_premium_usdc : ℕ
min_premium_usdc = 100_000

abbrev pub max_cover_usdc : ℕ
max_cover_usdc = 500_000_000

pub data Tier : Type 0 where
  trusted neutral watch high_risk unknown : Tier

-- What the pool reads of a subject's reputation; scores lie between 0 and 100.
pub record Reputation : Type 0 where
  pub subject : Text
  pub score : ℕ
  pub tier : Tier

pub data PolicyStatus : Type 0 where
  active claimed expired : PolicyStatus

pub record GuaranteePolicy : Type 0 where
  pub id : Text
  pub subject : Text
  pub amount_usdc : ℕ
  pub premium_usdc : ℕ
  pub status : PolicyStatus
  pub created_at : ℕ
  pub expires_at : ℕ

pub record Pool : Type 0 where
  pub premiums_collected_usdc : ℕ
  pub payouts_usdc : ℕ
  pub policies : Dict GuaranteePolicy

-- The pool when there is no file yet.
abbrev pub empty_pool : Pool
empty_pool = record { premiums_collected_usdc = 0; payouts_usdc = 0; policies = [] }

pub record Quote : Type 0 where
  pub subject : Text
  pub amount_usdc : ℕ
  pub insurable : Bool
  pub premium_usdc : ℕ
  pub reputation_score : ℕ
  pub reputation_tier : Tier

abbrev pub is_high_risk : Tier → Bool
is_high_risk high_risk = true
is_high_risk t = false

-- `pct = 0.4 + (100 - score) / 100 * 5.6`, in thousandths of a percent.
abbrev pub rate : ℕ → ℕ
rate score = 400 + (100 - score) * 56

-- `+(amt * (pct / 100)).toFixed(4)`.
abbrev pub priced : ℕ → ℕ → ℕ
priced amount score = (amount * rate score + 5_000_000) / 10_000_000 * 100

unfoldable pub quote_guarantee : Reputation → ℕ → Quote
quote_guarantee rep amount =
    let amt = min max_cover_usdc amount in
    let insurable = not (is_high_risk rep.tier) && ltb 0 amt in
    record {
      subject = rep.subject;
      amount_usdc = amt;
      insurable = insurable;
      premium_usdc = if insurable then max min_premium_usdc (priced amt rep.score) else 0;
      reputation_score = rep.score;
      reputation_tier = rep.tier;
    }

abbrev pub policy_of : ℕ → Text → ℕ → Quote → GuaranteePolicy
policy_of now id ttl_seconds q = record {
  id = id;
  subject = q.subject;
  amount_usdc = q.amount_usdc;
  premium_usdc = q.premium_usdc;
  status = active;
  created_at = now;
  expires_at = now + ttl_seconds * 1000;
}

-- `none` when the quote is declined.
unfoldable pub buy_guarantee : Reputation → ℕ → Text → ℕ → ℕ → Pool → Pool × Option GuaranteePolicy
unfolding quote_guarantee
buy_guarantee rep now id amount ttl_seconds pool =
    let q = quote_guarantee rep amount in
    let p = policy_of now id ttl_seconds q in
    if not q.insurable then (pool, none) else (
      record pool {
        policies = insert id p pool.policies;
        premiums_collected_usdc = to_fixed4 (pool.premiums_collected_usdc + p.premium_usdc);
      },
      some p,
    )

pub data ClaimReason : Type 0 where
  not_found not_active has_expired trigger_not_met approved underfunded : ClaimReason

pub record ClaimResult : Type 0 where
  pub paid : Bool
  pub payout_usdc : ℕ
  pub reason : ClaimReason

abbrev pub refused : ClaimReason → ClaimResult
refused reason = record { paid = false; payout_usdc = 0; reason = reason }

abbrev pub is_active : PolicyStatus → Bool
is_active active = true
is_active s = false

-- `Math.max(0, +(premiums - payouts).toFixed(4))`.
abbrev pub available : Pool → ℕ
available pool = to_fixed4 (pool.premiums_collected_usdc - pool.payouts_usdc)

abbrev pub set_status : Text → GuaranteePolicy → PolicyStatus → Pool → Pool
set_status id p s pool = record pool {
  policies = insert id (record p { status = s }) pool.policies;
}

abbrev pub pay_out : Text → GuaranteePolicy → Pool → Pool × ClaimResult
pay_out id p pool =
    let payout = min p.amount_usdc (available pool) in
    (
      record (set_status id p claimed pool) {
        payouts_usdc = to_fixed4 (pool.payouts_usdc + payout);
      },
      record {
        paid = ltb 0 payout;
        payout_usdc = payout;
        reason = if ltb 0 payout then approved else underfunded;
      },
    )

abbrev pub claim_policy :
    (Text → Reputation) → ℕ → Text → Pool → Option GuaranteePolicy → Pool × ClaimResult
claim_policy reputation now id pool none = (pool, refused not_found)
claim_policy reputation now id pool (some p) =
    if not (is_active p.status)
    then (pool, refused not_active)
    else if ltb p.expires_at now
    then (set_status id p expired pool, refused has_expired)
    else if not (is_high_risk (reputation p.subject).tier)
    then (pool, refused trigger_not_met)
    else pay_out id p pool

unfoldable pub claim_guarantee : (Text → Reputation) → ℕ → Text → Pool → Pool × ClaimResult
claim_guarantee reputation now id pool =
    claim_policy reputation now id pool (lookup id pool.policies)
