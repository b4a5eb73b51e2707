-- ===== src/SpendGovernor.antt =====
-- src/agents/spend-governor.ts and src/lib/ledger.ts: a call's caps, host and network, and the table
-- spend_ledger. Amounts are micro-USDC; the day (`toISOString().slice(0, 10)`) and the host of a URL
-- are arguments.
mod Caps
mod Examples
use x402_agent_suite.Base.{
  ℕ, ◌+◌, ◌-◌, Bool, true, false, not, ◌&&◌, List, [], ◌∷◌, ◌++◌, Option, none, some, Text, text,
  text_eq, lower, includes, is_empty, any, ltb, if◌then◌else◌,
}
use x402_agent_suite.HostPolicy.{host_blocked, host_allowed}

pub record Policy : Type 0 where
  pub daily_cap_usdc : ℕ
  pub per_call_cap_usdc : ℕ
  pub allowed_hosts : List Text
  pub blocked_hosts : List Text
  pub allowed_networks : List Text

pub record SpendGovernorInput : Type 0 where
  pub agent_id : Text
  pub estimated_cost_usdc : ℕ
  pub target_url : Option Text
  pub network : Option Text
  pub policy : Policy

pub data Reason : Type 0 where
  within_limits per_call_exceeded daily_exceeded blocked_host host_not_allowed network_not_allowed :
      Reason

pub record SpendGovernorResult : Type 0 where
  pub allowed : Bool
  pub reason : Reason
  pub spent_today_usdc : ℕ
  pub remaining_daily_usdc : ℕ
  pub per_call_cap_usdc : ℕ

pub record SpendRow : Type 0 where
  pub agent_id : Text
  pub amount_usdc : ℕ
  pub day_key : Text

abbrev pub day_key : Text → Text → Text
day_key agent_id day = agent_id ++ (text ":" ++ day)

abbrev pub is_row : Text → Text → SpendRow → Bool
is_row agent_id key r = text_eq r.agent_id agent_id && text_eq r.day_key key

-- `SELECT COALESCE(SUM(amount_usdc), 0) ... WHERE agent_id = ? AND day_key = ?`.
unfoldable pub sum_day : Text → Text → List SpendRow → ℕ
sum_day agent_id key [] = 0
sum_day agent_id key (r ∷ rows) =
    let rest = sum_day agent_id key rows in
    if is_row agent_id key r then r.amount_usdc + rest else rest

unfoldable pub get_spent_today : Text → Text → List SpendRow → ℕ
unfolding sum_day
get_spent_today day agent_id rows = sum_day agent_id (day_key agent_id day) rows

unfoldable pub record_spend : Text → Text → ℕ → List SpendRow → List SpendRow
record_spend day agent_id amount rows =
    rows
    ++ (record { agent_id = agent_id; amount_usdc = amount; day_key = day_key agent_id day } ∷ [])

module _ (host_of : Text → Option Text) where
  -- The checks on the target: the empty URL and the empty network are not checked.
  abbrev pub host_reason : Policy → Option Text → Option Reason
  host_reason policy none = none
  host_reason policy (some host) =
      if is_empty host
      then none
      else if host_blocked host policy.blocked_hosts
      then some blocked_host
      else if host_allowed host policy.allowed_hosts
      then none
      else some host_not_allowed

  abbrev pub url_reason : Policy → Option Text → Option Reason
  url_reason policy none = none
  url_reason policy (some url) = if is_empty url then none else host_reason policy (host_of url)

  abbrev pub is_listed : Text → List Text → Bool
  is_listed network networks = any (λ n. includes (lower network) (lower n)) networks

  abbrev pub network_reason : Policy → Option Text → Option Reason
  network_reason policy none = none
  network_reason policy (some network) =
      if is_empty network then none else elim policy.allowed_networks [
        | [] ↦ none
        | n ∷ ns ↦ if is_listed network (n ∷ ns) then none else some network_not_allowed
      ]

  -- The first reason to refuse, if there is one.
  unfoldable pub refusal : SpendGovernorInput → ℕ → Option Reason
  unfolding host_blocked host_allowed
  refusal input spent =
      if ltb input.policy.per_call_cap_usdc input.estimated_cost_usdc
      then some per_call_exceeded
      else if ltb input.policy.daily_cap_usdc (spent + input.estimated_cost_usdc)
      then some daily_exceeded
      else elim (url_reason input.policy input.target_url) [
        | some r ↦ some r
        | none ↦ network_reason input.policy input.network
      ]

  abbrev pub answer_of :
      Text
      → SpendGovernorInput
      → ℕ
      → List SpendRow
      → Option Reason
      → List SpendRow × SpendGovernorResult
  answer_of day input spent rows (some r) = (
    rows,
    record {
      allowed = false;
      reason = r;
      spent_today_usdc = spent;
      remaining_daily_usdc = input.policy.daily_cap_usdc - spent;
      per_call_cap_usdc = input.policy.per_call_cap_usdc;
    },
  )
  answer_of day input spent rows none = (
    record_spend day input.agent_id input.estimated_cost_usdc rows,
    record {
      allowed = true;
      reason = within_limits;
      spent_today_usdc = spent + input.estimated_cost_usdc;
      remaining_daily_usdc = input.policy.daily_cap_usdc - spent - input.estimated_cost_usdc;
      per_call_cap_usdc = input.policy.per_call_cap_usdc;
    },
  )

  unfoldable pub run_spend_governor :
      Text → SpendGovernorInput → List SpendRow → List SpendRow × SpendGovernorResult
  unfolding refusal get_spent_today record_spend
  run_spend_governor day input rows =
      let spent = get_spent_today day input.agent_id rows in
      answer_of day input spent rows (refusal input spent)
