-- ===== src/MppPlan.antt =====
-- src/agents/mpp-session-v2.ts: the types of a call, and its functions that touch no storage. Amounts
-- are micro-USDC, times milliseconds; the random id, the clock and the configured facilitator are
-- arguments. Recommendations and next steps are left out.
use x402_agent_suite.Base.{
  ℕ, ◌+◌, ◌-◌, ◌*◌, Bool, true, false, ◌&&◌, List, Option, none, some, Text, text, text_eq,
  is_empty, ◌==◌, get_last?, find, keep, to_fixed4, if◌then◌else◌,
}
use x402_agent_suite.MppStorage.{
  MppSessionType, x402_native, MppBillingModel, per_call, ChainKey, solana, base, polygon,
  base_sepolia, solana_devnet, is_open, is_closed, MppSession,
}

pub data Action : Type 0 where
  open_session voucher close_session status : Action
  unknown : Text → Action

pub record MppInput : Type 0 where
  pub action : Action
  pub session_id : Option Text
  pub session_type : Option MppSessionType
  pub stripe_customer_id : Option Text
  pub lightspark_node : Option Text
  pub billing_model : Option MppBillingModel
  pub meter_unit : Option Text
  pub expected_calls : Option ℕ
  pub avg_price_per_call_usdc : Option ℕ
  pub chain : Option ChainKey
  pub max_budget_usdc : Option ℕ
  pub agent_id : Option Text

pub data ResolvedBy : Type 0 where
  by_session_id by_agent_and_chain auto_open : ResolvedBy

pub record MppSettlement : Type 0 where
  pub already_closed : Bool
  pub session_id : Text
  pub network : Text
  pub chain : ChainKey
  pub agent_id : Text
  pub calls_settled : ℕ
  pub planned_calls : ℕ
  pub estimated_total_usdc : ℕ
  pub facilitator_url : Text

pub data MppResult : Type 0 where
  opened : MppSession → MppResult
  vouched : MppSession → ResolvedBy → MppResult
  settled : MppSession → MppSettlement → ResolvedBy → MppResult
  shown : MppSession → ResolvedBy → MppResult
  session_not_found : MppResult
  unknown_action : MppResult

-- What a call takes from its surroundings.
pub record Context : Type 0 where
  pub facilitator_url : Text
  pub new_id : Text
  pub now : ℕ

abbrev pub or_else {ℓ} : {A : Type ℓ} → Option A → A → A
or_else none d = d
or_else (some a) d = a

abbrev pub chain_code : ChainKey → ℕ
chain_code solana = 0
chain_code base = 1
chain_code polygon = 2
chain_code base_sepolia = 3
chain_code solana_devnet = 4

abbrev pub chain_id : ChainKey → Text
chain_id solana = text "solana:5eykt4UsFv8P8NJdTREpY1vzqKqZKvdp"
chain_id base = text "eip155:8453"
chain_id polygon = text "eip155:137"
chain_id base_sepolia = text "eip155:84532"
chain_id solana_devnet = text "solana:EtWTRABZaYq6iMfeYKouRu166VU2xqa1"

abbrev pub has_status_open : MppSession → Bool
has_status_open s = elim s.status [ is_open ↦ true | is_closed ↦ false ]

abbrev pub resolve_chain : MppInput → ChainKey
resolve_chain input = or_else input.chain solana

-- `if (input.sessionId)`: a missing and an empty text are alike.
abbrev pub truthy : Option Text → Option Text
truthy none = none
truthy (some t) = if is_empty t then none else some t

abbrev pub is_of : Text → ChainKey → MppSession → Bool
is_of agent_id chain s = text_eq s.agent_id agent_id && chain_code s.chain == chain_code chain

unfoldable pub find_open_session : List MppSession → MppInput → Option MppSession
find_open_session rows input = elim (truthy input.session_id) [
  | some id ↦ find (λ s. text_eq s.session_id id && has_status_open s) rows
  | none ↦ elim (truthy input.agent_id) [
    | some agent_id ↦
        get_last? (keep (λ s. is_of agent_id (resolve_chain input) s && has_status_open s) rows)
    | none ↦ none
  ]
]

unfoldable pub find_latest_session : List MppSession → Text → ChainKey → Option MppSession
find_latest_session rows agent_id chain = get_last? (keep (is_of agent_id chain) rows)

unfoldable pub create_session : Context → MppInput → MppSession
create_session c input = record {
  session_id = c.new_id;
  chain = resolve_chain input;
  agent_id = or_else input.agent_id (text "anonymous");
  session_type = or_else input.session_type x402_native;
  billing_model = or_else input.billing_model per_call;
  meter_unit = input.meter_unit;
  stripe_customer_id = input.stripe_customer_id;
  lightspark_node = input.lightspark_node;
  max_budget_usdc = or_else input.max_budget_usdc (expected * avg);
  expected_calls = expected;
  calls_used = 0;
  avg_price_per_call_usdc = avg;
  opened_at = c.now;
  closed_at = none;
  status = is_open;
  facilitator_url = c.facilitator_url;
  estimated_savings_usdc = to_fixed4 (expected * avg - (10_000 + expected * 1000));
}
  where
    expected : ℕ
    expected = or_else input.expected_calls 20

    avg : ℕ
    avg = or_else input.avg_price_per_call_usdc 30_000

unfoldable pub build_settlement : MppSession → Bool → MppSettlement
build_settlement s already_closed = record {
  already_closed = already_closed;
  session_id = s.session_id;
  network = chain_id s.chain;
  chain = s.chain;
  agent_id = s.agent_id;
  calls_settled = s.calls_used;
  planned_calls = s.expected_calls;
  estimated_total_usdc = to_fixed4 (s.calls_used * s.avg_price_per_call_usdc);
  facilitator_url = s.facilitator_url;
}
