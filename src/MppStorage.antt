-- ===== src/MppStorage.antt =====
-- src/agents/mpp-session-v2.ts (`loadSessions`, `saveSessions`, `findSession`) and the functions of
-- src/lib/db-persistence.ts on mpp_sessions. The rows of a call stand under their session ids, in the
-- order of the `Map` that they come from.
pub mod Backing
pub mod Saving
use x402_agent_suite.Base.{
  ℕ, ◌+◌, ◌-◌, ◌*◌, ◌/◌, Bool, true, false, List, [], ◌∷◌, ◌++◌, map, Option, none, some, Text,
  text, text_eq, is_empty, Dict, lookup, insert, length, take, drop, keep, ltb, leb, if◌then◌else◌,
}

pub data MppSessionType : Type 0 where
  stripe_mpp dexter_mpp visa_cli x402_native : MppSessionType

pub data MppBillingModel : Type 0 where
  per_call per_token per_second flat_rate : MppBillingModel

-- The keys of `CHAIN_IDS`.
pub data ChainKey : Type 0 where
  solana base polygon base_sepolia solana_devnet : ChainKey

pub data SessionStatus : Type 0 where
  is_open is_closed : SessionStatus

pub record MppSession : Type 0 where
  pub session_id : Text
  pub chain : ChainKey
  pub agent_id : Text
  pub session_type : MppSessionType
  pub billing_model : MppBillingModel
  pub meter_unit : Option Text
  pub stripe_customer_id : Option Text
  pub lightspark_node : Option Text
  pub max_budget_usdc : ℕ
  pub expected_calls : ℕ
  pub calls_used : ℕ
  pub avg_price_per_call_usdc : ℕ
  pub opened_at : ℕ
  pub closed_at : Option ℕ
  pub status : SessionStatus
  pub facilitator_url : Text
  pub estimated_savings_usdc : ℕ

-- A row of mpp_sessions.
pub record MppRow : Type 0 where
  pub agent_id : Text
  pub budget_usdc : ℕ
  pub spent_usdc : ℕ
  pub status : SessionStatus
  pub created_at : ℕ
  pub closed_at : Option ℕ
  pub payload : MppSession

-- The table, and the file data/mpp-sessions.json, which may be missing.
pub record Storage : Type 0 where
  pub table : Dict MppRow
  pub file : Option (List MppSession)

abbrev pub in_seconds : Option ℕ → Option ℕ
in_seconds none = none
in_seconds (some t) = some (t / 1000)

abbrev pub row_of : MppSession → MppRow
row_of s = record {
  agent_id = s.agent_id;
  budget_usdc = s.max_budget_usdc;
  spent_usdc = s.calls_used * s.avg_price_per_call_usdc;
  status = s.status;
  created_at = s.opened_at / 1000;
  closed_at = in_seconds s.closed_at;
  payload = s;
}

-- `ON CONFLICT(session_id) DO UPDATE SET`: agent, budget and creation stay.
abbrev pub upserted : Option MppRow → MppSession → MppRow
upserted none s = row_of s
upserted (some r) s = record r {
  spent_usdc = s.calls_used * s.avg_price_per_call_usdc;
  status = s.status;
  closed_at = in_seconds s.closed_at;
  payload = s;
}

unfoldable pub save_mpp_session_to_db : MppSession → Dict MppRow → Dict MppRow
save_mpp_session_to_db s table = insert s.session_id (upserted (lookup s.session_id table) s) table

-- `ORDER BY created_at DESC`; rows of one second stay in the order of the table.
unfoldable pub insert_newer : MppRow → List MppRow → List MppRow
insert_newer r [] = r ∷ []
insert_newer r (q ∷ rows) =
    if leb q.created_at r.created_at then r ∷ q ∷ rows else q ∷ insert_newer r rows

unfoldable pub newest_first : List MppRow → List MppRow
unfolding insert_newer
newest_first [] = []
newest_first (r ∷ rows) = insert_newer r (newest_first rows)

unfoldable pub load_mpp_sessions_from_db : Text → Dict MppRow → List MppSession
unfolding newest_first
load_mpp_sessions_from_db agent_id table =
    if is_empty agent_id
    then []
    else map (λ r. r.payload)
        (take 50 (newest_first (keep (λ r. text_eq r.agent_id agent_id) (map (λ e. e.1) table))))

unfoldable pub get_mpp_session_from_db : Text → Dict MppRow → Option MppSession
get_mpp_session_from_db id table = elim (lookup id table) [ none ↦ none | some r ↦ some r.payload ]

-- `for (const s of sessions) byId.set(s.sessionId, s)`.
unfoldable pub set_all : List MppSession → Dict MppSession → Dict MppSession
set_all [] by_id = by_id
set_all (s ∷ sessions) by_id = set_all sessions (insert s.session_id s by_id)

abbrev pub stored_for : Option Text → Dict MppRow → List MppSession
stored_for none table = []
stored_for (some agent_id) table = load_mpp_sessions_from_db agent_id table

unfoldable pub load_sessions : Option Text → Storage → Dict MppSession
unfolding set_all load_mpp_sessions_from_db
load_sessions agent_id s = elim s.file [
  | none ↦ set_all (stored_for agent_id s.table) []
  | some from_file ↦ set_all (stored_for agent_id s.table) (set_all from_file [])
]

unfoldable pub save_all : List MppSession → Dict MppRow → Dict MppRow
unfolding save_mpp_session_to_db
save_all [] table = table
save_all (s ∷ sessions) table = save_all sessions (save_mpp_session_to_db s table)

-- `rows.slice(-200)`.
abbrev pub last_200 : List MppSession → List MppSession
last_200 rows = drop (length rows - 200) rows

unfoldable pub save_sessions : Dict MppSession → Storage → Storage
unfolding save_all
save_sessions rows s =
    let trimmed = last_200 (map (λ e. e.1) rows) in
    record { table = save_all trimmed s.table; file = some trimmed }

unfoldable pub find_session : Text → Option Text → Storage → Option MppSession
unfolding load_sessions get_mpp_session_from_db
find_session id agent_id s = elim (get_mpp_session_from_db id s.table) [
  | some found ↦ some found
  | none ↦ lookup id (load_sessions agent_id s)
]
