-- ===== src/MppSession.antt =====
-- src/agents/mpp-session-v2.ts: `runMppSessionV2` over the storage of MppStorage. A session that
-- `findSession` returns is a fresh object: a change of it is not written back.
mod Agreement
mod Effects
mod Examples
use x402_agent_suite.Base.{
  ℕ, ◌+◌, Bool, true, false, List, [], ◌∷◌, ◌++◌, map, Option, none, some, Text, text, Dict, insert,
  if◌then◌else◌,
}
use x402_agent_suite.MppStorage.{
  is_open, is_closed, MppSession, Storage, load_sessions, save_sessions, find_session,
}
use x402_agent_suite.MppPlan.{
  Action, open_session, voucher, close_session, status, unknown, MppInput, ResolvedBy,
  by_session_id, by_agent_and_chain, auto_open, MppResult, opened, vouched, settled, shown,
  session_not_found, unknown_action, Context, or_else, has_status_open, resolve_chain, truthy,
  find_open_session, find_latest_session, create_session, build_settlement,
}

-- The session of a call: a fresh object, or one of the rows.
pub data Target : Type 0 where
  detached in_rows : MppSession → Target
  absent : Target

abbrev pub values : Dict MppSession → List MppSession
values rows = map (λ e. e.1) rows

abbrev pub target_in_rows : Option MppSession → Target
target_in_rows none = absent
target_in_rows (some s) = in_rows s

abbrev pub target_of : Option MppSession → Option MppSession → Target
target_of none other = target_in_rows other
target_of (some s) other = if has_status_open s then detached s else target_in_rows other

unfoldable pub resolve_target : MppInput → Dict MppSession → Storage → Target
unfolding find_open_session find_session
resolve_target input rows st =
    let direct : Option MppSession = elim (truthy input.session_id) [
      | none ↦ none
      | some id ↦ find_session id input.agent_id st
    ] in
    target_of direct (find_open_session (values rows) input)

abbrev pub resolved_by : MppInput → ResolvedBy
resolved_by input = elim (truthy input.session_id) [
  | none ↦ by_agent_and_chain
  | some id ↦ by_session_id
]

abbrev pub counted : MppSession → MppSession
counted s = record s { calls_used = s.calls_used + 1 }

abbrev pub closed_by : ℕ → MppSession → MppSession
closed_by now s = record s { status = is_closed; closed_at = some now }

-- The rows after the session at hand has become `s`.
abbrev pub written : Target → MppSession → Dict MppSession → Dict MppSession
written (in_rows old) s rows = insert old.session_id s rows
written (detached old) s rows = rows
written absent s rows = rows

abbrev pub input_of_close : MppInput → MppInput
input_of_close input = record input {
  action = open_session;
  agent_id = some (or_else input.agent_id (text "dexter-verifier-probe"));
  expected_calls = some (or_else input.expected_calls 9);
  avg_price_per_call_usdc = some (or_else input.avg_price_per_call_usdc 30_000);
  chain = some (resolve_chain input);
}

abbrev pub close_new : Context → MppInput → Dict MppSession → Storage → Storage × MppResult
close_new c input rows st =
    let s = closed_by c.now (create_session c (input_of_close input)) in
    (
      save_sessions (rows ++ ((s.session_id, s) ∷ [])) st,
      settled s (build_settlement s false) auto_open,
    )

-- A close that matches no open session: again for one that is closed, or for a new one.
abbrev pub close_unmatched :
    Context → MppInput → Dict MppSession → Storage → Option MppSession → Storage × MppResult
close_unmatched c input rows st none = close_new c input rows st
close_unmatched c input rows st (some latest) =
    if has_status_open latest
    then close_new c input rows st
    else (st, settled latest (build_settlement latest true) by_agent_and_chain)

abbrev pub vouch : MppInput → Dict MppSession → Storage → Target → MppSession → Storage × MppResult
vouch input rows st t s =
    (save_sessions (written t (counted s) rows) st, vouched (counted s) (resolved_by input))

abbrev pub close_target :
    Context → MppInput → Dict MppSession → Storage → Target → MppSession → Storage × MppResult
close_target c input rows st t s =
    let s' = closed_by c.now s in
    (
      save_sessions (written t s' rows) st,
      settled s' (build_settlement s' false) (resolved_by input),
    )

abbrev pub session_of : Target → Option MppSession
session_of (detached s) = some s
session_of (in_rows s) = some s
session_of absent = none

abbrev pub run_voucher : MppInput → Dict MppSession → Storage → Target → Storage × MppResult
run_voucher input rows st t = elim (session_of t) [
  | none ↦ (st, session_not_found)
  | some s ↦ vouch input rows st t s
]

abbrev pub run_close : Context → MppInput → Dict MppSession → Storage → Target → Storage × MppResult
run_close c input rows st t = elim (session_of t) [
  | none ↦ close_unmatched c input rows st (
      find_latest_session (values rows) (or_else input.agent_id (text "dexter-verifier-probe"))
        (resolve_chain input))
  | some s ↦ close_target c input rows st t s
]

abbrev pub run_status : MppInput → Storage → Target → Storage × MppResult
run_status input st t = elim (session_of t) [
  | none ↦ (st, session_not_found)
  | some s ↦ (st, shown s (resolved_by input))
]

abbrev pub run_open : Context → MppInput → Storage → Storage × MppResult
run_open c input st =
    let s = create_session c input in
    let rows = load_sessions none st in
    (save_sessions (rows ++ ((s.session_id, s) ∷ [])) st, opened s)

abbrev pub run_action :
    Context → MppInput → Dict MppSession → Storage → Target → Action → Storage × MppResult
run_action c input rows st t open_session = run_open c input st
run_action c input rows st t voucher = run_voucher input rows st t
run_action c input rows st t close_session = run_close c input rows st t
run_action c input rows st t status = run_status input st t
run_action c input rows st t (unknown name) = (st, unknown_action)

unfoldable pub run_mpp_session_v2 : Context → MppInput → Storage → Storage × MppResult
unfolding load_sessions save_sessions create_session build_settlement find_latest_session
    resolve_target
run_mpp_session_v2 c input st =
    let rows = load_sessions input.agent_id st in
    run_action c input rows st (resolve_target input rows st) input.action
