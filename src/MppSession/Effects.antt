-- ===== src/MppSession/Effects.antt =====
-- src/agents/mpp-session-v2.ts: what vouchers and closes leave in the storage.
use x402_agent_suite.Base.{◌≡◌, refl, ap, true, false, Option, some, Text, Dict}
use x402_agent_suite.MppStorage.{
  MppSession, Storage, get_mpp_session_from_db, load_sessions, find_session,
}
use x402_agent_suite.MppStorage.Backing.{IsAgreed, save_sessions-loaded}
use x402_agent_suite.MppPlan.{
  voucher, close_session, MppInput, by_session_id, vouched, settled, Context, has_status_open,
  truthy, build_settlement,
}
use x402_agent_suite.MppSession.{
  detached, resolve_target, counted, closed_by, resolved_by, run_mpp_session_v2,
}

find-stored :
    (id : Text) (agent_id : Option Text) (s : MppSession) (st : Storage)
    → get_mpp_session_from_db id st.table ≡ some s
    → find_session id agent_id st ≡ some s
unfolding find_session
find-stored id agent_id s st h = rw (find_session, h) refl

resolve-stored :
    (input : MppInput) (id : Text) (s : MppSession) (rows : Dict MppSession) (st : Storage)
    → truthy input.session_id ≡ some id
    → get_mpp_session_from_db id st.table ≡ some s
    → has_status_open s ≡ true
    → resolve_target input rows st ≡ detached s
unfolding resolve_target
resolve-stored input id s rows st named h live =
    rw (named, find-stored id input.agent_id s st h) (rw live refl)

-- A voucher or a close that names the id of an open session in the table reports the session as
-- counted or closed, and leaves every session of the table as it was: the session stays open, and its
-- calls are not counted.
pub change_by_id_lost :
    (c : Context) (input : MppInput) (id : Text) (s : MppSession) (st : Storage)
    → IsAgreed st
    → truthy input.session_id ≡ some id
    → get_mpp_session_from_db id st.table ≡ some s
    → has_status_open s ≡ true
    → let (vouched_st, voucher_result) =
        run_mpp_session_v2 c (record input { action = voucher }) st in
      let (closed_st, close_result) =
        run_mpp_session_v2 c (record input { action = close_session }) st in
      let s' = closed_by c.now s in
      (voucher_result ≡ vouched (counted s) by_session_id)
      × (close_result ≡ settled s' (build_settlement s' false) by_session_id)
      × ((j : Text)
          → get_mpp_session_from_db j vouched_st.table ≡ get_mpp_session_from_db j st.table)
      × ((j : Text)
          → get_mpp_session_from_db j closed_st.table ≡ get_mpp_session_from_db j st.table)
unfolding run_mpp_session_v2
change_by_id_lost c input id s st a named h live =
    let rows = load_sessions input.agent_id st in
    let v = resolve-stored (record input { action = voucher }) id s rows st named h live in
    let by : resolved_by input ≡ by_session_id = rw (resolved_by, named) refl in
    rw v (
      ap (vouched (counted s)) by,
      ap (settled (closed_by c.now s) (build_settlement (closed_by c.now s) false)) by,
      save_sessions-loaded input.agent_id st a,
      save_sessions-loaded input.agent_id st a,
    )
