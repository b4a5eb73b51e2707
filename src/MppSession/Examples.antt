-- ===== src/MppSession/Examples.antt =====
-- MPP sessions: a session that is opened and used, and the theorems at it.
use x402_agent_suite.Base.{
  ◌≡◌, refl, false, [], Option, none, some, Text, text, text_eq, lookup, insert, arith,
}
use x402_agent_suite.MppStorage.{MppSession, Storage, base, get_mpp_session_from_db}
use x402_agent_suite.MppStorage.Backing.{IsAgreed}
use x402_agent_suite.MppPlan.{
  Action, open_session, voucher, close_session, MppInput, by_session_id, vouched, settled, Context,
  create_session, build_settlement,
}
use x402_agent_suite.MppSession.{counted, closed_by, run_mpp_session_v2}
use x402_agent_suite.MppSession.Agreement.{run_mpp_session_v2-IsAgreed}
use x402_agent_suite.MppSession.Effects.{change_by_id_lost}

abbrev context : Context
context = record { facilitator_url = text "https://f.dev"; new_id = text "mpp_1"; now = 5_000 }

abbrev input_with : Action → Option Text → MppInput
input_with action session_id = record {
  action = action;
  session_id = session_id;
  session_type = none;
  stripe_customer_id = none;
  lightspark_node = none;
  billing_model = none;
  meter_unit = none;
  expected_calls = some 9;
  avg_price_per_call_usdc = some 30_000;
  chain = some base;
  max_budget_usdc = none;
  agent_id = some (text "a1");
}

abbrev no_storage : Storage
no_storage = record { table = []; file = none }

no_storage-IsAgreed : IsAgreed no_storage
unfolding lookup
no_storage-IsAgreed = record {
  unique = tt;
  keyed = λ id r h. absurd (ground (arith, h));
  backed = tt;
}

abbrev opened_storage : Storage
opened_storage = (run_mpp_session_v2 context (input_with open_session none) no_storage).0

run_mpp_session_v2-IsAgreed_example : IsAgreed opened_storage
unfolding lookup get_mpp_session_from_db
run_mpp_session_v2-IsAgreed_example =
    run_mpp_session_v2-IsAgreed context (input_with open_session none) no_storage
      no_storage-IsAgreed refl

opened_storage-IsAgreed : IsAgreed opened_storage
unfolding lookup get_mpp_session_from_db
opened_storage-IsAgreed =
    run_mpp_session_v2-IsAgreed context (input_with open_session none) no_storage
      no_storage-IsAgreed refl

abbrev session : MppSession
session = create_session context (input_with open_session none)

opened-session : get_mpp_session_from_db (text "mpp_1") opened_storage.table ≡ some session
unfolding run_mpp_session_v2 lookup get_mpp_session_from_db insert text_eq
opened-session = refl

change_by_id_lost_example :
    let input = input_with voucher (some (text "mpp_1")) in
    let (vouched_st, voucher_result) =
      run_mpp_session_v2 context (record input { action = voucher }) opened_storage in
    let (closed_st, close_result) =
      run_mpp_session_v2 context (record input { action = close_session }) opened_storage in
    let s' = closed_by context.now session in
    (voucher_result ≡ vouched (counted session) by_session_id)
    × (close_result ≡ settled s' (build_settlement s' false) by_session_id)
    × ((j : Text)
        → get_mpp_session_from_db j vouched_st.table
          ≡ get_mpp_session_from_db j opened_storage.table)
    × ((j : Text)
        → get_mpp_session_from_db j closed_st.table
          ≡ get_mpp_session_from_db j opened_storage.table)
unfolding create_session
change_by_id_lost_example =
    change_by_id_lost context (input_with voucher (some (text "mpp_1"))) (text "mpp_1") session
      opened_storage opened_storage-IsAgreed refl opened-session refl
