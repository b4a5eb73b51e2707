-- ===== src/MppSession/Agreement.antt =====
-- src/agents/mpp-session-v2.ts: the file and the table over any calls.
use x402_agent_suite.Base.{
  ◌≡◌, refl, sym, ap, ◌∙◌, inl, inr, [], ◌∷◌, ◌++◌, Option, none, some, Text, lookup,
  IsUnique-append, All-append, All-lookup, All-lookup_entry, Bool-cases, Option-cases, arith,
}
use x402_agent_suite.MppStorage.{MppSession, Storage, get_mpp_session_from_db, load_sessions}
use x402_agent_suite.MppStorage.Backing.{IsBacked, IsAgreed, load_sessions-IsBacked}
use x402_agent_suite.MppStorage.Saving.{
  IsRows, insert-IsRows, load_sessions-IsRows, save_sessions-IsAgreed,
}
use x402_agent_suite.MppPlan.{
  Action, open_session, voucher, close_session, status, unknown, MppInput, Context, has_status_open,
  find_latest_session, create_session,
}
use x402_agent_suite.MppSession.{
  Target, detached, in_rows, absent, counted, closed_by, input_of_close, close_new, close_unmatched,
  resolve_target, run_voucher, run_close, run_status, run_action, run_mpp_session_v2,
}

-- An id that the table does not hold is not among loaded rows.
fresh-rows :
    (id : Text) (agent_id : Option Text) (st : Storage)
    → IsAgreed st
    → get_mpp_session_from_db id st.table ≡ none
    → lookup id (load_sessions agent_id st) ≡ none
fresh-rows id agent_id st a fresh =
    let rows = load_sessions agent_id st in
    elim (Option-cases (lookup id rows)) [
      | inl gone ↦ gone
      | inr (s, there) ↦
          let backed =
            All-lookup (IsBacked st.table) id s rows there (load_sessions-IsBacked agent_id st a) in
          let own : s.session_id ≡ id =
            All-lookup_entry (λ e. e.1.session_id ≡ e.0) id s rows there
              (load_sessions-IsRows agent_id st).keyed in
          let there' = sym (ap (λ i. get_mpp_session_from_db i st.table) own) ∙ backed in
          absurd (ground (arith, fresh, there'))
    ]

-- Rows with a new session behind them.
push-IsRows :
    (agent_id : Option Text) (s : MppSession) (st : Storage)
    → IsAgreed st
    → get_mpp_session_from_db s.session_id st.table ≡ none
    → IsRows (load_sessions agent_id st ++ ((s.session_id, s) ∷ []))
push-IsRows agent_id s st a fresh =
    let rows = load_sessions agent_id st in
    let r = load_sessions-IsRows agent_id st in
    record {
      unique =
          IsUnique-append s.session_id s rows (fresh-rows s.session_id agent_id st a fresh)
            r.unique;
      keyed =
          All-append (λ e. e.1.session_id ≡ e.0) rows ((s.session_id, s) ∷ []) r.keyed (refl, tt);
    }

run_voucher-IsAgreed :
    (input : MppInput) (st : Storage) (t : Target)
    → IsAgreed st
    → IsAgreed (run_voucher input (load_sessions input.agent_id st) st t).0
run_voucher-IsAgreed input st absent a = a
run_voucher-IsAgreed input st (detached s) a =
    save_sessions-IsAgreed _ st (load_sessions-IsRows input.agent_id st) a
run_voucher-IsAgreed input st (in_rows s) a =
    save_sessions-IsAgreed _ st
      (insert-IsRows s.session_id (counted s) _ refl (load_sessions-IsRows input.agent_id st)) a

close_new-IsAgreed :
    (c : Context) (input : MppInput) (st : Storage)
    → IsAgreed st
    → get_mpp_session_from_db c.new_id st.table ≡ none
    → IsAgreed (close_new c input (load_sessions input.agent_id st) st).0
unfolding create_session
close_new-IsAgreed c input st a fresh =
    save_sessions-IsAgreed _ st
      (push-IsRows input.agent_id (closed_by c.now (create_session c (input_of_close input))) st a
        fresh)
      a

run_close-IsAgreed :
    (c : Context) (input : MppInput) (st : Storage) (t : Target)
    → IsAgreed st
    → get_mpp_session_from_db c.new_id st.table ≡ none
    → IsAgreed (run_close c input (load_sessions input.agent_id st) st t).0
run_close-IsAgreed c input st (detached s) a fresh =
    save_sessions-IsAgreed _ st (load_sessions-IsRows input.agent_id st) a
run_close-IsAgreed c input st (in_rows s) a fresh =
    save_sessions-IsAgreed _ st
      (insert-IsRows s.session_id (closed_by c.now s) _ refl
        (load_sessions-IsRows input.agent_id st))
      a
run_close-IsAgreed c input st absent a fresh = unmatched (find_latest_session _ _ _)
  where
    unmatched :
        (o : Option MppSession)
        → IsAgreed (close_unmatched c input (load_sessions input.agent_id st) st o).0
    unmatched none = close_new-IsAgreed c input st a fresh
    unmatched (some latest) = elim (Bool-cases (has_status_open latest)) [
      | inl live ↦ rw live (close_new-IsAgreed c input st a fresh)
      | inr closed ↦ rw closed a
    ]

run_status-IsAgreed :
    (input : MppInput) (st : Storage) (t : Target)
    → IsAgreed st
    → IsAgreed (run_status input st t).0
run_status-IsAgreed input st absent a = a
run_status-IsAgreed input st (detached s) a = a
run_status-IsAgreed input st (in_rows s) a = a

run_action-IsAgreed :
    (c : Context) (input : MppInput) (st : Storage) (t : Target) (action : Action)
    → IsAgreed st
    → get_mpp_session_from_db c.new_id st.table ≡ none
    → IsAgreed (run_action c input (load_sessions input.agent_id st) st t action).0
unfolding create_session
run_action-IsAgreed c input st t open_session a fresh =
    save_sessions-IsAgreed _ st (push-IsRows none (create_session c input) st a fresh) a
run_action-IsAgreed c input st t voucher a fresh = run_voucher-IsAgreed input st t a
run_action-IsAgreed c input st t close_session a fresh = run_close-IsAgreed c input st t a fresh
run_action-IsAgreed c input st t status a fresh = run_status-IsAgreed input st t a
run_action-IsAgreed c input st t (unknown name) a fresh = a

-- A call, whatever it is, leaves the file in agreement with the table: each session of the file is the
-- one that the table holds under its id, and the table has one row for an id, if the call's new random
-- id is not in use.
pub run_mpp_session_v2-IsAgreed :
    (c : Context) (input : MppInput) (st : Storage)
    → IsAgreed st
    → get_mpp_session_from_db c.new_id st.table ≡ none
    → IsAgreed (run_mpp_session_v2 c input st).0
unfolding run_mpp_session_v2
run_mpp_session_v2-IsAgreed c input st a fresh =
    run_action-IsAgreed c input st (resolve_target input (load_sessions input.agent_id st) st)
      input.action a fresh
