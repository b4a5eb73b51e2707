-- ===== src/JsonDatabase/Misread.antt =====
-- src/lib/db.ts beside src/lib/escrow-ledger.ts: an escrow that is created over JsonDatabase.
use x402_agent_suite.Base.{
  ℕ, ◌/◌, ◌≡◌, refl, ap, ◌∙◌, List, [], ◌∷◌, ◌++◌, Option, none, some, Text, text, take, is_empty,
  number, lookup-insert_self, if◌then◌else◌, ◌==◌, ==_iff,
}
use x402_agent_suite.EscrowLedger.{EscrowRecord, state_of, status_text}
use x402_agent_suite.JsonDatabase.{
  Value, str, num, null, to_string, to_number, EscrowEntry, JsonData, data_size, escrow_entry,
  perform, run_statement, escrow_row, found, fetch, get_statement, escrow_upsert, escrow_get,
}
use x402_agent_suite.JsonDatabase.Queries.{
  get_escrow_sql, upsert_escrow_record, release_escrow_sql, upsert_unified, run_statement-kind,
  get_statement-kind, kind-get_escrow_sql, kind-release_escrow_sql, kind-upsert_unified,
}

-- The values that `saveEscrowToDb` binds; `payload` is the record as JSON.
abbrev pub seconds_or_null : Option ℕ → Value
seconds_or_null none = null
seconds_or_null (some t) = num (t / 1000)

abbrev pub record_values : Text → EscrowRecord → List Value
record_values payload r =
    str r.id
    ∷ str r.payer_agent_id
    ∷ str r.payee_agent_id
    ∷ num r.amount_usdc
    ∷ str (take 128 r.release_condition)
    ∷ str (status_text r.status)
    ∷ num (r.created_at / 1000)
    ∷ seconds_or_null r.released_at
    ∷ str payload
    ∷ []

-- The values that `syncLedgerEscrow` binds; `metadata` is JSON.
abbrev pub unified_values : Text → EscrowRecord → List Value
unified_values metadata r =
    str r.id
    ∷ str r.payer_agent_id
    ∷ str r.payee_agent_id
    ∷ num r.amount_usdc
    ∷ str (state_of r.status)
    ∷ null
    ∷ null
    ∷ str r.release_condition
    ∷ null
    ∷ str (text "ledger:" ++ status_text r.status)
    ∷ str metadata
    ∷ []

-- `saveEscrowToDb(record)` and then `syncLedgerEscrow(record)`, as `createEscrow` calls them.
abbrev pub json_create : ℕ → Text → Text → EscrowRecord → JsonData → JsonData
json_create unix payload metadata r d =
    let d' = (run_statement unix upsert_escrow_record (record_values payload r) d).0 in
    (run_statement unix upsert_unified (unified_values metadata r) d').0

-- The statement for the other table is taken for one on escrow_records, and its values for that table's
-- columns.
abbrev pub misread : EscrowRecord → EscrowEntry
misread r = record {
  escrow_id = r.id;
  buyer_agent_id = r.payer_agent_id;
  seller_agent_id = r.payee_agent_id;
  amount_usdc = some r.amount_usdc;
  condition_hash = state_of r.status;
  status = text "null";
  created_at = some 0;
  released_at = if is_empty r.release_condition then none else some (number r.release_condition);
  payload = text "null";
}

run_statement-no_write :
    (unix : ℕ) (args : List Value) (d : JsonData)
    → run_statement unix release_escrow_sql args d ≡ (d, 0)
run_statement-no_write unix args d =
    unfold run_statement in
    (ap (λ k. let d' = perform unix args k d in (d', if data_size d' == data_size d then 0 else 1))
        kind-release_escrow_sql
      ∙ (unfold perform in rw ((==_iff (data_size d) (data_size d)).1 refl) refl))

entry-misread :
    (metadata : Text) (r : EscrowRecord) → escrow_entry (unified_values metadata r) ≡ misread r
unfolding to_string to_number
entry-misread metadata r = empty_or_not r r.release_condition
  where
    empty_or_not :
        (r : EscrowRecord) (c : Text)
        → escrow_entry (unified_values metadata (record r { release_condition = c }))
          ≡ misread (record r { release_condition = c })
    empty_or_not r [] = refl
    empty_or_not r (x ∷ c) = refl

-- Over the JSON stand-in, creating an escrow overwrites the row that was just saved with the values of the
-- upsert into `escrows`: whatever the record, its row then reads status "null" and payload "null", so that
-- `getEscrowFromDb` finds no record, and the statement that would release it, or any escrow, changes nothing.
pub json_create-misread :
    (unix now : ℕ) (payload metadata : Text) (r : EscrowRecord) (d : JsonData)
    (released : List Value)
    → let d' = json_create unix payload metadata r d in
      (get_statement get_escrow_sql (str r.id ∷ []) d' ≡ escrow_row (misread r))
      × (run_statement now release_escrow_sql released d' ≡ (d', 0))
json_create-misread unix now payload metadata r d released =
    let saved = (run_statement unix upsert_escrow_record (record_values payload r) d).0 in
    let values = unified_values metadata r in
    let stored =
      run_statement-kind unix upsert_unified values saved escrow_upsert kind-upsert_unified in
    (
      ap (get_statement get_escrow_sql (str r.id ∷ [])) stored
          ∙ (get_statement-kind get_escrow_sql (str r.id ∷ [])
                (perform unix values escrow_upsert saved) escrow_get kind-get_escrow_sql
              ∙ row saved values),
      run_statement-no_write now released (json_create unix payload metadata r d),
    )
  where
    row :
        (saved : JsonData) (values : List Value)
        → fetch
            (str r.id ∷ [])
            escrow_get
            (perform unix (unified_values metadata r) escrow_upsert saved)
          ≡ escrow_row (misread r)
    row saved values =
        unfold fetch perform to_string in
        (ap (found escrow_row) (
            lookup-insert_self r.id (escrow_entry (unified_values metadata r)) saved.escrow_records)
          ∙ ap escrow_row (entry-misread metadata r))
