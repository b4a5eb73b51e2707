-- ===== src/EscrowLedger.antt =====
-- src/lib/escrow-ledger.ts with the table escrow_records of src/lib/db-persistence.ts and
-- `syncLedgerEscrow` of src/lib/escrow-unified.ts. Times are milliseconds; the random id, the clock,
-- and whether the JSON file can be written are arguments.
mod Agreement
mod Once
mod Examples
use x402_agent_suite.Base.{
  ℕ, ◌/◌, Bool, true, false, not, List, [], ◌∷◌, ◌++◌, Option, none, some, Text, text, take, Dict,
  lookup, insert, if◌then◌else◌,
}
use x402_agent_suite.EscrowUnified.{Tables, EscrowRow, ledger, upsert_escrow}

pub data LedgerStatus : Type 0 where
  pending released cancelled : LedgerStatus

pub record EscrowRecord : Type 0 where
  pub id : Text
  pub payer_agent_id : Text
  pub payee_agent_id : Text
  pub amount_usdc : ℕ
  pub status : LedgerStatus
  pub release_condition : Text
  pub created_at : ℕ
  pub released_at : Option ℕ

-- A row of escrow_records.
pub record RecordRow : Type 0 where
  pub buyer_agent_id : Text
  pub seller_agent_id : Text
  pub amount_usdc : ℕ
  pub condition_hash : Text
  pub status : LedgerStatus
  pub created_at : ℕ
  pub released_at : Option ℕ
  pub payload : EscrowRecord

pub record Ledger : Type 0 where
  pub records : Dict RecordRow
  pub unified : Tables
  -- data/escrow-ledger.json.
  pub json : Dict EscrowRecord

pub record CreateInput : Type 0 where
  pub payer_agent_id : Text
  pub payee_agent_id : Text
  pub amount_usdc : ℕ
  pub release_condition : Text

abbrev pub in_seconds : Option ℕ → Option ℕ
in_seconds none = none
in_seconds (some t) = some (t / 1000)

abbrev pub record_row : EscrowRecord → RecordRow
record_row r = record {
  buyer_agent_id = r.payer_agent_id;
  seller_agent_id = r.payee_agent_id;
  amount_usdc = r.amount_usdc;
  condition_hash = take 128 r.release_condition;
  status = r.status;
  created_at = r.created_at / 1000;
  released_at = in_seconds r.released_at;
  payload = r;
}

-- `ON CONFLICT(escrow_id) DO UPDATE SET`.
abbrev pub conflicting : Option RecordRow → EscrowRecord → RecordRow
conflicting none r = record_row r
conflicting (some old) r = record old {
  status = r.status;
  released_at = in_seconds r.released_at;
  payload = r;
}

unfoldable pub save_escrow_to_db : EscrowRecord → Dict RecordRow → Dict RecordRow
save_escrow_to_db r rows = insert r.id (conflicting (lookup r.id rows) r) rows

abbrev pub payload_of : Option RecordRow → Option EscrowRecord
payload_of none = none
payload_of (some row) = some row.payload

unfoldable pub get_escrow_from_db : Text → Dict RecordRow → Option EscrowRecord
get_escrow_from_db id rows = payload_of (lookup id rows)

abbrev pub is_pending : LedgerStatus → Bool
is_pending pending = true
is_pending s = false

abbrev pub status_text : LedgerStatus → Text
status_text pending = text "pending"
status_text released = text "released"
status_text cancelled = text "cancelled"

-- The state of the unified table.
abbrev pub state_of : LedgerStatus → Text
state_of pending = text "LOCKED"
state_of released = text "SETTLED"
state_of cancelled = text "CANCELLED"

abbrev pub unified_row : ℕ → EscrowRecord → EscrowRow
unified_row unix r = record {
  payer_agent_id = r.payer_agent_id;
  payee_id = r.payee_agent_id;
  amount_usdc = r.amount_usdc;
  state = state_of r.status;
  resource_hash = none;
  session_id = none;
  release_condition = some r.release_condition;
  state_proof = text "ledger:" ++ status_text r.status;
  metadata = ledger;
  updated_at = unix;
  settled_at = none;
}

unfoldable pub sync_ledger_escrow : ℕ → EscrowRecord → Tables → Tables
unfolding upsert_escrow
sync_ledger_escrow unix r t = upsert_escrow unix r.id (unified_row unix r) t

abbrev pub mirror_to_json : Bool → EscrowRecord → Dict EscrowRecord → Dict EscrowRecord
mirror_to_json writable r json = if writable then insert r.id r json else json

abbrev pub new_record : ℕ → Text → CreateInput → EscrowRecord
new_record now id input = record {
  id = id;
  payer_agent_id = input.payer_agent_id;
  payee_agent_id = input.payee_agent_id;
  amount_usdc = input.amount_usdc;
  status = pending;
  release_condition = input.release_condition;
  created_at = now;
  released_at = none;
}

unfoldable pub create_escrow : Bool → ℕ → Text → CreateInput → Ledger → Ledger × EscrowRecord
unfolding save_escrow_to_db sync_ledger_escrow
create_escrow writable now id input l =
    let r = new_record now id input in
    (
      record {
        records = save_escrow_to_db r l.records;
        unified = sync_ledger_escrow (now / 1000) r l.unified;
        json = mirror_to_json writable r l.json;
      },
      r,
    )

-- `UPDATE escrow_records SET ... WHERE escrow_id = ? AND status = 'pending'`; `changes` is 1 or 0.
abbrev pub release_row :
    ℕ → Text → EscrowRecord → Option RecordRow → Dict RecordRow → Dict RecordRow × Bool
release_row now id r none rows = (rows, false)
release_row now id r (some row) rows =
    if is_pending row.status
    then (
      insert id (record row { status = released; released_at = some (now / 1000); payload = r })
          rows,
      true,
    )
    else (rows, false)

abbrev pub released_record : ℕ → EscrowRecord → EscrowRecord
released_record now r = record r { status = released; released_at = some now }

abbrev pub release_current :
    ℕ → Text → Option EscrowRecord → Dict RecordRow → Dict RecordRow × Option EscrowRecord
release_current now id none rows = (rows, none)
release_current now id (some current) rows =
    if not (is_pending current.status)
    then (rows, none)
    else let r = released_record now current in
      let (rows', changed) = release_row now id r (lookup id rows) rows in
      (rows', if changed then some r else none)

unfoldable pub release_escrow_in_db :
    ℕ → Text → Dict RecordRow → Dict RecordRow × Option EscrowRecord
unfolding get_escrow_from_db
release_escrow_in_db now id rows = release_current now id (get_escrow_from_db id rows) rows

abbrev pub mirrored :
    Bool → ℕ → Ledger → Dict RecordRow × Option EscrowRecord → Ledger × Option EscrowRecord
mirrored writable now l (rows, none) = (record l { records = rows }, none)
mirrored writable now l (rows, some r) = (
  record {
    records = rows;
    unified = sync_ledger_escrow (now / 1000) r l.unified;
    json = mirror_to_json writable r l.json;
  },
  some r,
)

unfoldable pub release_escrow : Bool → ℕ → Text → Ledger → Ledger × Option EscrowRecord
unfolding release_escrow_in_db sync_ledger_escrow
release_escrow writable now id l = mirrored writable now l (release_escrow_in_db now id l.records)

unfoldable pub get_escrow : Text → Ledger → Option EscrowRecord
unfolding get_escrow_from_db
get_escrow id l = elim (get_escrow_from_db id l.records) [
  | some r ↦ some r
  | none ↦ lookup id l.json
]
