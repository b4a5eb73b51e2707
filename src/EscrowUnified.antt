-- ===== src/EscrowUnified.antt =====
-- src/lib/escrow-unified.ts: the SQLite tables `escrows` and `escrow_transitions`, into which both
-- escrow stores mirror their records. A row is found by its key; `unix` is `unixepoch()`.
use x402_agent_suite.Base.{
  ℕ, ◌≡◌, refl, false, List, [], ◌∷◌, ◌++◌, Option, none, some, Text, text, text_eq, Dict, lookup,
  insert, lookup-insert, lookup-insert_self, ◌∙◌, if◌then◌else◌, arith,
}

-- What the callers put into the column `metadata`.
pub data Metadata : Type 0 where
  protocol_fsm : Metadata
  protocol_fsm_history : ℕ → Metadata
  ledger : Metadata

pub record EscrowRow : Type 0 where
  pub payer_agent_id : Text
  pub payee_id : Text
  pub amount_usdc : ℕ
  pub state : Text
  pub resource_hash : Option Text
  pub session_id : Option Text
  pub release_condition : Option Text
  pub state_proof : Text
  pub metadata : Metadata
  pub updated_at : ℕ
  pub settled_at : Option ℕ

pub record TransitionRow : Type 0 where
  pub escrow_id : Text
  pub from_state : Text
  pub to_state : Text
  pub note : Option Text
  pub proof : Option Text

pub record Tables : Type 0 where
  pub escrows : Dict EscrowRow
  pub transitions : List TransitionRow

-- `ON CONFLICT(escrow_id) DO UPDATE SET ...`.
unfoldable pub on_conflict : ℕ → EscrowRow → EscrowRow → EscrowRow
on_conflict unix excluded old = record old {
  state = excluded.state;
  state_proof = excluded.state_proof;
  metadata = excluded.metadata;
  updated_at = unix;
  settled_at = if text_eq excluded.state (text "SETTLED") then some unix else old.settled_at;
}

-- The row that stands under the key afterwards, from the one that stood there before.
unfoldable pub merged : ℕ → EscrowRow → Option EscrowRow → EscrowRow
unfolding on_conflict
merged unix row none = row
merged unix row (some old) = on_conflict unix row old

unfoldable pub upsert_escrow : ℕ → Text → EscrowRow → Tables → Tables
unfolding merged
upsert_escrow unix escrow_id row db = record db {
  escrows = insert escrow_id (merged unix row (lookup escrow_id db.escrows)) db.escrows;
}

unfoldable pub record_escrow_transition :
    Text → Text → Text → Option Text → Option Text → Tables → Tables
record_escrow_transition escrow_id from_state to_state note proof db = record db {
  transitions =
      db.transitions
      ++ record {
        escrow_id = escrow_id;
        from_state = from_state;
        to_state = to_state;
        note = note;
        proof = proof;
      }
        ∷ [];
}

-- The (from, to) pairs logged for one escrow, oldest first.
unfoldable pub log_of : Text → List TransitionRow → List (Text × Text)
log_of id [] = []
log_of id (r ∷ rs) =
    if text_eq r.escrow_id id then (r.from_state, r.to_state) ∷ log_of id rs else log_of id rs

pub log_of-append :
    (id : Text) (rs qs : List TransitionRow) → log_of id (rs ++ qs) ≡ log_of id rs ++ log_of id qs
unfolding log_of
log_of-append id [] qs = refl
log_of-append id (r ∷ rs) qs = ground (arith, log_of-append id rs qs)

pub lookup-upsert_other :
    (unix : ℕ) (id j : Text) (row : EscrowRow) (db : Tables)
    → text_eq id j ≡ false
    → lookup j (upsert_escrow unix id row db).escrows ≡ lookup j db.escrows
unfolding upsert_escrow
lookup-upsert_other unix id j row db h =
    lookup-insert id j (merged unix row (lookup id db.escrows)) db.escrows ∙ rw h

pub lookup-upsert_self :
    (unix : ℕ) (id : Text) (row : EscrowRow) (db : Tables)
    → lookup id (upsert_escrow unix id row db).escrows
      ≡ some (merged unix row (lookup id db.escrows))
unfolding upsert_escrow
lookup-upsert_self unix id row db = lookup-insert_self id _ db.escrows
