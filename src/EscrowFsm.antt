-- ===== src/EscrowFsm.antt =====
-- src/protocol/escrow-fsm.ts: the escrow state machine, its store `escrow-fsm`, and its mirror in
-- the tables of EscrowUnified, with the escrow that src/lib/verifier-probe-protocol.ts seeds. The clock,
-- the fresh id and the HMAC are arguments.
mod Examples
mod Histories
mod Invariant
mod Lifecycle
use x402_agent_suite.Base.{
  ℕ, ◌≡◌, refl, Bool, true, false, List, [], ◌∷◌, ◌++◌, map, Option, none, some, Text, text,
  contains, text_eq, Dict, lookup, insert, length, if◌then◌else◌,
}
use x402_agent_suite.EscrowUnified.{
  Metadata, protocol_fsm, protocol_fsm_history, EscrowRow, Tables, upsert_escrow,
  record_escrow_transition,
}

pub data EscrowState : Type 0 where
  created funded locked executing delivered verified settled refunded disputed cancelled :
      EscrowState

abbrev pub state_name : EscrowState → Text
state_name created = text "CREATED"
state_name funded = text "FUNDED"
state_name locked = text "LOCKED"
state_name executing = text "EXECUTING"
state_name delivered = text "DELIVERED"
state_name verified = text "VERIFIED"
state_name settled = text "SETTLED"
state_name refunded = text "REFUNDED"
state_name disputed = text "DISPUTED"
state_name cancelled = text "CANCELLED"

unfoldable pub valid_transitions : EscrowState → List EscrowState
valid_transitions created = funded ∷ cancelled ∷ []
valid_transitions funded = locked ∷ cancelled ∷ []
valid_transitions locked = executing ∷ disputed ∷ cancelled ∷ []
valid_transitions executing = delivered ∷ disputed ∷ cancelled ∷ []
valid_transitions delivered = verified ∷ disputed ∷ []
valid_transitions verified = settled ∷ refunded ∷ disputed ∷ []
valid_transitions settled = []
valid_transitions refunded = []
valid_transitions disputed = settled ∷ refunded ∷ cancelled ∷ []
valid_transitions cancelled = []

-- `allowed.includes(nextState)`, on the names.
unfoldable pub is_allowed : EscrowState → EscrowState → Bool
unfolding valid_transitions contains text_eq
is_allowed from to = contains (map state_name (valid_transitions from)) (state_name to)

pub record HistoryEntry : Type 0 where
  pub state : EscrowState
  pub at : Text
  pub note : Option Text

pub record ProtocolEscrow : Type 0 where
  pub escrow_id : Text
  pub payer_agent_id : Text
  pub payee_merchant : Text
  pub amount_usdc : ℕ
  pub state : EscrowState
  pub resource_hash : Option Text
  pub session_id : Option Text
  pub history : List HistoryEntry
  pub created_at : Text
  pub updated_at : Text
  pub state_proof : Text

pub record CreateInput : Type 0 where
  pub payer_agent_id : Text
  pub payee_merchant : Text
  pub amount_usdc : ℕ
  pub resource_hash : Option Text
  pub session_id : Option Text

-- The store `escrow-fsm` and the database beside it.
pub record System : Type 0 where
  pub store : Dict ProtocolEscrow
  pub db : Tables

-- The clock: `new Date().toISOString()` and `unixepoch()`.
pub record Clock : Type 0 where
  pub iso : Text
  pub unix : ℕ

pub data TransitionResult : Type 0 where
  moved : ProtocolEscrow → TransitionResult
  not_found : TransitionResult
  invalid_transition : EscrowState → EscrowState → TransitionResult

abbrev pub proof_payload : Text → EscrowState → Text → Text
proof_payload escrow_id state at = escrow_id ++ (text ":" ++ (state_name state ++ (text ":" ++ at)))

-- The row that `syncProtocolEscrow` binds.
abbrev pub row_of : ℕ → ProtocolEscrow → Metadata → EscrowRow
row_of unix e metadata = record {
  payer_agent_id = e.payer_agent_id;
  payee_id = e.payee_merchant;
  amount_usdc = e.amount_usdc;
  state = state_name e.state;
  resource_hash = e.resource_hash;
  session_id = e.session_id;
  release_condition = none;
  state_proof = e.state_proof;
  metadata = metadata;
  updated_at = unix;
  settled_at = none;
}

unfoldable pub sync_protocol_escrow : ℕ → Text → ProtocolEscrow → Metadata → Tables → Tables
unfolding upsert_escrow
sync_protocol_escrow unix escrow_id e metadata db =
    upsert_escrow unix escrow_id (row_of unix e metadata) db

module _ (hmac_sign : Text → Text) where
  unfoldable pub new_escrow : Clock → Text → CreateInput → ProtocolEscrow
  new_escrow now escrow_id input = record {
    escrow_id = escrow_id;
    payer_agent_id = input.payer_agent_id;
    payee_merchant = input.payee_merchant;
    amount_usdc = input.amount_usdc;
    state = created;
    resource_hash = input.resource_hash;
    session_id = input.session_id;
    history = record { state = created; at = now.iso; note = none } ∷ [];
    created_at = now.iso;
    updated_at = now.iso;
    state_proof = hmac_sign (proof_payload escrow_id created now.iso);
  }

  unfoldable pub move_escrow :
      Clock → Text → ProtocolEscrow → EscrowState → Option Text → ProtocolEscrow
  move_escrow now escrow_id escrow next note = record escrow {
    state = next;
    updated_at = now.iso;
    history = escrow.history ++ record { state = next; at = now.iso; note = note } ∷ [];
    state_proof = hmac_sign (proof_payload escrow_id next now.iso);
  }

  unfoldable pub create_protocol_escrow :
      Clock → Text → CreateInput → System → System × ProtocolEscrow
  unfolding new_escrow sync_protocol_escrow
  create_protocol_escrow now escrow_id input s =
      let escrow = new_escrow now escrow_id input in
      (
        record {
          store = insert escrow_id escrow s.store;
          db = sync_protocol_escrow now.unix escrow_id escrow protocol_fsm s.db;
        },
        escrow,
      )

  -- The branch in which the transition is allowed.
  unfoldable pub apply_transition :
      Clock → Text → ProtocolEscrow → EscrowState → Option Text → System → System
  unfolding move_escrow sync_protocol_escrow record_escrow_transition
  apply_transition now escrow_id escrow next note s =
      let escrow' = move_escrow now escrow_id escrow next note in
      record {
        store = insert escrow_id escrow' s.store;
        db =
            sync_protocol_escrow now.unix escrow_id escrow'
              (protocol_fsm_history (length escrow'.history))
              (record_escrow_transition escrow_id (state_name escrow.state) (state_name next) note
                (some escrow'.state_proof) s.db);
      }

  unfoldable pub transition_escrow :
      Clock → Text → EscrowState → Option Text → System → System × TransitionResult
  unfolding apply_transition is_allowed
  transition_escrow now escrow_id next note s = elim (lookup escrow_id s.store) [
    | none ↦ (s, not_found)
    | some escrow ↦
        if is_allowed escrow.state next
        then (
          apply_transition now escrow_id escrow next note s,
          moved (move_escrow now escrow_id escrow next note),
        )
        else (s, invalid_transition escrow.state next)
  ]

-- `VERIFIER_PROBE_ESCROW_ID` of src/lib/verifier-probe-protocol.ts.
abbrev pub probe_escrow_id : Text
probe_escrow_id = text "00000000-0000-4000-8000-000000000001"

module _ (hmac_sign : Text → Text) where
  -- The escrow of the verifier's probe. `input` has the fields of the example of a request, or their defaults.
  abbrev pub seeded : Clock → CreateInput → ProtocolEscrow
  seeded now input = record (new_escrow hmac_sign now probe_escrow_id input) { session_id = none }

  -- `seedEscrow`, which runs when the server starts and writes no row.
  unfoldable pub seed_escrow : Clock → CreateInput → System → System
  unfolding new_escrow
  seed_escrow now input s = elim (lookup probe_escrow_id s.store) [
    | some escrow ↦ s
    | none ↦ record s { store = insert probe_escrow_id (seeded now input) s.store }
  ]

unfoldable pub get_escrow_status : Text → System → Option ProtocolEscrow
get_escrow_status escrow_id s = lookup escrow_id s.store
