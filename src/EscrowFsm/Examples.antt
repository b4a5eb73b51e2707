-- ===== src/EscrowFsm/Examples.antt =====
-- Runs of the escrow state machine, and its theorems at concrete histories.
use mathlib.Core.Option
use x402_agent_suite.Base.{
  ◌≤◌, ◌≡◌, refl, ◌⊎◌, inl, [], ◌∷◌, none, some, Text, text, text_eq, lookup, insert, length,
}
use x402_agent_suite.EscrowUnified.{EscrowRow}
use x402_agent_suite.EscrowFsm.{
  EscrowState, created, funded, locked, settled, refunded, disputed, ProtocolEscrow, CreateInput,
  System, Clock, not_found, invalid_transition, create_protocol_escrow, transition_escrow,
  get_escrow_status, probe_escrow_id, seed_escrow,
}
use x402_agent_suite.EscrowFsm.Lifecycle.{Visits}
use x402_agent_suite.EscrowFsm.Invariant.{IsConsistent, states_of}
use x402_agent_suite.EscrowFsm.Histories.{
  Reach, here, then_step, create, transition, empty_system, Reach-IsConsistent, Reach-Paid,
  final-Reach,
}

abbrev sign : Text → Text
sign payload = payload

abbrev at_noon : Clock
at_noon = record { iso = text "12:00"; unix = 43200 }

abbrev order : CreateInput
order = record {
  payer_agent_id = text "agent-1";
  payee_merchant = text "shop.example";
  amount_usdc = 2_500_000;
  resource_hash = none;
  session_id = none;
}

opened : System
unfolding create_protocol_escrow
opened = (create_protocol_escrow sign at_noon (text "e1") order empty_system).0

after : EscrowState → System → System
unfolding transition_escrow lookup text_eq
after next s = (transition_escrow sign at_noon (text "e1") next none s).0

paid_out : System
unfolding opened after
paid_out = after settled (after disputed (after locked (after funded opened)))

states_after_dispute :
    Option.map
      (λ (e : ProtocolEscrow). states_of e.history)
      (get_escrow_status (text "e1") paid_out)
    ≡ some (created ∷ funded ∷ locked ∷ disputed ∷ settled ∷ [])
unfolding paid_out get_escrow_status lookup text_eq insert
states_after_dispute = refl

refusals :
    ((transition_escrow sign at_noon (text "e1") settled none opened).1
      ≡ invalid_transition created settled)
    × ((transition_escrow sign at_noon (text "e2") funded none opened).1 ≡ not_found)
unfolding transition_escrow opened lookup text_eq insert
refusals = (refl, refl)

-- The escrow that the start seeds: its row comes with its first transition.
started : System
unfolding seed_escrow lookup
started = seed_escrow sign at_noon order empty_system

seeded_row :
    (lookup probe_escrow_id started.db.escrows ≡ none)
    × (Option.map
          (λ (r : EscrowRow). r.state)
          (lookup probe_escrow_id
            (transition_escrow sign at_noon probe_escrow_id funded none started).0.db.escrows)
        ≡ some (text "FUNDED"))
unfolding started transition_escrow lookup text_eq insert
seeded_row = (refl, refl)

paid_out-Reach : Reach sign empty_system paid_out
unfolding paid_out lookup
paid_out-Reach =
    then_step
      (then_step
        (then_step
          (then_step (then_step here (create at_noon (text "e1") order empty_system refl refl))
            (transition at_noon (text "e1") funded none _ refl))
          (transition at_noon (text "e1") locked none _ refl))
        (transition at_noon (text "e1") disputed none _ refl))
      (transition at_noon (text "e1") settled none _ refl)

stored : ProtocolEscrow
unfolding paid_out lookup text_eq insert
stored = Option.get_or (lookup (text "e1") paid_out.store) fallback
  where
    fallback : ProtocolEscrow
    fallback = (create_protocol_escrow sign at_noon (text "e1") order empty_system).1

lookup-stored : lookup (text "e1") paid_out.store ≡ some stored
unfolding stored
lookup-stored = refl

stored_settled : stored.state ≡ settled
unfolding stored
stored_settled = refl

Reach-IsConsistent_example : IsConsistent sign paid_out
Reach-IsConsistent_example = Reach-IsConsistent sign paid_out-Reach

Reach-Paid_example :
    (length (states_of stored.history) ≤ 8)
    × ((stored.state ≡ settled) ⊎ (stored.state ≡ refunded)
        → Visits funded (states_of stored.history) × Visits locked (states_of stored.history))
Reach-Paid_example = Reach-Paid sign paid_out-Reach (text "e1") stored lookup-stored

final-Reach_example : lookup (text "e1") (after refunded paid_out).store ≡ some stored
unfolding after
final-Reach_example =
    final-Reach sign (then_step here (transition at_noon (text "e1") refunded none paid_out refl))
      (text "e1") stored (inl stored_settled) lookup-stored
