-- ===== src/EscrowLedger/Examples.antt =====
-- The escrow ledger: an escrow's life, and the theorems at it.
use x402_agent_suite.Base.{
  ◌≤◌, ◌≡◌, refl, true, false, List, [], ◌∷◌, some, text, text_eq, lookup, insert, arith,
}
use x402_agent_suite.EscrowLedger.{
  RecordRow, Ledger, CreateInput, is_pending, create_escrow, save_escrow_to_db, get_escrow_from_db,
}
use x402_agent_suite.EscrowLedger.Agreement.{IsAgreed, create_escrow-IsAgreed}
use x402_agent_suite.EscrowLedger.Once.{
  Call, create, release, released_times, releases, perform, released_once,
}

abbrev input : CreateInput
input = record {
  payer_agent_id = text "buyer";
  payee_agent_id = text "seller";
  amount_usdc = 2_000_000;
  release_condition = text "delivered";
}

abbrev no_ledger : Ledger
no_ledger = record { records = []; unified = record { escrows = []; transitions = [] }; json = [] }

no_ledger-IsAgreed : IsAgreed no_ledger
unfolding lookup
no_ledger-IsAgreed id row h = absurd (ground (arith, h))

abbrev started : Ledger
started = (create_escrow true 1_000 (text "e1") input no_ledger).0

started-IsAgreed : IsAgreed started
started-IsAgreed = create_escrow-IsAgreed true 1_000 (text "e1") input no_ledger no_ledger-IsAgreed

abbrev calls : List Call
calls =
    create true 1_000 (text "e1") input
    ∷ release false 2_000 (text "e1")
    ∷ release true 3_000 (text "e1")
    ∷ []

calls-once : released_times (text "e1") calls no_ledger ≡ 1
unfolding released_times releases perform create_escrow save_escrow_to_db lookup insert text_eq
    get_escrow_from_db
calls-once = refl

released_once_example :
    (released_times (text "e1") calls no_ledger ≤ 1)
    × ((row : RecordRow)
        → lookup (text "e1") no_ledger.records ≡ some row
        → is_pending row.status ≡ false
        → released_times (text "e1") calls no_ledger ≡ 0)
unfolding lookup
released_once_example =
    released_once (text "e1") calls no_ledger no_ledger-IsAgreed (refl, (tt, (tt, tt)))
