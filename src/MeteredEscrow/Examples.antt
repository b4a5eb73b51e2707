-- ===== src/MeteredEscrow/Examples.antt =====
-- A metered session from opening to close, and the theorems at it.
use x402_agent_suite.Base.{
  ◌≡◌, refl, List, [], ◌∷◌, none, some, text, text_eq, find, All, to_fixed4, lower, trim, arith,
}
use x402_agent_suite.MeteredEscrow.{active, MeteredSession, has_id}
use x402_agent_suite.MeteredEscrow.Invariant.{IsWithin, Call, opens, charges, run, run-IsWithin}

-- 1 USDC, of which 0.25 is spent.
abbrev session : MeteredSession
session = record {
  session_id = text "escrow_ab";
  buyer_wallet = text "0xabc";
  seller_host = text "api.example";
  budget_usdc = 1_000_000;
  spent_usdc = 250_000;
  status = active;
  opened_at = text "t0";
  closed_at = none;
}

abbrev store : List MeteredSession
store = session ∷ []

calls : List Call
calls =
    opens (text "ab") (text "t0") (text " 0xABC ") (text "API.example") 1_000_000
    ∷ charges (text "escrow_ab") 250_000
    ∷ charges (text "escrow_ab") 900_000
    ∷ []

-- The second charge does not fit into the budget.
run-calls : run calls [] ≡ store
unfolding run calls text_eq to_fixed4 lower trim
run-calls = refl

session-IsWithin : IsWithin session
unfolding to_fixed4
session-IsWithin = record { bounded = omega arith; fixed = refl }

found : find (has_id (text "escrow_ab")) store ≡ some session
unfolding text_eq
found = refl

run-IsWithin_example : All IsWithin (run calls [])
run-IsWithin_example = run-IsWithin calls
