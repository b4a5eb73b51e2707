-- ===== src/JsonDatabase/Examples.antt =====
-- The JSON stand-in: claims, spending and an escrow over it, and the theorems at them.
use x402_agent_suite.Base.{
  ℕ, ◌≡◌, refl, Bool, false, List, [], ◌∷◌, none, Text, text, text_eq, show_from,
}
use x402_agent_suite.EscrowLedger.{EscrowRecord, pending}
use x402_agent_suite.NonceStore.Once.{Claim}
use x402_agent_suite.SpendGovernor.{get_spent_today, sum_day, record_spend}
use x402_agent_suite.JsonDatabase.{
  str, num, to_string, JsonData, run_statement, get_statement, escrow_row,
}
use x402_agent_suite.JsonDatabase.Queries.{get_escrow_sql, release_escrow_sql}
use x402_agent_suite.JsonDatabase.Tables.{json_answers, sql_answers, json_answers-sql}
use x402_agent_suite.JsonDatabase.Ledger.{Spend, sql_spends}
use x402_agent_suite.JsonDatabase.Misread.{json_create, misread, json_create-misread}

abbrev empty : JsonData
empty = record {
  attestations = [];
  spend_ledger = [];
  mpp_sessions = [];
  escrow_records = [];
  used_nonces = [];
}

number_as_text : to_string (num 1205) ≡ text "1205"
unfolding to_string show_from
number_as_text = refl

abbrev claims : List Claim
claims =
    record { now = 5000; raw_key = text "nonce-0001"; network = text "base" }
    ∷ record { now = 6000; raw_key = text " nonce-0001 "; network = text "base" }
    ∷ []

abbrev no_redis : Text → ℕ → ℕ → ℕ × Bool
no_redis key ttl r = (r, false)

json_answers-sql_example :
    json_answers no_redis 60 0 claims (record { rows = empty; clean_counter = 0 })
    ≡ sql_answers no_redis 60 0 claims (record { used_nonces = []; clean_counter = 0 })
json_answers-sql_example =
    json_answers-sql no_redis 60 0 claims (record { rows = empty; clean_counter = 0 })
      (record { used_nonces = []; clean_counter = 0 }) refl refl

abbrev spends : List Spend
spends =
    record { unix = 5; day = text "2026-01-02"; agent_id = text "a1"; amount = 250_000 }
    ∷ record { unix = 6; day = text "2026-01-02"; agent_id = text "a1"; amount = 500_000 }
    ∷ []

table_total : get_spent_today (text "2026-01-02") (text "a1") (sql_spends spends []) ≡ 750_000
unfolding get_spent_today sum_day record_spend text_eq
table_total = refl

abbrev escrow : EscrowRecord
escrow = record {
  id = text "e1";
  payer_agent_id = text "buyer";
  payee_agent_id = text "seller";
  amount_usdc = 2_000_000;
  status = pending;
  release_condition = text "delivered";
  created_at = 5000;
  released_at = none;
}

json_create-misread_example :
    let d = json_create 5 (text "{}") (text "{}") escrow empty in
    (get_statement get_escrow_sql (str (text "e1") ∷ []) d ≡ escrow_row (misread escrow))
    × (run_statement 6 release_escrow_sql (num 6 ∷ str (text "{}") ∷ str (text "e1") ∷ []) d
        ≡ (d, 0))
json_create-misread_example =
    json_create-misread 5 6 (text "{}") (text "{}") escrow empty
      (num 6 ∷ str (text "{}") ∷ str (text "e1") ∷ [])
