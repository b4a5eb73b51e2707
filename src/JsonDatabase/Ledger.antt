-- ===== src/JsonDatabase/Ledger.antt =====
-- src/lib/db.ts: the spend ledger of JsonDatabase beside the table spend_ledger.
use mathlib.Core.Path.{subst}
use x402_agent_suite.Base.{
  ℕ, ◌≡◌, refl, sym, ap, ◌∙◌, inl, inr, List, [], ◌∷◌, ◌++◌, some, Text, length, Bool-cases,
}
use x402_agent_suite.SpendGovernor.{
  SpendRow, is_row, sum_day, day_key, get_spent_today, record_spend,
}
use x402_agent_suite.JsonDatabase.{
  str, num, to_string, to_number, JsonData, SpendEntry, spend_entry, perform, run_statement, Row,
  total, sum_entries, fetch, get_statement, spend_total, spend_insert,
}
use x402_agent_suite.JsonDatabase.Queries.{
  sum_day_sql, insert_spend, run_statement-kind, get_statement-kind, kind-sum_day_sql,
  kind-insert_spend,
}

-- The entries stand for the rows of the table.
abbrev pub Entries : List SpendEntry → List SpendRow → Type 0
Entries [] [] = Unit
Entries (e ∷ es) (r ∷ rows) =
    ((e.agent_id ≡ r.agent_id) × (e.amount_usdc ≡ some r.amount_usdc) × (e.day_key ≡ r.day_key))
    × Entries es rows
Entries [] (r ∷ rows) = ⊥
Entries (e ∷ es) [] = ⊥

-- `getSpentToday` and `recordSpend` of src/lib/ledger.ts over the JSON data.
abbrev pub json_spent_today : Text → Text → JsonData → Row
json_spent_today day agent_id d =
    get_statement sum_day_sql (str agent_id ∷ str (day_key agent_id day) ∷ []) d

abbrev pub json_record_spend : ℕ → Text → Text → ℕ → JsonData → JsonData
json_record_spend unix day agent_id amount d =
    (run_statement unix insert_spend (str agent_id ∷ num amount ∷ str (day_key agent_id day) ∷ [])
      d).0

sum_entries-Entries :
    (agent_id key : Text) (es : List SpendEntry) (rows : List SpendRow)
    → Entries es rows
    → sum_entries agent_id key es ≡ some (sum_day agent_id key rows)
unfolding sum_entries sum_day
sum_entries-Entries agent_id key [] [] h = refl
sum_entries-Entries agent_id key [] (r ∷ rows) h = absurd h
sum_entries-Entries agent_id key (e ∷ es) [] h = absurd h
sum_entries-Entries agent_id key (e ∷ es) (r ∷ rows) h =
    let rest = sum_entries-Entries agent_id key es rows h.1 in
    let (agent, amount, day) = h.0 in
    elim (Bool-cases (is_row agent_id key r)) [
      | inl mine ↦ rw (agent, day, mine, rest, amount) refl
      | inr other ↦ rw (agent, day, other) rest
    ]

Entries-append :
    (es : List SpendEntry) (rows : List SpendRow) (e : SpendEntry) (r : SpendRow)
    → Entries es rows
    → (e.agent_id ≡ r.agent_id) × (e.amount_usdc ≡ some r.amount_usdc) × (e.day_key ≡ r.day_key)
    → Entries (es ++ (e ∷ [])) (rows ++ (r ∷ []))
Entries-append [] [] e r h k = (k, tt)
Entries-append [] (q ∷ rows) e r h k = absurd h
Entries-append (f ∷ es) [] e r h k = absurd h
Entries-append (f ∷ es) (q ∷ rows) e r h k = (h.0, Entries-append es rows e r h.1 k)

pub record Spend : Type 0 where
  pub unix : ℕ
  pub day : Text
  pub agent_id : Text
  pub amount : ℕ

abbrev pub json_spends : List Spend → JsonData → JsonData
json_spends [] d = d
json_spends (p ∷ ps) d = json_spends ps (json_record_spend p.unix p.day p.agent_id p.amount d)

abbrev pub sql_spends : List Spend → List SpendRow → List SpendRow
sql_spends [] rows = rows
sql_spends (p ∷ ps) rows = sql_spends ps (record_spend p.day p.agent_id p.amount rows)

json_spends-Entries :
    (ps : List Spend) (d : JsonData) (rows : List SpendRow)
    → Entries d.spend_ledger rows
    → Entries (json_spends ps d).spend_ledger (sql_spends ps rows)
json_spends-Entries [] d rows h = h
json_spends-Entries (p ∷ ps) d rows h =
    json_spends-Entries ps (json_record_spend p.unix p.day p.agent_id p.amount d)
      (record_spend p.day p.agent_id p.amount rows) (recorded p d rows h)
  where
    recorded :
        (p : Spend) (d : JsonData) (rows : List SpendRow)
        → Entries d.spend_ledger rows
        → Entries
            (json_record_spend p.unix p.day p.agent_id p.amount d).spend_ledger
            (record_spend p.day p.agent_id p.amount rows)
    recorded p d rows h =
        let args = str p.agent_id ∷ num p.amount ∷ str (day_key p.agent_id p.day) ∷ [] in
        let ledger =
          ap (λ x. x.spend_ledger)
            (run_statement-kind p.unix insert_spend args d spend_insert kind-insert_spend) in
        subst (λ es. Entries es (record_spend p.day p.agent_id p.amount rows)) (sym ledger)
          (unfold perform record_spend in
            Entries-append d.spend_ledger rows (spend_entry p.unix args (length d.spend_ledger)) _ h
              (unfold to_string to_number in (refl, refl, refl)))

-- After any spends, what the JSON stand-in says an agent has spent on a day is what the table says.
pub json_spent_today-sql :
    (ps : List Spend) (d : JsonData) (rows : List SpendRow) (day agent_id : Text)
    → Entries d.spend_ledger rows
    → json_spent_today day agent_id (json_spends ps d)
      ≡ total (some (get_spent_today day agent_id (sql_spends ps rows)))
json_spent_today-sql ps d rows day agent_id h =
    get_statement-kind sum_day_sql (str agent_id ∷ str (day_key agent_id day) ∷ [])
      (json_spends ps d) spend_total kind-sum_day_sql
    ∙ (unfold fetch to_string get_spent_today in
        ap total (
          sum_entries-Entries agent_id (day_key agent_id day) (json_spends ps d).spend_ledger
            (sql_spends ps rows) (json_spends-Entries ps d rows h)))
