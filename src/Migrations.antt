-- ===== src/Migrations.antt =====
-- src/lib/migrations.ts: the versions of the schema and the loop that applies them. A statement is the
-- table or the index that it creates; columns are left out. An index on a table that is not there makes
-- `exec` throw, which ends the run.
mod Applied
mod Gap
mod Examples
use x402_agent_suite.Base.{
  ℕ, Bool, true, false, List, [], ◌∷◌, ◌++◌, Text, text, contains, keep, any, ltb, ◌==◌, max, take,
  if◌then◌else◌,
}

-- `CREATE TABLE IF NOT EXISTS`, `CREATE [UNIQUE] INDEX IF NOT EXISTS name ON table`.
pub data Statement : Type 0 where
  create_table : Text → Statement
  create_index : Text → Text → Statement

pub record Migration : Type 0 where
  pub version : ℕ
  pub sql : List Statement

abbrev migration : ℕ → List Statement → Migration
migration version sql = record { version = version; sql = sql }

unfoldable pub migrations : List Migration
migrations =
    migration 1 (create_table (text "schema_version") ∷ [])
    ∷ migration 2 (
        create_table (text "mandates")
        ∷ create_index (text "idx_mandates_agent") (text "mandates")
        ∷ create_index (text "idx_mandates_expires") (text "mandates")
        ∷ [])
    ∷ migration 3 (
        create_table (text "protocol_kv")
        ∷ create_index (text "idx_kv_store") (text "protocol_kv")
        ∷ [])
    ∷ migration 4
        (create_table (text "idempotency_cache") ∷ create_table (text "idempotency_inflight") ∷ [])
    ∷ migration 5 (
        create_table (text "webhook_subscriptions")
        ∷ create_index (text "idx_webhooks_fleet") (text "webhook_subscriptions")
        ∷ [])
    ∷ migration 6 (
        create_index (text "idx_spend_tx_hash") (text "spend_ledger")
        ∷ create_index (text "idx_spend_wallet") (text "spend_ledger")
        ∷ [])
    ∷ migration 7 (create_table (text "telemetry_counters") ∷ [])
    ∷ migration 9 (
        create_table (text "settlement_failures")
        ∷ create_index (text "idx_sf_created") (text "settlement_failures")
        ∷ [])
    ∷ migration 8 (
        create_table (text "escrows")
        ∷ create_table (text "escrow_transitions")
        ∷ create_index (text "idx_escrow_state") (text "escrows")
        ∷ [])
    ∷ migration 10 (
        create_table (text "wallet_sessions")
        ∷ create_index (text "idx_ws_wallet") (text "wallet_sessions")
        ∷ create_index (text "idx_ws_expires") (text "wallet_sessions")
        ∷ [])
    ∷ []

-- `versions` is the table schema_version.
pub record Database : Type 0 where
  pub tables : List Text
  pub indexes : List Text
  pub versions : List ℕ

abbrev pub has_table : Text → Database → Bool
has_table t db = contains db.tables t

abbrev pub added : Text → List Text → List Text
added t names = if contains names t then names else names ++ (t ∷ [])

-- The Boolean is false when the statement throws.
unfoldable pub exec : Statement → Database → Database × Bool
exec (create_table t) db = (record db { tables = added t db.tables }, true)
exec (create_index i t) db =
    if contains db.indexes i
    then (db, true)
    else if contains db.tables t
    then (record db { indexes = db.indexes ++ (i ∷ []) }, true)
    else (db, false)

-- What runs after a call that did not throw.
abbrev pub then_run : Database × Bool → (Database → Database × Bool) → Database × Bool
then_run (db, true) next = next db
then_run (db, false) next = (db, false)

unfoldable pub exec_all : List Statement → Database → Database × Bool
unfolding exec
exec_all [] db = (db, true)
exec_all (s ∷ sql) db = then_run (exec s db) (exec_all sql)

abbrev pub has_version : ℕ → List ℕ → Bool
has_version v versions = any (λ u. u == v) versions

-- `INSERT INTO schema_version`, whose primary key may be taken.
unfoldable pub insert_version : ℕ → Database → Database × Bool
insert_version v db =
    if has_version v db.versions
    then (db, false)
    else (record db { versions = db.versions ++ (v ∷ []) }, true)

unfoldable pub apply : Migration → Database → Database × Bool
unfolding exec_all insert_version
apply m db = then_run (exec_all m.sql db) (insert_version m.version)

unfoldable pub apply_all : List Migration → Database → Database × Bool
unfolding apply
apply_all [] db = (db, true)
apply_all (m ∷ ms) db = then_run (apply m db) (apply_all ms)

-- `SELECT MAX(version)`, 0 if there is none.
unfoldable pub max_version : List ℕ → ℕ
max_version [] = 0
max_version (v ∷ versions) = max v (max_version versions)

unfoldable pub pending : List ℕ → List Migration
unfolding migrations max_version
pending versions = keep (λ m. ltb (max_version versions) m.version) migrations

abbrev pub with_schema_version : Database → Database
with_schema_version db = record db { tables = added (text "schema_version") db.tables }

unfoldable pub run_migrations : Database → Database × Bool
unfolding pending apply_all
run_migrations db = apply_all (pending db.versions) (with_schema_version db)

-- A run that the process leaves after `n` migrations.
unfoldable pub run_interrupted : ℕ → Database → Database
unfolding pending apply_all
run_interrupted n db = (apply_all (take n (pending db.versions)) (with_schema_version db)).0
