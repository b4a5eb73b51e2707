-- ===== src/Migrations/Examples.antt =====
-- Migrations of the database that src/lib/db.ts sets up, and the theorems at it.
use x402_agent_suite.Base.{◌≡◌, refl, true, false, [], ◌∷◌, text, text_eq, contains}
use x402_agent_suite.Migrations.{Database, has_table, run_migrations, run_interrupted, migrations}
use x402_agent_suite.Migrations.Applied.{HasAll, all_tables, all_versions, run_migrations_complete}
use x402_agent_suite.Migrations.Gap.{restarts, interrupted-no_escrows}

abbrev base : Database
base = record {
  tables =
      text "attestations"
      ∷ text "spend_ledger"
      ∷ text "mpp_sessions"
      ∷ text "escrow_records"
      ∷ text "used_nonces"
      ∷ [];
  indexes = text "idx_spend_day" ∷ text "idx_nonces_time" ∷ [];
  versions = [];
}

escrows_made : has_table (text "escrows") (run_migrations base).0 ≡ true
unfolding run_migrations migrations text_eq contains
escrows_made = refl

-- The second start goes on with version 10.
versions_after_stop :
    (restarts 1 (run_interrupted 8 base)).versions ≡ 1 ∷ 2 ∷ 3 ∷ 4 ∷ 5 ∷ 6 ∷ 7 ∷ 9 ∷ 10 ∷ []
unfolding run_migrations run_interrupted migrations text_eq contains
versions_after_stop = refl

run_migrations_complete_example :
    (db : Database) × (run_migrations base ≡ (db, true))
    × HasAll all_tables db
    × (db.versions ≡ all_versions)
    × (run_migrations db ≡ (db, true))
unfolding text_eq contains
run_migrations_complete_example = run_migrations_complete base refl refl

interrupted-no_escrows_example :
    has_table (text "escrows") (restarts 3 (run_interrupted 8 base)) ≡ false
unfolding text_eq contains
interrupted-no_escrows_example = interrupted-no_escrows base 3 refl refl refl
