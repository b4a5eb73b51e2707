-- ===== src/Migrations/Applied.antt =====
-- src/lib/migrations.ts: a run that is not disturbed.
use mathlib.Core.Path.{subst}
use x402_agent_suite.Base.{
  ℕ, ◌≡◌, refl, ap, ◌∙◌, inl, inr, Bool, true, false, not, ◌&&◌, List, [], ◌∷◌, ◌++◌, Text, text,
  text_eq, text_eq_iff, text_eq_refl, and-eq-true, contains, contains-append, All, All-imp,
  Bool-cases, arith,
}
use x402_agent_suite.Migrations.{
  Statement, create_table, create_index, Migration, migrations, Database, has_table, added,
  then_run, exec_all, has_version, insert_version, apply, apply_all, pending, with_schema_version,
  run_migrations,
}

pub contains-added :
    (names : List Text) (t u : Text) → contains names t ≡ true → contains (added u names) t ≡ true
contains-added names t u h = elim (Bool-cases (contains names u)) [
  | inl old ↦ rw old h
  | inr new ↦ rw new (contains-append names t u ∙ rw h refl)
]

pub contains-added_self : (names : List Text) (t : Text) → contains (added t names) t ≡ true
contains-added_self names t = elim (Bool-cases (contains names t)) [
  | inl old ↦ rw old old
  | inr new ↦ rw (new, added) (contains-append names t t ∙ rw (new, text_eq_refl t) refl)
]

-- The tables that are there for certain, while statements run.
abbrev pub supports : List Text → List Statement → Bool
supports known [] = true
supports known (create_table t ∷ sql) = supports (t ∷ known) sql
supports known (create_index i t ∷ sql) = contains known t && supports known sql

abbrev pub known_after : List Text → List Statement → List Text
known_after known [] = known
known_after known (create_table t ∷ sql) = known_after (t ∷ known) sql
known_after known (create_index i t ∷ sql) = known_after known sql

abbrev pub HasAll : List Text → Database → Type 0
HasAll names db = All (λ t. has_table t db ≡ true) names

HasAll-contains :
    (names : List Text) (db : Database) (t : Text)
    → HasAll names db
    → contains names t ≡ true
    → has_table t db ≡ true
unfolding contains
HasAll-contains [] db t all h = absurd (ground (arith, h))
HasAll-contains (u ∷ names) db t all h = elim (Bool-cases (text_eq u t)) [
  | inl same ↦ subst (λ x. has_table x db ≡ true) ((text_eq_iff u t).0 same) all.0
  | inr other ↦ HasAll-contains names db t all.1 (rw other at h)
]

-- Statements that create each table before its indexes do not throw.
exec_all-supported :
    (known : List Text) (sql : List Statement) (db : Database)
    → HasAll known db
    → supports known sql ≡ true
    → (db' : Database) × (exec_all sql db ≡ (db', true))
      × HasAll (known_after known sql) db'
      × (db'.versions ≡ db.versions)
unfolding exec_all
exec_all-supported known [] db all h = (db, refl, all, refl)
exec_all-supported known (create_table t ∷ sql) db all h =
    exec_all-supported (t ∷ known) sql (record db { tables = added t db.tables })
      (contains-added_self db.tables t, All-imp (λ u k. contains-added db.tables u t k) known all) h
exec_all-supported known (create_index i t ∷ sql) db all h =
    let both = (and-eq-true (contains known t) (supports known sql)).0 h in
    elim (Bool-cases (contains db.indexes i)) [
      | inl old ↦ rw old (exec_all-supported known sql db all both.1)
      | inr new ↦
          rw (new, HasAll-contains known db t all both.0)
            (exec_all-supported known sql (record db { indexes = db.indexes ++ (i ∷ []) }) all
              both.1)
    ]

abbrev pub distinct_from : List ℕ → List Migration → Bool
distinct_from versions [] = true
distinct_from versions (m ∷ ms) =
    not (has_version m.version versions) && distinct_from (versions ++ (m.version ∷ [])) ms

abbrev pub supports_all : List Text → List Migration → Bool
supports_all known [] = true
supports_all known (m ∷ ms) = supports known m.sql && supports_all (known_after known m.sql) ms

abbrev pub known_after_all : List Text → List Migration → List Text
known_after_all known [] = known
known_after_all known (m ∷ ms) = known_after_all (known_after known m.sql) ms

abbrev pub versions_after : List ℕ → List Migration → List ℕ
versions_after versions [] = versions
versions_after versions (m ∷ ms) = versions_after (versions ++ (m.version ∷ [])) ms

apply-supported :
    (known : List Text) (m : Migration) (db : Database)
    → HasAll known db
    → supports known m.sql ≡ true
    → has_version m.version db.versions ≡ false
    → (db' : Database) × (apply m db ≡ (db', true))
      × HasAll (known_after known m.sql) db'
      × (db'.versions ≡ db.versions ++ (m.version ∷ []))
unfolding apply
apply-supported known m db all h free =
    let (db', ran, all', same) = exec_all-supported known m.sql db all h in
    let free' : has_version m.version db'.versions ≡ false = rw same free in
    (
      record db' { versions = db'.versions ++ (m.version ∷ []) },
      ap (λ r. then_run r (insert_version m.version)) ran ∙ rw (free', insert_version) refl,
      all',
      ap (λ v. v ++ (m.version ∷ [])) same,
    )

pub apply_all-supported :
    (known : List Text) (ms : List Migration) (db : Database)
    → HasAll known db
    → supports_all known ms ≡ true
    → distinct_from db.versions ms ≡ true
    → (db' : Database) × (apply_all ms db ≡ (db', true))
      × HasAll (known_after_all known ms) db'
      × (db'.versions ≡ versions_after db.versions ms)
unfolding apply_all
apply_all-supported known [] db all h d = (db, refl, all, refl)
apply_all-supported known (m ∷ ms) db all h d =
    let both =
      (and-eq-true (supports known m.sql) (supports_all (known_after known m.sql) ms)).0 h in
    let new =
      (and-eq-true (not (has_version m.version db.versions))
          (distinct_from (db.versions ++ (m.version ∷ [])) ms)).0
        d in
    let free : has_version m.version db.versions ≡ false = ground (arith, new.0) in
    let (db', done, all', same) = apply-supported known m db all both.0 free in
    let (db'', rest, all'', same') =
      apply_all-supported (known_after known m.sql) ms db' all' both.1 (rw same new.1) in
    (
      db'',
      ap (λ r. then_run r (apply_all ms)) done ∙ rest,
      all'',
      same' ∙ ap (λ v. versions_after v ms) same,
    )

-- The tables that the migrations make.
abbrev pub all_tables : List Text
all_tables =
    text "schema_version"
    ∷ text "mandates"
    ∷ text "protocol_kv"
    ∷ text "idempotency_cache"
    ∷ text "idempotency_inflight"
    ∷ text "webhook_subscriptions"
    ∷ text "telemetry_counters"
    ∷ text "settlement_failures"
    ∷ text "escrows"
    ∷ text "escrow_transitions"
    ∷ text "wallet_sessions"
    ∷ []

abbrev pub all_versions : List ℕ
all_versions = 1 ∷ 2 ∷ 3 ∷ 4 ∷ 5 ∷ 6 ∷ 7 ∷ 9 ∷ 8 ∷ 10 ∷ []

-- A run on a database with the base tables and no version recorded does not throw, makes every table and
-- records every version; a second run changes nothing.
pub run_migrations_complete :
    (db : Database)
    → has_table (text "spend_ledger") db ≡ true
    → db.versions ≡ []
    → (db' : Database) × (run_migrations db ≡ (db', true))
      × HasAll all_tables db'
      × (db'.versions ≡ all_versions)
      × (run_migrations db' ≡ (db', true))
unfolding run_migrations text_eq contains
run_migrations_complete db ledger fresh =
    let start = with_schema_version db in
    let known = text "schema_version" ∷ text "spend_ledger" ∷ [] in
    let (db', done, all, same) =
      apply_all-supported known migrations start
        (
          contains-added_self db.tables (text "schema_version"),
          (contains-added db.tables (text "spend_ledger") (text "schema_version") ledger, tt),
        )
        refl (rw fresh refl) in
    let all' =
      All-imp (λ t k. HasAll-contains (known_after_all known migrations) db' t all k) all_tables
        (
          refl,
          (refl, (refl, (refl, (refl, (refl, (refl, (refl, (refl, (refl, (refl, tt)))))))))),
        ) in
    let versions : db'.versions ≡ all_versions = same ∙ rw fresh refl in
    let settled : with_schema_version db' ≡ db' = rw (all'.0) refl in
    (
      db',
      ap (λ v. apply_all (pending v) start) fresh ∙ done,
      all',
      versions,
      ap (λ v. apply_all (pending v) (with_schema_version db')) versions
          ∙ ap (λ d. (d, true)) settled,
    )
