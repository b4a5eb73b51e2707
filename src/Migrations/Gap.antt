-- ===== src/Migrations/Gap.antt =====
-- src/lib/migrations.ts: a run that ends between two migrations.
use mathlib.Core.Path.{subst}
use x402_agent_suite.Base.{
  ℕ, zero, suc, ◌≤◌, ◌≡◌, refl, sym, ap, ◌∙◌, inl, inr, Bool, true, false, List, [], ◌∷◌, ◌++◌,
  Text, text, text_eq, contains, contains-append, any, keep, take, ltb, ltb→lt, All, Bool-cases,
  arith,
}
use x402_agent_suite.Migrations.{
  Statement, create_table, create_index, Migration, migrations, Database, has_table, added, exec,
  then_run, exec_all, has_version, insert_version, apply, apply_all, max_version, pending,
  with_schema_version, run_migrations, run_interrupted,
}
use x402_agent_suite.Migrations.Applied.{contains-added, contains-added_self, apply_all-supported}

abbrev creates : Text → Statement → Bool
creates t (create_table u) = text_eq u t
creates t (create_index i u) = false

-- The table is not there, and the version `k` is recorded or a later one.
abbrev Skipped : ℕ → Text → Database → Type 0
Skipped k t db = (has_table t db ≡ false) × (k ≤ max_version db.versions)

added-missing :
    (names : List Text) (t u : Text)
    → contains names t ≡ false
    → text_eq u t ≡ false
    → contains (added u names) t ≡ false
added-missing names t u h k = elim (Bool-cases (contains names u)) [
  | inl old ↦ rw old h
  | inr new ↦ rw new (contains-append names t u ∙ rw (h, k) refl)
]

max_version-append : (vs : List ℕ) (v : ℕ) → max_version vs ≤ max_version (vs ++ (v ∷ []))
unfolding max_version
max_version-append [] v = omega arith
max_version-append (u ∷ vs) v = omega (arith, max_version-append vs v)

module _ (k : ℕ) where
  exec-missing :
      (t : Text) (s : Statement) (db : Database)
      → creates t s ≡ false
      → Skipped k t db
      → Skipped k t (exec s db).0
  unfolding exec
  exec-missing t (create_table u) db c h = (added-missing db.tables t u h.0 c, h.1)
  exec-missing t (create_index i u) db c h = elim (Bool-cases (contains db.indexes i)) [
    | inl old ↦ rw old h
    | inr new ↦
        rw new (elim (Bool-cases (contains db.tables u)) [
          | inl there ↦ rw there h
          | inr gone ↦ rw gone h
        ])
  ]

  then_run-Skipped :
      (t : Text) (r : Database × Bool) (next : Database → Database × Bool)
      → Skipped k t r.0
      → ((db : Database) → Skipped k t db → Skipped k t (next db).0)
      → Skipped k t (then_run r next).0
  then_run-Skipped t (db, true) next h k = k db h
  then_run-Skipped t (db, false) next h k = h

  exec_all-missing :
      (t : Text) (sql : List Statement) (db : Database)
      → any (creates t) sql ≡ false
      → Skipped k t db
      → Skipped k t (exec_all sql db).0
  unfolding exec_all
  exec_all-missing t [] db c h = h
  exec_all-missing t (s ∷ sql) db c h =
      then_run-Skipped t (exec s db) (exec_all sql) (exec-missing t s db (ground (arith, c)) h)
        (λ d q. exec_all-missing t sql d (ground (arith, c)) q)

  insert_version-missing :
      (t : Text) (v : ℕ) (db : Database) → Skipped k t db → Skipped k t (insert_version v db).0
  unfolding insert_version
  insert_version-missing t v db h = elim (Bool-cases (has_version v db.versions)) [
    | inl old ↦ rw old h
    | inr new ↦ rw new (
      h.0,
      (let more = max_version-append db.versions v in let le = h.1 in omega (arith, more, le)),
    )
  ]

  apply_all-missing :
      (t : Text) (ms : List Migration) (db : Database)
      → All (λ m. any (creates t) m.sql ≡ false) ms
      → Skipped k t db
      → Skipped k t (apply_all ms db).0
  unfolding apply_all apply
  apply_all-missing t [] db c h = h
  apply_all-missing t (m ∷ ms) db c h =
      then_run-Skipped t (apply m db) (apply_all ms)
        (then_run-Skipped t (exec_all m.sql db) (insert_version m.version)
          (exec_all-missing t m.sql db c.0 h) (λ d q. insert_version-missing t m.version d q))
        (λ d q. apply_all-missing t ms d c.1 q)

keep-All :
    (p : Migration → Bool) (P : Migration → Type 0) (ms : List Migration)
    → All (λ m. p m ≡ true → P m) ms
    → All P (keep p ms)
keep-All p P [] h = tt
keep-All p P (m ∷ ms) h = elim (Bool-cases (p m)) [
  | inl good ↦ rw good (h.0 good, keep-All p P ms h.1)
  | inr bad ↦ rw bad (keep-All p P ms h.1)
]

-- What is still to be applied after version 9 does not make the table `escrows`.
pending-escrows :
    (versions : List ℕ)
    → 9 ≤ max_version versions
    → All (λ m. any (creates (text "escrows")) m.sql ≡ false) (pending versions)
unfolding pending migrations text_eq
pending-escrows versions h =
    keep-All (λ m. ltb (max_version versions) m.version)
      (λ m. any (creates (text "escrows")) m.sql ≡ false) migrations
      (
        (λ e. refl),
        (
          (λ e. refl),
          (
            (λ e. refl),
            (
              (λ e. refl),
              (
                (λ e. refl),
                (
                  (λ e. refl),
                  (
                    (λ e. refl),
                    (
                      (λ e. refl),
                      (
                        (λ e.
                            absurd
                              (let le = ltb→lt (max_version versions) 8 e in omega (arith, le, h))),
                        ((λ e. refl), tt),
                      ),
                    ),
                  ),
                ),
              ),
            ),
          ),
        ),
      )

-- Any number of later starts of the server.
abbrev pub restarts : ℕ → Database → Database
restarts zero db = db
restarts (suc n) db = restarts n (run_migrations db).0

schema_missing :
    (db : Database)
    → has_table (text "escrows") db ≡ false
    → has_table (text "escrows") (with_schema_version db) ≡ false
schema_missing db h =
    added-missing db.tables (text "escrows") (text "schema_version") h (unfold text_eq in refl)

restarts-Skipped :
    (n : ℕ) (db : Database)
    → Skipped 9 (text "escrows") db
    → Skipped 9 (text "escrows") (restarts n db)
restarts-Skipped zero db h = h
restarts-Skipped (suc n) db h = restarts-Skipped n (run_migrations db).0 (restarted db h)
  where
    restarted :
        (db : Database)
        → Skipped 9 (text "escrows") db
        → Skipped 9 (text "escrows") (run_migrations db).0
    restarted db h =
        unfold run_migrations in
        apply_all-missing 9 (text "escrows") (pending db.versions) (with_schema_version db)
          (pending-escrows db.versions h.1) (schema_missing db h.0, h.1)

after_eight :
    (db : Database)
    → has_table (text "spend_ledger") db ≡ true
    → has_table (text "escrows") db ≡ false
    → db.versions ≡ []
    → Skipped 9 (text "escrows") (apply_all (take 8 migrations) (with_schema_version db)).0
unfolding migrations text_eq contains max_version
after_eight db ledger missing fresh =
    let start = with_schema_version db in
    let known = text "schema_version" ∷ text "spend_ledger" ∷ [] in
    let (db', done, all, same) =
      apply_all-supported known (take 8 migrations) start
        (
          contains-added_self db.tables (text "schema_version"),
          (contains-added db.tables (text "spend_ledger") (text "schema_version") ledger, tt),
        )
        refl (rw fresh refl) in
    let gone =
      apply_all-missing 0 (text "escrows") (take 8 migrations) start
        (refl, (refl, (refl, (refl, (refl, (refl, (refl, (refl, tt))))))))
        (schema_missing db missing, omega arith) in
    let versions : db'.versions ≡ 1 ∷ 2 ∷ 3 ∷ 4 ∷ 5 ∷ 6 ∷ 7 ∷ 9 ∷ [] = same ∙ rw fresh refl in
    (
      gone.0,
      subst (λ (v : List ℕ). 9 ≤ max_version v) (sym (ap (λ r. r.0.versions) done ∙ versions))
          (omega arith),
    )

run_interrupted_fresh :
    (db : Database)
    → db.versions ≡ []
    → run_interrupted 8 db ≡ (apply_all (take 8 migrations) (with_schema_version db)).0
run_interrupted_fresh db fresh =
    unfold run_interrupted in
    ap (λ v. (apply_all (take 8 (pending v)) (with_schema_version db)).0) fresh

-- Version 9 stands in front of version 8, and a start applies what is above the highest version that is
-- recorded. So if the first start ends right after version 9, after eight migrations, the table `escrows`
-- of version 8 is not made then, and by no later start either, however many there are.
pub interrupted-no_escrows :
    (db : Database) (n : ℕ)
    → has_table (text "spend_ledger") db ≡ true
    → has_table (text "escrows") db ≡ false
    → db.versions ≡ []
    → has_table (text "escrows") (restarts n (run_interrupted 8 db)) ≡ false
interrupted-no_escrows db n ledger missing fresh =
    (restarts-Skipped n (run_interrupted 8 db) (
      subst (Skipped 9 (text "escrows")) (sym (run_interrupted_fresh db fresh))
        (after_eight db ledger missing fresh))).0
