-- ===== src/EscrowLedger/Agreement.antt =====
-- src/lib/escrow-ledger.ts: whether the row, its payload and the unified table agree.
use mathlib.Core.Path.{subst}
use x402_agent_suite.Base.{
  ℕ, ◌/◌, ◌≡◌, refl, sym, ap, ◌∙◌, inl, inr, Bool, true, false, Option, none, some, Text, text,
  Dict, lookup, insert, lookup-insert-some, lookup-insert_self, Bool-cases, Option-cases, some_inj,
  if◌then◌else◌, arith,
}
use x402_agent_suite.EscrowUnified.{
  Tables, EscrowRow, upsert_escrow, merged, on_conflict, lookup-upsert_self, lookup-upsert_other,
}
use x402_agent_suite.EscrowLedger.{
  released, EscrowRecord, RecordRow, Ledger, CreateInput, conflicting, save_escrow_to_db,
  get_escrow_from_db, is_pending, state_of, unified_row, sync_ledger_escrow, mirror_to_json,
  new_record, create_escrow, release_row, released_record, release_escrow_in_db, release_escrow,
  get_escrow,
}

-- What the stores say of the escrow `id`, whose row is `row`.
pub record IsSettledAs (id : Text) (row : RecordRow) (t : Tables) : Type 0 where
  pub status : row.status ≡ row.payload.status
  pub own : row.payload.id ≡ id
  pub unified : (u : EscrowRow) × (lookup id t.escrows ≡ some u) × (u.state ≡ state_of row.status)

abbrev pub IsAgreed : Ledger → Type 0
IsAgreed l =
    (id : Text) (row : RecordRow) → lookup id l.records ≡ some row → IsSettledAs id row l.unified

merged-state :
    (unix : ℕ) (row : EscrowRow) (o : Option EscrowRow) → (merged unix row o).state ≡ row.state
unfolding merged on_conflict
merged-state unix row none = refl
merged-state unix row (some old) = refl

-- Writing a record to the row and to the unified table.
put-IsAgreed :
    (unix : ℕ) (r : EscrowRecord) (row : RecordRow) (json : Dict EscrowRecord) (l : Ledger)
    → row.status ≡ r.status
    → row.payload ≡ r
    → IsAgreed l
    → IsAgreed (record {
      records = insert r.id row l.records;
      unified = sync_ledger_escrow unix r l.unified;
      json = json;
    })
unfolding sync_ledger_escrow
put-IsAgreed unix r row json l status payload a id q there =
    elim (lookup-insert-some r.id id row q l.records there) [
      | inl (same, made) ↦
          subst (λ q. IsSettledAs id q (sync_ledger_escrow unix r l.unified)) made
            (record {
              status = status ∙ ap (λ p. p.status) (sym payload);
              own = ap (λ p. p.id) payload ∙ same;
              unified = (
                merged unix (unified_row unix r) (lookup r.id l.unified.escrows),
                ap (λ i. lookup i (upsert_escrow unix r.id (unified_row unix r) l.unified).escrows)
                      (sym same)
                    ∙ lookup-upsert_self unix r.id (unified_row unix r) l.unified,
                merged-state unix (unified_row unix r) (lookup r.id l.unified.escrows)
                    ∙ ap state_of (sym status),
              );
            })
      | inr (other, old) ↦
          let s = a id q old in
          record {
            status = s.status;
            own = s.own;
            unified = (
              s.unified.0,
              lookup-upsert_other unix r.id id (unified_row unix r) l.unified other ∙ s.unified.1,
              s.unified.2,
            );
          }
    ]

pub create_escrow-IsAgreed :
    (writable : Bool) (now : ℕ) (id : Text) (input : CreateInput) (l : Ledger)
    → IsAgreed l
    → IsAgreed (create_escrow writable now id input l).0
unfolding create_escrow save_escrow_to_db
create_escrow-IsAgreed writable now id input l a =
    let r = new_record now id input in
    put-IsAgreed (now / 1000) r (conflicting (lookup id l.records) r)
      (mirror_to_json writable r l.json) l (written-status (lookup id l.records) r)
      (written-payload (lookup id l.records) r) a
  where
    written-status : (o : Option RecordRow) (r : EscrowRecord) → (conflicting o r).status ≡ r.status
    written-status none r = refl
    written-status (some old) r = refl

    written-payload : (o : Option RecordRow) (r : EscrowRecord) → (conflicting o r).payload ≡ r
    written-payload none r = refl
    written-payload (some old) r = refl

-- The row of a released escrow.
abbrev pub released_row : ℕ → RecordRow → RecordRow
released_row now row = record row {
  status = released;
  released_at = some (now / 1000);
  payload = released_record now row.payload;
}

-- The ledger after the escrow `id` with the row `row` has been released.
abbrev pub after_release : Bool → ℕ → Text → RecordRow → Ledger → Ledger
after_release writable now id row l =
    let r = released_record now row.payload in
    record {
      records = insert id (released_row now row) l.records;
      unified = sync_ledger_escrow (now / 1000) r l.unified;
      json = mirror_to_json writable r l.json;
    }

module _ (writable : Bool) (now : ℕ) (id : Text) (l : Ledger) where
  pub release-missing : lookup id l.records ≡ none → release_escrow writable now id l ≡ (l, none)
  unfolding release_escrow release_escrow_in_db get_escrow_from_db
  release-missing gone = rw gone refl

  pub release-found :
      (row : RecordRow)
      → lookup id l.records ≡ some row
      → row.status ≡ row.payload.status
      → release_escrow writable now id l ≡ (
          if is_pending row.status
          then (after_release writable now id row l, some (released_record now row.payload))
          else (l, none))
  unfolding release_escrow release_escrow_in_db get_escrow_from_db
  release-found row there same = elim (Bool-cases (is_pending row.status)) [
    | inl waiting ↦ rw (there, sym same, waiting) (rw (release_row, there, waiting) refl)
    | inr done ↦ rw (there, sym same, done) refl
  ]

  pub after_release-IsAgreed :
      (row : RecordRow)
      → lookup id l.records ≡ some row
      → IsAgreed l
      → IsAgreed (after_release writable now id row l)
  after_release-IsAgreed row there a =
      let r = released_record now row.payload in
      subst
        (λ i. IsAgreed (record {
          records = insert i (released_row now row) l.records;
          unified = sync_ledger_escrow (now / 1000) r l.unified;
          json = mirror_to_json writable r l.json;
        }))
        (a id row there).own
        (put-IsAgreed (now / 1000) r (released_row now row) (mirror_to_json writable r l.json) l
          refl refl a)

  -- What the release of a pending escrow leaves.
  abbrev pub Settles : EscrowRecord → Ledger → Option EscrowRecord → Type 0
  Settles r l' answer =
      (answer ≡ some r)
      × (get_escrow id l' ≡ some r)
      × ((u : EscrowRow) × (lookup id l'.unified.escrows ≡ some u) × (u.state ≡ text "SETTLED"))

  after_release-Settles :
      (row : RecordRow)
      → lookup id l.records ≡ some row
      → IsAgreed l
      → let r = released_record now row.payload in
        Settles r (after_release writable now id row l) (some r)
  unfolding get_escrow get_escrow_from_db
  after_release-Settles row there a =
      let stored = lookup-insert_self id (released_row now row) l.records in
      (
        refl,
        rw (get_escrow, stored) refl,
        (after_release-IsAgreed row there a id (released_row now row) stored).unified,
      )

  -- A release succeeds exactly when the escrow is stored and pending. Then the table holds it as
  -- released and the unified table as settled, and reading it back gives the released record;
  -- otherwise the answer is null and nothing changes.
  pub release_exact :
      IsAgreed l
      → let (l', answer) = release_escrow writable now id l in
        IsAgreed l'
        × ((row : RecordRow)
            → lookup id l.records ≡ some row
            → is_pending row.status ≡ true
            → Settles (released_record now row.payload) l' answer)
        × (((row : RecordRow) → lookup id l.records ≡ some row → is_pending row.status ≡ false)
            → (l' ≡ l) × (answer ≡ none))
  release_exact a = elim (Option-cases (lookup id l.records)) [
    | inl gone ↦
        rw (release-missing gone)
          (a, (λ row there. absurd (ground (arith, gone, there))), λ h. (refl, refl))
    | inr (row, there) ↦ elim (Bool-cases (is_pending row.status)) [
      | inl waiting ↦
          rw (release-found row there (a id row there).status, waiting)
            (
              after_release-IsAgreed row there a,
              λ q tq live.
                  subst
                    (λ q.
                      Settles (released_record now q.payload) (after_release writable now id row l)
                        (some (released_record now row.payload)))
                    (some_inj (sym there ∙ tq)) (after_release-Settles row there a),
              λ h. let f = h row there in absurd (ground (arith, f, waiting)),
            )
      | inr done ↦
          rw (release-found row there (a id row there).status, done)
            (
              a,
              λ q tq live.
                  let f = ap (λ q. is_pending q.status) (some_inj (sym there ∙ tq)) in
                  absurd (ground (arith, f, live, done)),
              λ h. (refl, refl),
            )
    ]
  ]
