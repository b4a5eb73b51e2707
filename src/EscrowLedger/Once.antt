-- ===== src/EscrowLedger/Once.antt =====
-- src/lib/escrow-ledger.ts: how often an escrow is released.
use x402_agent_suite.Base.{
  ℕ, ◌+◌, ◌≤◌, ◌≡◌, sym, ap, ◌∙◌, inl, inr, Bool, true, false, ◌&&◌, List, [], ◌∷◌, Option, none,
  some, Text, text_eq, text_eq_iff, lookup, lookup-insert, Bool-cases, Option-cases, if◌then◌else◌,
  arith,
}
use x402_agent_suite.EscrowLedger.{
  RecordRow, Ledger, CreateInput, conflicting, save_escrow_to_db, is_pending, new_record,
  create_escrow, release_escrow,
}
use x402_agent_suite.EscrowLedger.Agreement.{
  IsAgreed, create_escrow-IsAgreed, released_row, release-missing, release-found, release_exact,
}

pub data Call : Type 0 where
  create : (writable : Bool) (now : ℕ) (id : Text) (input : CreateInput) → Call
  release : (writable : Bool) (now : ℕ) (id : Text) → Call

unfoldable pub perform : Call → Ledger → Ledger
unfolding create_escrow release_escrow
perform (create writable now id input) l = (create_escrow writable now id input l).0
perform (release writable now id) l = (release_escrow writable now id l).0

abbrev pub is_some {ℓ} : {A : Type ℓ} → Option A → Bool
is_some none = false
is_some (some a) = true

-- 1 for a call that releases the escrow `id`.
unfoldable pub releases : Text → Call → Ledger → ℕ
unfolding release_escrow
releases id (create writable now j input) l = 0
releases id (release writable now j) l =
    if text_eq j id && is_some (release_escrow writable now j l).1 then 1 else 0

unfoldable pub released_times : Text → List Call → Ledger → ℕ
unfolding releases perform
released_times id [] l = 0
released_times id (c ∷ cs) l = releases id c l + released_times id cs (perform c l)

-- The random id of a new escrow is not in use.
abbrev pub IsFresh : Call → Ledger → Type 0
IsFresh (create writable now id input) l = lookup id l.records ≡ none
IsFresh (release writable now id) l = Unit

abbrev pub AreFresh : List Call → Ledger → Type 0
AreFresh [] l = Unit
AreFresh (c ∷ cs) l = IsFresh c l × AreFresh cs (perform c l)

-- How often the escrow can still be released.
abbrev pub left : Option RecordRow → ℕ
left none = 1
left (some row) = if is_pending row.status then 1 else 0

perform-IsAgreed : (c : Call) (l : Ledger) → IsAgreed l → IsAgreed (perform c l)
unfolding perform
perform-IsAgreed (create writable now id input) l a =
    create_escrow-IsAgreed writable now id input l a
perform-IsAgreed (release writable now id) l a = (release_exact writable now id l a).0

create-left :
    (writable : Bool) (now : ℕ) (id j : Text) (input : CreateInput) (l : Ledger)
    → lookup j l.records ≡ none
    → left (lookup id (create_escrow writable now j input l).0.records) ≤ left (lookup id l.records)
unfolding create_escrow save_escrow_to_db
create-left writable now id j input l free =
    rw (lookup-insert j id (conflicting (lookup j l.records) (new_record now j input)) l.records)
      (elim (Bool-cases (text_eq j id)) [
        | inr other ↦ rw other (omega arith)
        | inl same ↦
            let here = ap (λ i. lookup i l.records) (sym ((text_eq_iff j id).0 same)) ∙ free in
            rw same (rw (free, here) (omega arith))
      ])

release-left :
    (writable : Bool) (now : ℕ) (id j : Text) (l : Ledger)
    → IsAgreed l
    → releases id (release writable now j) l
        + left (lookup id (release_escrow writable now j l).0.records)
      ≤ left (lookup id l.records)
unfolding releases
release-left writable now id j l a = elim (Option-cases (lookup j l.records)) [
  | inl gone ↦ rw (release-missing writable now j l gone) (silent j id (left (lookup id l.records)))
  | inr (row, there) ↦ elim (Bool-cases (is_pending row.status)) [
    | inr done ↦
        rw (release-found writable now j l row there (a j row there).status, done)
          (silent j id (left (lookup id l.records)))
    | inl waiting ↦
        rw (release-found writable now j l row there (a j row there).status, waiting)
          (rw (lookup-insert j id (released_row now row) l.records)
            (elim (Bool-cases (text_eq j id)) [
              | inr other ↦ rw other (omega arith)
              | inl same ↦
                  let here =
                    ap (λ i. lookup i l.records) (sym ((text_eq_iff j id).0 same)) ∙ there in
                  rw same (rw here (rw waiting (omega arith)))
            ]))
  ]
]
  where
    silent : (j id : Text) (n : ℕ) → (if text_eq j id && false then 1 else 0) + n ≤ n
    silent j id n = ground arith

released_times-le-left :
    (id : Text) (cs : List Call) (l : Ledger)
    → IsAgreed l
    → AreFresh cs l
    → released_times id cs l ≤ left (lookup id l.records)
unfolding released_times releases perform
released_times-le-left id [] l a f = omega arith
released_times-le-left id (create writable now j input ∷ cs) l a f = omega (
  arith,
  create-left writable now id j input l f.0,
  released_times-le-left id cs (perform (create writable now j input) l)
      (perform-IsAgreed (create writable now j input) l a) f.1,
)
released_times-le-left id (release writable now j ∷ cs) l a f = omega (
  arith,
  release-left writable now id j l a,
  released_times-le-left id cs (perform (release writable now j) l)
      (perform-IsAgreed (release writable now j) l a) f.1,
)

-- In any order of creations and releases of any escrows, whether or not the JSON file can be written,
-- an escrow is released at most once, if the random ids of new escrows are not in use; one that is
-- stored and not pending is not released at all.
pub released_once :
    (id : Text) (cs : List Call) (l : Ledger)
    → IsAgreed l
    → AreFresh cs l
    → (released_times id cs l ≤ 1)
      × ((row : RecordRow)
          → lookup id l.records ≡ some row
          → is_pending row.status ≡ false
          → released_times id cs l ≡ 0)
released_once id cs l a f =
    let le = released_times-le-left id cs l a f in
    (
      omega (arith, le, left-le (lookup id l.records)),
      λ row there done. let le' = rw (there, done) at le in omega (arith, le'),
    )
  where
    left-le : (o : Option RecordRow) → left o ≤ 1
    left-le o = ground arith
