-- ===== src/MppStorage/Saving.antt =====
-- The storage of src/agents/mpp-session-v2.ts: what `saveSessions` leaves in the file and the table.
use x402_agent_suite.Base.{
  All-lookup, ℕ, ◌-◌, ◌≤◌, ◌≡◌, refl, sym, ap, ◌∙◌, inl, inr, false, List, [], ◌∷◌, map, Option,
  none, some, Text, text_eq, text_eq_iff, text_eq_refl, Dict, lookup, insert, lookup-insert-some,
  IsUnique, IsUnique-insert, All, All-imp, All-both, All-map, All-insert_entry, All-entries, drop,
  length, zero, suc, Bool-cases, Option-cases, arith,
}
use x402_agent_suite.MppStorage.{
  MppSession, MppRow, Storage, upserted, save_mpp_session_to_db, get_mpp_session_from_db, set_all,
  stored_for, load_sessions, save_all, last_200, save_sessions,
}
use x402_agent_suite.MppStorage.Backing.{IsBacked, IsAgreed, get-save}

-- The rows of a call: each under its session's id, no id twice.
pub record IsRows (rows : Dict MppSession) : Type 0 where
  pub unique : IsUnique rows
  pub keyed : All (λ e. e.1.session_id ≡ e.0) rows

pub insert-IsRows :
    (id : Text) (s : MppSession) (rows : Dict MppSession)
    → s.session_id ≡ id
    → IsRows rows
    → IsRows (insert id s rows)
insert-IsRows id s rows e r = record {
  unique = IsUnique-insert id s rows r.unique;
  keyed = All-insert_entry (λ e. e.1.session_id ≡ e.0) id s rows e r.keyed;
}

set_all-IsRows : (xs : List MppSession) (m : Dict MppSession) → IsRows m → IsRows (set_all xs m)
unfolding set_all
set_all-IsRows [] m r = r
set_all-IsRows (s ∷ xs) m r =
    set_all-IsRows xs (insert s.session_id s m) (insert-IsRows s.session_id s m refl r)

no-IsRows : IsRows []
no-IsRows = record { unique = tt; keyed = tt }

pub load_sessions-IsRows :
    (agent_id : Option Text) (st : Storage) → IsRows (load_sessions agent_id st)
unfolding load_sessions
load_sessions-IsRows agent_id st = elim (Option-cases st.file) [
  | inl gone ↦ rw gone (set_all-IsRows (stored_for agent_id st.table) [] no-IsRows)
  | inr (rows, there) ↦ rw there (
      set_all-IsRows (stored_for agent_id st.table) (set_all rows [])
        (set_all-IsRows rows [] no-IsRows))
]

-- No two sessions of a list share an id.
abbrev pub Distinct : List MppSession → Type 0
Distinct [] = Unit
Distinct (s ∷ rows) = All (λ x. text_eq x.session_id s.session_id ≡ false) rows × Distinct rows

Distinct-drop : (n : ℕ) (rows : List MppSession) → Distinct rows → Distinct (drop n rows)
Distinct-drop zero rows d = d
Distinct-drop (suc n) [] d = tt
Distinct-drop (suc n) (s ∷ rows) d = Distinct-drop n rows d.1

-- Another entry of the rows has another id.
other-id :
    (k : Text) (v : MppSession) (m : Dict MppSession) (e : Text × MppSession)
    → lookup k m ≡ none
    → v.session_id ≡ k
    → (lookup e.0 m ≡ some e.1) × (e.1.session_id ≡ e.0)
    → text_eq e.1.session_id v.session_id ≡ false
other-id k v m e gone vk (there, ek) = elim (Bool-cases (text_eq e.1.session_id v.session_id)) [
  | inr differ ↦ differ
  | inl same ↦
      let k≡ : e.0 ≡ k = sym ek ∙ ((text_eq_iff e.1.session_id v.session_id).0 same ∙ vk) in
      let here = ap (λ i. lookup i m) k≡ ∙ gone in absurd (ground (arith, there, here))
]

values-Distinct :
    (rows : Dict MppSession)
    → IsUnique rows
    → All (λ e. e.1.session_id ≡ e.0) rows
    → Distinct (map (λ e. e.1) rows)
values-Distinct [] u k = tt
values-Distinct ((id, s) ∷ rows) u k = (
  All-map (λ x. text_eq x.session_id s.session_id ≡ false) (λ e. e.1) rows
      (All-imp (λ e h. other-id id s rows e u.0 k.0 h) rows
        (All-both (λ e. lookup e.0 rows ≡ some e.1) (λ e. e.1.session_id ≡ e.0) rows
          (All-entries rows u.1) k.1)),
  values-Distinct rows u.1 k.1,
)

-- Saving sessions of other ids.
save_all-other :
    (id : Text) (rows : List MppSession) (t : Dict MppRow)
    → All (λ x. text_eq x.session_id id ≡ false) rows
    → get_mpp_session_from_db id (save_all rows t) ≡ get_mpp_session_from_db id t
unfolding save_all
save_all-other id [] t h = refl
save_all-other id (s ∷ rows) t h =
    save_all-other id rows (save_mpp_session_to_db s t) h.1 ∙ (get-save id s t ∙ rw h.0 refl)

save_all-IsBacked :
    (rows : List MppSession) (t : Dict MppRow)
    → Distinct rows
    → All (IsBacked (save_all rows t)) rows
unfolding save_all
save_all-IsBacked [] t d = tt
save_all-IsBacked (s ∷ rows) t d = (
  save_all-other s.session_id rows (save_mpp_session_to_db s t) d.0
      ∙ (get-save s.session_id s t ∙ rw (text_eq_refl s.session_id) refl),
  save_all-IsBacked rows (save_mpp_session_to_db s t) d.1,
)

-- The table keeps its form.
pub record IsTable (t : Dict MppRow) : Type 0 where
  pub unique : IsUnique t
  pub keyed : (id : Text) (r : MppRow) → lookup id t ≡ some r → r.payload.session_id ≡ id

save-IsTable : (s : MppSession) (t : Dict MppRow) → IsTable t → IsTable (save_mpp_session_to_db s t)
unfolding save_mpp_session_to_db
save-IsTable s t h = record {
  unique = IsUnique-insert s.session_id _ t h.unique;
  keyed = λ id r there.
      elim (lookup-insert-some s.session_id id (upserted (lookup s.session_id t) s) r t there) [
        | inl (same, made) ↦
            ap (λ q. q.payload.session_id) (sym made)
            ∙ (upserted-id (lookup s.session_id t) s ∙ same)
        | inr (other, old) ↦ h.keyed id r old
      ];
}
  where
    upserted-id :
        (o : Option MppRow) (s : MppSession) → (upserted o s).payload.session_id ≡ s.session_id
    upserted-id none s = refl
    upserted-id (some r) s = refl

save_all-IsTable :
    (rows : List MppSession) (t : Dict MppRow) → IsTable t → IsTable (save_all rows t)
unfolding save_all
save_all-IsTable [] t h = h
save_all-IsTable (s ∷ rows) t h =
    save_all-IsTable rows (save_mpp_session_to_db s t) (save-IsTable s t h)

pub save_sessions-IsAgreed :
    (rows : Dict MppSession) (st : Storage)
    → IsRows rows
    → IsAgreed st
    → IsAgreed (save_sessions rows st)
unfolding save_sessions
save_sessions-IsAgreed rows st r a =
    let xs = map (λ e. e.1) rows in
    let t =
      save_all-IsTable (last_200 xs) st.table (record { unique = a.unique; keyed = a.keyed }) in
    record {
      unique = t.unique;
      keyed = t.keyed;
      backed =
          save_all-IsBacked (last_200 xs) st.table
            (Distinct-drop (length xs - 200) xs (values-Distinct rows r.unique r.keyed));
    }

drop-none : (rows : List MppSession) → length rows ≤ 200 → last_200 rows ≡ rows
drop-none rows h = let z : length rows - 200 ≡ 0 = omega (arith, h) in rw z refl

-- Of at most 200 rows each is saved.
pub save_sessions-all :
    (rows : Dict MppSession) (st : Storage) (id : Text) (s : MppSession)
    → IsRows rows
    → length (map (λ e. e.1) rows) ≤ 200
    → lookup id rows ≡ some s
    → get_mpp_session_from_db s.session_id (save_sessions rows st).table ≡ some s
unfolding save_sessions
save_sessions-all rows st id s r few there =
    let xs = map (λ e. e.1) rows in
    rw (drop-none xs few) (
      All-lookup (IsBacked (save_all xs st.table)) id s rows there (
        of_values (IsBacked (save_all xs st.table)) rows
          (save_all-IsBacked xs st.table (values-Distinct rows r.unique r.keyed))))
  where
    of_values :
        (P : MppSession → Type 0) (rows : Dict MppSession)
        → All P (map (λ e. e.1) rows)
        → All (λ e. P e.1) rows
    of_values P [] h = tt
    of_values P (e ∷ rows) h = (h.0, of_values P rows h.1)

pub length-insert :
    (id : Text) (s : MppSession) (rows : Dict MppSession)
    → length (map (λ e. e.1) (insert id s rows)) ≤ suc (length (map (λ e. e.1) rows))
unfolding insert
length-insert id s [] = omega arith
length-insert id s ((k, v) ∷ rows) = elim (Bool-cases (text_eq k id)) [
  | inl same ↦ rw same (omega arith)
  | inr other ↦ rw other (omega (arith, length-insert id s rows))
]
