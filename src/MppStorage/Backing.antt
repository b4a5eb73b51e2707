-- ===== src/MppStorage/Backing.antt =====
-- The storage of src/agents/mpp-session-v2.ts: when the file and the table agree, and what saving does.
use mathlib.Core.Path.{subst}
use x402_agent_suite.Base.{
  ◌-◌, ◌≡◌, refl, sym, ap, ◌∙◌, inl, inr, List, [], ◌∷◌, map, Option, none, some, Text, text_eq,
  text_eq_iff, is_empty, Dict, lookup, lookup-insert, IsUnique, All, All-imp, All-map, All-take,
  All-drop, All-keep, All-insert, All-entries, length, leb, Bool-cases, Option-cases, if◌then◌else◌,
}
use x402_agent_suite.MppStorage.{
  MppSession, MppRow, Storage, upserted, save_mpp_session_to_db, insert_newer, newest_first,
  load_mpp_sessions_from_db, get_mpp_session_from_db, set_all, stored_for, load_sessions, save_all,
  last_200, save_sessions,
}

-- The table holds exactly this session under its id.
abbrev pub IsBacked : Dict MppRow → MppSession → Type 0
IsBacked table s = get_mpp_session_from_db s.session_id table ≡ some s

abbrev pub file_rows : Option (List MppSession) → List MppSession
file_rows none = []
file_rows (some rows) = rows

-- Every row stands under its session's id, and the file says what the table says.
pub record IsAgreed (st : Storage) : Type 0 where
  pub unique : IsUnique st.table
  pub keyed : (id : Text) (r : MppRow) → lookup id st.table ≡ some r → r.payload.session_id ≡ id
  pub backed : All (IsBacked st.table) (file_rows st.file)

get-lookup :
    (id : Text) (r : MppRow) (table : Dict MppRow)
    → lookup id table ≡ some r
    → get_mpp_session_from_db id table ≡ some r.payload
unfolding get_mpp_session_from_db
get-lookup id r table h = rw (get_mpp_session_from_db, h) refl

-- What a saved session leaves to be read.
pub get-save :
    (id : Text) (s : MppSession) (table : Dict MppRow)
    → get_mpp_session_from_db id (save_mpp_session_to_db s table)
      ≡ (if text_eq s.session_id id then some s else get_mpp_session_from_db id table)
unfolding save_mpp_session_to_db get_mpp_session_from_db
get-save id s table = elim (Bool-cases (text_eq s.session_id id)) [
  | inl same ↦
      rw
        (
          get_mpp_session_from_db,
          lookup-insert s.session_id id (upserted (lookup s.session_id table) s) table,
        )
        (rw same (payload-upserted (lookup s.session_id table) s))
  | inr other ↦
      rw
        (
          get_mpp_session_from_db,
          lookup-insert s.session_id id (upserted (lookup s.session_id table) s) table,
        )
        (rw other refl)
]
  where
    payload-upserted : (o : Option MppRow) (s : MppSession) → some (upserted o s).payload ≡ some s
    payload-upserted none s = refl
    payload-upserted (some r) s = refl

-- Saving sessions that the table holds already changes none.
pub save_all-backed :
    (rows : List MppSession) (table t : Dict MppRow)
    → All (IsBacked table) rows
    → ((id : Text) → get_mpp_session_from_db id t ≡ get_mpp_session_from_db id table)
    → (id : Text) → get_mpp_session_from_db id (save_all rows t) ≡ get_mpp_session_from_db id table
unfolding save_all
save_all-backed [] table t h same id = same id
save_all-backed (s ∷ rows) table t h same id =
    save_all-backed rows table (save_mpp_session_to_db s t) h.1
      (λ id. get-save id s t ∙ elim (Bool-cases (text_eq s.session_id id)) [
        | inl here ↦ rw here (
            sym (
              ap (λ i. get_mpp_session_from_db i table) (sym ((text_eq_iff s.session_id id).0 here))
              ∙ h.0))
        | inr other ↦ rw other (same id)
      ])
      id

newest_first-All :
    (P : MppRow → Type 0) (rows : List MppRow) → All P rows → All P (newest_first rows)
unfolding newest_first insert_newer
newest_first-All P [] h = tt
newest_first-All P (r ∷ rows) h = inserted r (newest_first rows) h.0 (newest_first-All P rows h.1)
  where
    inserted : (r : MppRow) (rows : List MppRow) → P r → All P rows → All P (insert_newer r rows)
    inserted r [] h k = (h, tt)
    inserted r (q ∷ rows) h k = elim (Bool-cases (leb q.created_at r.created_at)) [
      | inl newer ↦ rw newer (h, k)
      | inr older ↦ rw older (k.0, inserted r rows h k.1)
    ]

-- Sessions read from the table are backed by it.
load-IsBacked :
    (agent_id : Text) (st : Storage)
    → IsAgreed st
    → All (IsBacked st.table) (load_mpp_sessions_from_db agent_id st.table)
unfolding load_mpp_sessions_from_db
load-IsBacked agent_id st a = elim (Bool-cases (is_empty agent_id)) [
  | inl empty ↦ rw empty tt
  | inr named ↦
      let P : MppRow → Type 0 = λ r. IsBacked st.table r.payload in
      let entries : All P (map (λ e. e.1) st.table) =
        All-map P (λ e. e.1) st.table
          (All-imp
            (λ e h.
              ap (λ i. get_mpp_session_from_db i st.table) (a.keyed e.0 e.1 h)
              ∙ get-lookup e.0 e.1 st.table h)
            st.table (All-entries st.table a.unique)) in
      rw named (
        All-map (IsBacked st.table) (λ r. r.payload) _
          (All-take P 50 _
            (newest_first-All P _ (All-keep P (λ r. text_eq r.agent_id agent_id) _ entries))))
]

pub set_all-All :
    (P : MppSession → Type 0) (xs : List MppSession) (m : Dict MppSession)
    → All P xs
    → All (λ e. P e.1) m
    → All (λ e. P e.1) (set_all xs m)
unfolding set_all
set_all-All P [] m h k = k
set_all-All P (s ∷ xs) m h k = set_all-All P xs _ h.1 (All-insert P s.session_id s m h.0 k)

stored-IsBacked :
    (agent_id : Option Text) (st : Storage)
    → IsAgreed st
    → All (IsBacked st.table) (stored_for agent_id st.table)
stored-IsBacked none st a = tt
stored-IsBacked (some agent_id) st a = load-IsBacked agent_id st a

-- So are all rows that a call loads.
pub load_sessions-IsBacked :
    (agent_id : Option Text) (st : Storage)
    → IsAgreed st
    → All (λ e. IsBacked st.table e.1) (load_sessions agent_id st)
unfolding load_sessions
load_sessions-IsBacked agent_id st a = elim (Option-cases st.file) [
  | inl gone ↦ rw gone (set_all-All (IsBacked st.table) _ [] (stored-IsBacked agent_id st a) tt)
  | inr (rows, there) ↦ rw there (
      set_all-All (IsBacked st.table) _ _ (stored-IsBacked agent_id st a) (
        set_all-All (IsBacked st.table) rows []
          (subst (λ f. All (IsBacked st.table) (file_rows f)) there a.backed) tt))
]

-- Saving the rows that were loaded changes no session of the table.
pub save_sessions-loaded :
    (agent_id : Option Text) (st : Storage)
    → IsAgreed st
    → (id : Text)
    → get_mpp_session_from_db id (save_sessions (load_sessions agent_id st) st).table
      ≡ get_mpp_session_from_db id st.table
unfolding save_sessions
save_sessions-loaded agent_id st a id =
    let rows = map (λ e. e.1) (load_sessions agent_id st) in
    save_all-backed (last_200 rows) st.table st.table
      (All-drop (IsBacked st.table) (length rows - 200) rows (
        All-map (IsBacked st.table) (λ e. e.1) (load_sessions agent_id st)
          (load_sessions-IsBacked agent_id st a)))
      (λ id. refl) id
