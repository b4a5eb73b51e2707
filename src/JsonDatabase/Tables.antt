-- ===== src/JsonDatabase/Tables.antt =====
-- src/lib/db.ts: where JsonDatabase does what the tables do.
use x402_agent_suite.Base.{
  ℕ, ◌+◌, ◌-◌, ◌≡◌, refl, sym, ap, ◌∙◌, inl, inr, Bool, true, false, not, List, [], ◌∷◌, Option,
  none, some, Text, text_eq, Dict, lookup, insert, keep_entries, leb, ltb, Bool-cases, Option-cases,
  if◌then◌else◌, arith,
}
use x402_agent_suite.NonceStore.{
  NonceRow, Nonces, seconds, seven_days, sqlite_clean_every, is_used, is_kept, insert_nonce,
  sqlite_claim, maybe_clean_sqlite, store_key, is_untracked, sqlite_only, claim_nonce_key,
}
use x402_agent_suite.NonceStore.Once.{Claim, sqlite_claim-used, sqlite_claim-new}
use x402_agent_suite.JsonDatabase.{
  str, num, to_string, JsonData, NonceEntry, is_before, nonce_added, nonce_entry, perform,
  run_statement, Row, nothing, found_nonce, found, fetch, get_statement, nonce_check, nonce_insert,
  nonce_delete,
}
use x402_agent_suite.JsonDatabase.Queries.{
  check_nonce, insert_nonce_sql, clean_old, kind-check_nonce, run_statement-kind,
  get_statement-kind, kind-insert_nonce_sql, kind-clean_old,
}

-- `sqliteClaim` and `maybeCleanSqlite` of src/lib/nonce-store.ts over the JSON data.
abbrev pub json_used : Row → Bool
json_used nothing = false
json_used _ = true

abbrev pub json_claim : ℕ → Text → Text → JsonData → JsonData × Bool
json_claim now key network d =
    if json_used (get_statement check_nonce (str key ∷ []) d)
    then (d, false)
    else ((run_statement (seconds now) insert_nonce_sql (str key ∷ str network ∷ []) d).0, true)

abbrev pub json_clean : ℕ → JsonData → JsonData
json_clean now d = (run_statement (seconds now) clean_old (num (seconds now - seven_days) ∷ []) d).0

-- The rows of used_nonces that the JSON data stands for.
abbrev pub nonces : Dict NonceEntry → Dict NonceRow
nonces [] = []
nonces ((k, e) ∷ m) = (k, record { network = e.network; used_at = e.used_at }) ∷ nonces m

abbrev row_of : NonceEntry → NonceRow
row_of e = record { network = e.network; used_at = e.used_at }

abbrev mapped : Option NonceEntry → Option NonceRow
mapped none = none
mapped (some e) = some (row_of e)

lookup-nonces : (k : Text) (m : Dict NonceEntry) → lookup k (nonces m) ≡ mapped (lookup k m)
unfolding lookup
lookup-nonces k [] = refl
lookup-nonces k ((j, e) ∷ m) = elim (Bool-cases (text_eq j k)) [
  | inl same ↦ rw same refl
  | inr other ↦ rw other (lookup-nonces k m)
]

nonces-insert :
    (k : Text) (e : NonceEntry) (m : Dict NonceEntry)
    → nonces (insert k e m) ≡ insert k (row_of e) (nonces m)
unfolding insert
nonces-insert k e [] = refl
nonces-insert k e ((j, f) ∷ m) = elim (Bool-cases (text_eq j k)) [
  | inl same ↦ rw same refl
  | inr other ↦ rw other (ap (λ r. (j, row_of f) ∷ r) (nonces-insert k e m))
]

kept_alike :
    (now used : ℕ)
    → not (ltb used (seconds now - seven_days)) ≡ leb (seconds now) (used + seven_days)
kept_alike now used = ground arith

nonces-keep :
    (now : ℕ) (m : Dict NonceEntry)
    → nonces (keep_entries (λ e. not (is_before (some (seconds now - seven_days)) e)) m)
      ≡ keep_entries (is_kept now) (nonces m)
unfolding keep_entries
nonces-keep now [] = refl
nonces-keep now ((k, e) ∷ m) = elim (Bool-cases (leb (seconds now) (e.used_at + seven_days))) [
  | inl good ↦
      let good' = kept_alike now e.used_at ∙ good in
      rw (good, good') (ap (λ r. (k, row_of e) ∷ r) (nonces-keep now m))
  | inr bad ↦ let bad' = kept_alike now e.used_at ∙ bad in rw (bad, bad') (nonces-keep now m)
]

json_clean-nonces :
    (now : ℕ) (d : JsonData)
    → nonces (json_clean now d).used_nonces ≡ keep_entries (is_kept now) (nonces d.used_nonces)
json_clean-nonces now d =
    let args = num (seconds now - seven_days) ∷ [] in
    ap (λ x. nonces x.used_nonces)
      (run_statement-kind (seconds now) clean_old args d nonce_delete kind-clean_old)
    ∙ cleaned
  where
    cleaned :
        nonces
          (perform (seconds now) (num (seconds now - seven_days) ∷ []) nonce_delete d).used_nonces
        ≡ keep_entries (is_kept now) (nonces d.used_nonces)
    cleaned = unfold perform in nonces-keep now d.used_nonces

-- The two stores hold the same keys.
abbrev Alike : JsonData → Nonces → Type 0
Alike d s = nonces d.used_nonces ≡ s.used_nonces

json_claim-Alike :
    (now : ℕ) (k network : Text) (d : JsonData) (s : Nonces)
    → Alike d s
    → ((json_claim now k network d).1 ≡ (sqlite_claim now k network s).1)
      × Alike (json_claim now k network d).0 (sqlite_claim now k network s).0
json_claim-Alike now k network d s h = elim (Option-cases (lookup k d.used_nonces)) [
  | inr (e, taken) ↦
      let read : get_statement check_nonce (str k ∷ []) d ≡ found_nonce =
        check k d ∙ rw (taken, found) refl in
      let row = ap (lookup k) (sym h) ∙ (lookup-nonces k d.used_nonces ∙ ap mapped taken) in
      rw (read, sqlite_claim-used now k network (row_of e) s row) (refl, h)
  | inl free ↦
      let read : get_statement check_nonce (str k ∷ []) d ≡ nothing =
        check k d ∙ rw (free, found) refl in
      let row = ap (lookup k) (sym h) ∙ (lookup-nonces k d.used_nonces ∙ ap mapped free) in
      rw (read, sqlite_claim-new now k network s row)
        (
          refl,
          ap (λ x. nonces x.used_nonces)
                (run_statement-kind (seconds now) insert_nonce_sql (str k ∷ str network ∷ []) d
                  nonce_insert kind-insert_nonce_sql)
              ∙ (inserted free
                  ∙ (nonces-insert k (nonce_entry (seconds now) (str k ∷ str network ∷ []))
                        d.used_nonces
                      ∙ same h)),
        )
]
  where
    check :
        (k : Text) (d : JsonData)
        → get_statement check_nonce (str k ∷ []) d
          ≡ found (λ e. found_nonce) (lookup k d.used_nonces)
    check k d =
        get_statement-kind check_nonce (str k ∷ []) d nonce_check kind-check_nonce
        ∙ (unfold fetch in refl)

    inserted :
        lookup k d.used_nonces ≡ none
        → nonces (perform (seconds now) (str k ∷ str network ∷ []) nonce_insert d).used_nonces
          ≡ nonces (insert k (nonce_entry (seconds now) (str k ∷ str network ∷ [])) d.used_nonces)
    inserted free = unfold perform in rw (free, nonce_added) refl

    same :
        Alike d s
        → insert k
            (row_of (nonce_entry (seconds now) (str k ∷ str network ∷ [])))
            (nonces d.used_nonces)
          ≡ (insert_nonce now k network s).used_nonces
    same h =
        unfold to_string in ap (insert k (record { network = network; used_at = seconds now })) h

-- The JSON data with the counter of `maybeCleanSqlite`, which is not stored.
pub record JsonNonces : Type 0 where
  pub rows : JsonData
  pub clean_counter : ℕ

abbrev pub json_maybe_clean : ℕ → JsonNonces → JsonNonces
json_maybe_clean now j =
    if leb sqlite_clean_every (j.clean_counter + 1)
    then record { rows = json_clean now j.rows; clean_counter = 0 }
    else record j { clean_counter = j.clean_counter + 1 }

-- `claimNonceKey` without a Redis, over the JSON data.
abbrev pub json_claim_key : Claim → JsonNonces → JsonNonces × Bool
json_claim_key c j =
    if is_untracked c.raw_key
    then (j, true)
    else let j' = json_maybe_clean c.now j in
      let (rows, ok) = json_claim c.now (store_key c.raw_key) c.network j'.rows in
      (record j' { rows = rows }, ok)

abbrev Same : JsonNonces → Nonces → Type 0
Same j s = Alike j.rows s × (j.clean_counter ≡ s.clean_counter)

json_maybe_clean-Same :
    (now : ℕ) (j : JsonNonces) (s : Nonces)
    → Same j s
    → Same (json_maybe_clean now j) (maybe_clean_sqlite now s)
unfolding maybe_clean_sqlite
json_maybe_clean-Same now j s h = elim (Bool-cases (leb sqlite_clean_every (s.clean_counter + 1))) [
  | inl due ↦
      rw (h.1, due) (json_clean-nonces now j.rows ∙ ap (keep_entries (is_kept now)) h.0, refl)
  | inr later ↦ rw (h.1, later) (h.0, refl)
]

clean_counter-sqlite_claim :
    (now : ℕ) (k network : Text) (s : Nonces)
    → (sqlite_claim now k network s).0.clean_counter ≡ s.clean_counter
unfolding sqlite_claim
clean_counter-sqlite_claim now k network s = elim (Bool-cases (is_used k s.used_nonces)) [
  | inl taken ↦ rw taken refl
  | inr free ↦ rw free refl
]

module _ {R : Type 0} (set_nx : Text → ℕ → R → R × Bool) (ttl_sec : ℕ) (r : R) where
  abbrev pub sql_claim_key : Claim → Nonces → Nonces × Bool
  sql_claim_key c s =
      let (r', s', ok) = claim_nonce_key set_nx sqlite_only c.now c.raw_key c.network ttl_sec r s in
      (s', ok)

  json_claim_key-Same :
      (c : Claim) (j : JsonNonces) (s : Nonces)
      → Same j s
      → ((json_claim_key c j).1 ≡ (sql_claim_key c s).1)
        × Same (json_claim_key c j).0 (sql_claim_key c s).0
  unfolding claim_nonce_key
  json_claim_key-Same c j s h = elim (Bool-cases (is_untracked c.raw_key)) [
    | inl untracked ↦ rw untracked (refl, h)
    | inr tracked ↦
        let clean = json_maybe_clean-Same c.now j s h in
        let (ok, alike) =
          json_claim-Alike c.now (store_key c.raw_key) c.network (json_maybe_clean c.now j).rows
            (maybe_clean_sqlite c.now s) clean.0 in
        rw tracked (
          ok,
          (
            alike,
            clean.1
                ∙ sym (
                    clean_counter-sqlite_claim c.now (store_key c.raw_key) c.network
                      (maybe_clean_sqlite c.now s)),
          ),
        )
  ]

  abbrev pub json_answers : List Claim → JsonNonces → List Bool
  json_answers [] j = []
  json_answers (c ∷ cs) j = let (j', ok) = json_claim_key c j in ok ∷ json_answers cs j'

  abbrev pub sql_answers : List Claim → Nonces → List Bool
  sql_answers [] s = []
  sql_answers (c ∷ cs) s = let (s', ok) = sql_claim_key c s in ok ∷ sql_answers cs s'

  -- The JSON stand-in refines the table used_nonces: if both hold the same rows, then any sequence of claims
  -- without a Redis, the periodic clean-ups included, is answered alike over the one and the other.
  pub json_answers-sql :
      (cs : List Claim) (j : JsonNonces) (s : Nonces)
      → nonces j.rows.used_nonces ≡ s.used_nonces
      → j.clean_counter ≡ s.clean_counter
      → json_answers cs j ≡ sql_answers cs s
  json_answers-sql [] j s h k = refl
  json_answers-sql (c ∷ cs) j s h k =
      let (ok, both) = json_claim_key-Same c j s (h, k) in
      cons ok (json_answers-sql cs (json_claim_key c j).0 (sql_claim_key c s).0 both.0 both.1)
    where
      cons : {a b : Bool} {xs ys : List Bool} → a ≡ b → xs ≡ ys → a ∷ xs ≡ b ∷ ys
      cons p q = cc
