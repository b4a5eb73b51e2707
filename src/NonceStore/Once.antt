-- ===== src/NonceStore/Once.antt =====
-- src/lib/nonce-store.ts: how often a key is claimed while its row is kept.
use x402_agent_suite.Base.{
  ℕ, ◌+◌, ◌≤◌, ◌≡◌, refl, sym, ap, ◌∙◌, inl, inr, Bool, true, false, not, ◌&&◌, List, [], ◌∷◌,
  Option, none, some, Text, text_eq, text_eq_iff, lookup, lookup-insert, IsUnique, IsUnique-insert,
  IsUnique-keep_entries, passing, lookup-keep_entries, All, Bool-cases, Option-cases, leb,
  if◌then◌else◌, arith,
}
use x402_agent_suite.NonceStore.{
  NonceRow, Nonces, sqlite_only, seconds, seven_days, sqlite_clean_every, store_key, is_untracked,
  is_used, is_kept, insert_nonce, sqlite_claim, maybe_clean_sqlite, claim_nonce_key,
}

pub record Claim : Type 0 where
  pub now : ℕ
  pub raw_key : Text
  pub network : Text

pub sqlite_claim-used :
    (now : ℕ) (k network : Text) (row : NonceRow) (s : Nonces)
    → lookup k s.used_nonces ≡ some row
    → sqlite_claim now k network s ≡ (s, false)
unfolding sqlite_claim
sqlite_claim-used now k network row s taken = rw (is_used, taken) refl

pub sqlite_claim-new :
    (now : ℕ) (k network : Text) (s : Nonces)
    → lookup k s.used_nonces ≡ none
    → sqlite_claim now k network s ≡ (insert_nonce now k network s, true)
unfolding sqlite_claim
sqlite_claim-new now k network s free = rw (is_used, free) refl

abbrev pub counts : Text → Claim → Bool
counts key c = not (is_untracked c.raw_key) && text_eq (store_key c.raw_key) key

-- What is left to grant while every row of the key is kept.
abbrev pub left : Option NonceRow → ℕ
left none = 1
left (some row) = 0

pub left-le : (o : Option NonceRow) → left o ≤ 1
left-le o = ground arith

-- A row, if there is one, is kept at the time.
abbrev pub IsFresh : ℕ → Option NonceRow → Type 0
IsFresh end none = Unit
IsFresh end (some row) = seconds end ≤ row.used_at + seven_days

-- The claim `c` lies in the stretch of time that ends at `end`.
abbrev pub InStretch : ℕ → Claim → Type 0
InStretch end c = (seconds c.now ≤ seconds end) × (seconds end ≤ seconds c.now + seven_days)

module _ {R : Type 0} (set_nx : Text → ℕ → R → R × Bool) (ttl_sec : ℕ) (r : R) where
  abbrev pub claim : Claim → Nonces → R × Nonces × Bool
  claim c s = claim_nonce_key set_nx sqlite_only c.now c.raw_key c.network ttl_sec r s

  -- How many claims of the stored key `key` succeed.
  unfoldable pub granted : Text → List Claim → Nonces → ℕ
  unfolding claim_nonce_key
  granted key [] s = 0
  granted key (c ∷ cs) s =
      let (r', s', ok) = claim c s in (if counts key c && ok then 1 else 0) + granted key cs s'

  clean-lookup :
      (end now : ℕ) (key : Text) (s : Nonces)
      → IsUnique s.used_nonces
      → IsFresh end (lookup key s.used_nonces)
      → seconds now ≤ seconds end
      → lookup key (maybe_clean_sqlite now s).used_nonces ≡ lookup key s.used_nonces
  unfolding maybe_clean_sqlite
  clean-lookup end now key s u fresh early =
      elim (Bool-cases (leb sqlite_clean_every (s.clean_counter + 1))) [
        | inl due ↦
            rw (due, lookup-keep_entries (is_kept now) key s.used_nonces u)
              (kept-fresh end now (lookup key s.used_nonces) fresh early)
        | inr not_due ↦ rw not_due refl
      ]
    where
      kept-fresh :
          (end now : ℕ) (o : Option NonceRow)
          → IsFresh end o
          → seconds now ≤ seconds end
          → passing (is_kept now) o ≡ o
      kept-fresh end now none fresh early = refl
      kept-fresh end now (some row) fresh early = ground arith

  pub clean-IsUnique :
      (now : ℕ) (s : Nonces)
      → IsUnique s.used_nonces
      → IsUnique (maybe_clean_sqlite now s).used_nonces
  unfolding maybe_clean_sqlite
  clean-IsUnique now s u = elim (Bool-cases (leb sqlite_clean_every (s.clean_counter + 1))) [
    | inl due ↦ rw due (IsUnique-keep_entries (is_kept now) s.used_nonces u)
    | inr not_due ↦ rw not_due u
  ]

  -- One claim of the stored key `k` in SQLite, seen from the row of `key`.
  sqlite_claim-left :
      (end now : ℕ) (key k network : Text) (s : Nonces)
      → IsUnique s.used_nonces
      → IsFresh end (lookup key s.used_nonces)
      → seconds end ≤ seconds now + seven_days
      → let (s', ok) = sqlite_claim now k network s in
        ((if text_eq k key && ok then 1 else 0) + left (lookup key s'.used_nonces)
          ≤ left (lookup key s.used_nonces))
        × IsFresh end (lookup key s'.used_nonces)
        × IsUnique s'.used_nonces
  sqlite_claim-left end now key k network s u fresh late =
      elim (Option-cases (lookup k s.used_nonces)) [
        | inr (row, taken) ↦
            rw (sqlite_claim-used now k network row s taken) (elim (Bool-cases (text_eq k key)) [
              | inl same ↦ rw same (omega arith, fresh, u)
              | inr other ↦ rw other (omega arith, fresh, u)
            ])
        | inl free ↦ rw (sqlite_claim-new now k network s free) (elim (Bool-cases (text_eq k key)) [
          | inl same ↦
              let here =
                ap (λ k. lookup k s.used_nonces) (sym ((text_eq_iff k key).0 same)) ∙ free in
              rw
                (lookup-insert k key (record { network = network; used_at = seconds now })
                  s.used_nonces)
                (rw same (rw here (omega arith), late, IsUnique-insert k _ s.used_nonces u))
          | inr other ↦
              rw
                (lookup-insert k key (record { network = network; used_at = seconds now })
                  s.used_nonces)
                (rw other (omega arith, fresh, IsUnique-insert k _ s.used_nonces u))
        ])
      ]

  pub claim-left :
      (end : ℕ) (key : Text) (c : Claim) (s : Nonces)
      → IsUnique s.used_nonces
      → IsFresh end (lookup key s.used_nonces)
      → InStretch end c
      → let (r', s', ok) = claim c s in
        ((if counts key c && ok then 1 else 0) + left (lookup key s'.used_nonces)
          ≤ left (lookup key s.used_nonces))
        × IsFresh end (lookup key s'.used_nonces)
        × IsUnique s'.used_nonces
  unfolding claim_nonce_key
  claim-left end key c s u fresh (early, late) = elim (Bool-cases (is_untracked c.raw_key)) [
    | inl untracked ↦ rw untracked (omega arith, fresh, u)
    | inr tracked ↦
        let cleaned = clean-lookup end c.now key s u fresh early in
        let h =
          sqlite_claim-left end c.now key (store_key c.raw_key) c.network
            (maybe_clean_sqlite c.now s) (clean-IsUnique c.now s u) (rw cleaned fresh) late in
        rw tracked (rw cleaned at h)
  ]

  granted-le-left :
      (end : ℕ) (key : Text) (cs : List Claim) (s : Nonces)
      → IsUnique s.used_nonces
      → IsFresh end (lookup key s.used_nonces)
      → All (InStretch end) cs
      → granted key cs s ≤ left (lookup key s.used_nonces)
  unfolding granted
  granted-le-left end key [] s u fresh w = omega arith
  granted-le-left end key (c ∷ cs) s u fresh w =
      let (le, fresh', u') = claim-left end key c s u fresh w.0 in
      omega (arith, le, granted-le-left end key cs (claim c s).1 u' fresh' w.1)

  -- Where neither a Redis nor its REST service is configured, so that SQLite decides: of all claims of one
  -- stored key that come within seven days, in any order with claims of other
  -- keys and with the clean-ups between them, at most one succeeds; none does, if the key's row is
  -- there at the start and is at most seven days old at the end. (Keys below eight characters are not
  -- stored and always succeed.)
  pub granted_once :
      (end : ℕ) (key : Text) (cs : List Claim) (s : Nonces)
      → IsUnique s.used_nonces
      → IsFresh end (lookup key s.used_nonces)
      → All (InStretch end) cs
      → (granted key cs s ≤ 1)
        × ((row : NonceRow) → lookup key s.used_nonces ≡ some row → granted key cs s ≡ 0)
  granted_once end key cs s u fresh w =
      let le = granted-le-left end key cs s u fresh w in
      (
        omega (arith, le, left-le (lookup key s.used_nonces)),
        λ row there. let le' = rw there at le in omega (arith, le'),
      )
