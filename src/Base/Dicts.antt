-- ===== src/Base/Dicts.antt =====
-- A JavaScript object or `Map` keyed by texts: its entries in the order of insertion.
-- Only own properties count as entries.
use mathlib.Core.Path.{◌≡◌, refl, sym, ap, ◌∙◌}
use mathlib.Core.Logic.{◌⊎◌, inl, inr}
use mathlib.Core.Bool.{Bool, false}
use mathlib.Core.List.{List, [], ◌∷◌, ◌++◌}
use mathlib.Core.Option.{Option, none, some}
use native.Mathlib.Omega.{arith}
use mathlib.Core.Path.{subst}
use x402_agent_suite.Base.Tests.{Bool-cases, some_inj, if◌then◌else◌}
use x402_agent_suite.Base.Lists.{All, All-imp}
use x402_agent_suite.Base.Texts.{Text, text_eq, text_eq_iff, text_eq_refl}

abbrev pub Dict {ℓ} : Type ℓ → Type ℓ
Dict V = List (Text × V)

module _ {ℓ} {V : Type ℓ} where
  unfoldable pub lookup : Text → Dict V → Option V
  lookup k [] = none
  lookup k ((j, v) ∷ m) = if text_eq j k then some v else lookup k m

  -- `m[k] = v`: in place, or at the end.
  unfoldable pub insert : Text → V → Dict V → Dict V
  insert k v [] = (k, v) ∷ []
  insert k v ((j, w) ∷ m) = if text_eq j k then (j, v) ∷ m else (j, w) ∷ insert k v m

  unfoldable pub remove : Text → Dict V → Dict V
  remove k [] = []
  remove k ((j, w) ∷ m) = if text_eq j k then remove k m else (j, w) ∷ remove k m

  pub lookup-insert :
      (k j : Text) (v : V) (m : Dict V)
      → lookup j (insert k v m) ≡ (if text_eq k j then some v else lookup j m)
  unfolding lookup insert
  lookup-insert k j v [] = refl
  lookup-insert k j v ((i, w) ∷ m) =
      ground (arith, text_eq_iff k j, text_eq_iff i k, text_eq_iff i j, lookup-insert k j v m)

  pub lookup-remove :
      (k j : Text) (m : Dict V) → lookup j (remove k m) ≡ (if text_eq k j then none else lookup j m)
  unfolding lookup remove
  lookup-remove k j [] = ground arith
  lookup-remove k j ((i, w) ∷ m) =
      ground (arith, text_eq_iff k j, text_eq_iff i k, text_eq_iff i j, lookup-remove k j m)

  pub lookup-insert_self : (k : Text) (v : V) (m : Dict V) → lookup k (insert k v m) ≡ some v
  lookup-insert_self k v m = simp (lookup-insert, text_eq_refl)

  pub lookup-remove_self : (k : Text) (m : Dict V) → lookup k (remove k m) ≡ none
  lookup-remove_self k m = simp (lookup-remove, text_eq_refl)

  pub lookup-remove-some :
      (k j : Text) (v : V) (m : Dict V)
      → lookup j (remove k m) ≡ some v
      → (text_eq k j ≡ false) × (lookup j m ≡ some v)
  lookup-remove-some k j v m h = ground (arith, lookup-remove k j m)

  -- What a lookup after a write has found.
  pub lookup-insert-some :
      (k j : Text) (v w : V) (m : Dict V)
      → lookup j (insert k v m) ≡ some w
      → ((k ≡ j) × (v ≡ w)) ⊎ ((text_eq k j ≡ false) × (lookup j m ≡ some w))
  lookup-insert-some k j v w m h = ground (arith, lookup-insert k j v m, text_eq_iff k j)

  -- The same of an entry put in front.
  pub lookup_front :
      (k j : Text) (v w : V) (m : Dict V)
      → lookup j ((k, v) ∷ m) ≡ some w
      → ((k ≡ j) × (v ≡ w)) ⊎ (lookup j m ≡ some w)
  unfolding lookup
  lookup_front k j v w m h = ground (arith, text_eq_iff k j)

  pub lookup-insert-none :
      (k j : Text) (v : V) (m : Dict V)
      → lookup j (insert k v m) ≡ none
      → (text_eq k j ≡ false) × (lookup j m ≡ none)
  lookup-insert-none k j v m h = ground (arith, lookup-insert k j v m)

  -- A write under an unused key keeps the other entries; so does any write under another key.
  pub lookup-insert_fresh :
      (k j : Text) (v w : V) (m : Dict V)
      → lookup k m ≡ none
      → lookup j m ≡ some w
      → lookup j (insert k v m) ≡ some w
  lookup-insert_fresh k j v w m h f = ground (arith, lookup-insert k j v m, text_eq_iff k j)

module _ {ℓ} {V : Type ℓ} where
  -- The entries whose value passes: what a `DELETE ... WHERE` leaves of a table.
  unfoldable pub keep_entries : (V → Bool) → Dict V → Dict V
  keep_entries p [] = []
  keep_entries p ((k, v) ∷ m) = if p v then (k, v) ∷ keep_entries p m else keep_entries p m

  -- No key twice: `PRIMARY KEY`.
  abbrev pub IsUnique : Dict V → Type ℓ
  IsUnique [] = Unit
  IsUnique ((k, v) ∷ m) = (lookup k m ≡ none) × IsUnique m

  abbrev pub passing : (V → Bool) → Option V → Option V
  passing p none = none
  passing p (some v) = if p v then some v else none

  pub lookup-keep_entries :
      (p : V → Bool) (j : Text) (m : Dict V)
      → IsUnique m
      → lookup j (keep_entries p m) ≡ passing p (lookup j m)
  unfolding lookup keep_entries
  lookup-keep_entries p j [] u = refl
  lookup-keep_entries p j ((k, v) ∷ m) u = elim (Bool-cases (text_eq k j)) [
    | inl same ↦ elim (Bool-cases (p v)) [
      | inl good ↦ rw (same, good) (rw same)
      | inr bad ↦
          rw (same, bad)
            (lookup-keep_entries p j m u.1
              ∙ ap (passing p) (ap (λ i. lookup i m) (sym ((text_eq_iff k j).0 same)) ∙ u.0))
    ]
    | inr other ↦ elim (Bool-cases (p v)) [
      | inl good ↦ rw good (rw other (lookup-keep_entries p j m u.1))
      | inr bad ↦ rw (bad, other) (lookup-keep_entries p j m u.1)
    ]
  ]

  pub IsUnique-keep_entries : (p : V → Bool) (m : Dict V) → IsUnique m → IsUnique (keep_entries p m)
  unfolding keep_entries
  IsUnique-keep_entries p [] u = tt
  IsUnique-keep_entries p ((k, v) ∷ m) u = elim (Bool-cases (p v)) [
    | inl good ↦
        rw good (lookup-keep_entries p k m u.1 ∙ ap (passing p) u.0, IsUnique-keep_entries p m u.1)
    | inr bad ↦ rw bad (IsUnique-keep_entries p m u.1)
  ]

  pub IsUnique-insert : (k : Text) (v : V) (m : Dict V) → IsUnique m → IsUnique (insert k v m)
  unfolding insert lookup
  IsUnique-insert k v [] u = (refl, tt)
  IsUnique-insert k v ((j, w) ∷ m) u = elim (Bool-cases (text_eq j k)) [
    | inl same ↦ rw same u
    | inr other ↦ rw other (
      lookup-insert k j v m ∙ ground (arith, other, u.0, text_eq_iff k j, text_eq_iff j k),
      IsUnique-insert k v m u.1,
    )
  ]

  pub IsUnique-remove : (k : Text) (m : Dict V) → IsUnique m → IsUnique (remove k m)
  unfolding remove
  IsUnique-remove k [] u = tt
  IsUnique-remove k ((j, w) ∷ m) u = elim (Bool-cases (text_eq j k)) [
    | inl same ↦ rw same (IsUnique-remove k m u.1)
    | inr other ↦ rw other (
      lookup-remove k j m ∙ ground (arith, u.0, other, text_eq_iff k j, text_eq_iff j k),
      IsUnique-remove k m u.1,
    )
  ]

module _ {ℓ κ} {V : Type ℓ} (P : V → Type κ) where
  -- What holds of every value of an object.
  pub All-insert :
      (k : Text) (v : V) (m : Dict V) → P v → All (λ e. P e.1) m → All (λ e. P e.1) (insert k v m)
  unfolding insert
  All-insert k v [] h all = (h, tt)
  All-insert k v ((j, w) ∷ m) h all = elim (Bool-cases (text_eq j k)) [
    | inl same ↦ rw same (h, all.1)
    | inr other ↦ rw other (all.0, All-insert k v m h all.1)
  ]

  pub All-lookup : (k : Text) (v : V) (m : Dict V) → lookup k m ≡ some v → All (λ e. P e.1) m → P v
  unfolding lookup
  All-lookup k v [] h all = absurd (ground (arith, h))
  All-lookup k v ((j, w) ∷ m) h all = elim (Bool-cases (text_eq j k)) [
    | inl same ↦ subst P (some_inj (rw same at h)) all.0
    | inr other ↦ All-lookup k v m (rw other at h) all.1
  ]

module _ {ℓ} {V : Type ℓ} where
  -- In a table every entry is found under its key.
  pub All-entries : (m : Dict V) → IsUnique m → All (λ e. lookup e.0 m ≡ some e.1) m
  unfolding lookup
  All-entries [] u = tt
  All-entries ((k, v) ∷ m) u = (
    rw (text_eq_refl k) refl,
    All-imp (λ e h. ground (arith, h, u.0, text_eq_iff k e.0)) m (All-entries m u.1),
  )

module _ {ℓ κ} {V : Type ℓ} (P : Text × V → Type κ) where
  -- What holds of every entry.
  pub All-insert_entry : (k : Text) (v : V) (m : Dict V) → P (k, v) → All P m → All P (insert k v m)
  unfolding insert
  All-insert_entry k v [] h all = (h, tt)
  All-insert_entry k v ((j, w) ∷ m) h all = elim (Bool-cases (text_eq j k)) [
    | inl same ↦ rw same (subst (λ i. P (i, v)) (sym ((text_eq_iff j k).0 same)) h, all.1)
    | inr other ↦ rw other (all.0, All-insert_entry k v m h all.1)
  ]

  pub All-lookup_entry : (k : Text) (v : V) (m : Dict V) → lookup k m ≡ some v → All P m → P (k, v)
  unfolding lookup
  All-lookup_entry k v [] h all = absurd (ground (arith, h))
  All-lookup_entry k v ((j, w) ∷ m) h all = elim (Bool-cases (text_eq j k)) [
    | inl same ↦
        subst (λ i. P (i, v)) ((text_eq_iff j k).0 same)
          (subst (λ x. P (j, x)) (some_inj (rw same at h)) all.0)
    | inr other ↦ All-lookup_entry k v m (rw other at h) all.1
  ]

module _ {ℓ} {V : Type ℓ} where
  -- A new key at the end.
  pub IsUnique-append :
      (k : Text) (v : V) (m : Dict V)
      → lookup k m ≡ none
      → IsUnique m
      → IsUnique (m ++ ((k, v) ∷ []))
  unfolding lookup
  IsUnique-append k v [] free u = (refl, tt)
  IsUnique-append k v ((j, w) ∷ m) free u = elim (Bool-cases (text_eq j k)) [
    | inl same ↦ absurd (ground (arith, same, free))
    | inr other ↦ (
      lookup-append k j v m u.0 (ground (arith, other, text_eq_iff k j, text_eq_iff j k)),
      IsUnique-append k v m (rw other at free) u.1,
    )
  ]
    where
      lookup-append :
          (k j : Text) (v : V) (m : Dict V)
          → lookup j m ≡ none
          → text_eq k j ≡ false
          → lookup j (m ++ ((k, v) ∷ [])) ≡ none
      lookup-append k j v [] h other = rw other refl
      lookup-append k j v ((i, w) ∷ m) h other = elim (Bool-cases (text_eq i j)) [
        | inl same ↦ absurd (ground (arith, same, h))
        | inr differ ↦ rw differ (lookup-append k j v m (rw differ at h) other)
      ]
