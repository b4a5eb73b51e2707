-- ===== src/Mandate/Scope.antt =====
-- src/lib/mandate.ts: which payments are within a mandate's scope.
use x402_agent_suite.Base.{
  ℕ, ◌≤◌, ◌≡◌, refl, ap, ◌⊎◌, inl, inr, ◌↔◌, Bool, true, ◌||◌, List, [], ◌∷◌, ◌++◌, nil-append,
  Option, none, some, Text, text_eq, text_eq_iff, is_empty, lower, includes, includes_iff, contains,
  any, ltb, Bool-cases, arith,
}
use x402_agent_suite.Mandate.{
  MandateScope, MandateCheck, Violation, merchant_not_allowed, category_not_allowed,
  rail_not_allowed, over_amount, unlisted, names_merchant, violations_of,
}

-- One of the texts has the property.
abbrev pub AnyOf : (Text → Type 0) → List Text → Type 0
AnyOf P [] = ⊥
AnyOf P (x ∷ xs) = P x ⊎ AnyOf P xs

any_iff :
    (p : Text → Bool) (P : Text → Type 0)
    → ((x : Text) → (p x ≡ true) ↔ P x)
    → (xs : List Text) → (any p xs ≡ true) ↔ AnyOf P xs
any_iff p P f [] = ((λ h. absurd (ground (arith, h))), λ e. absurd e)
any_iff p P f (x ∷ xs) = elim (Bool-cases (p x)) [
  | inl good ↦ rw good ((λ h. inl ((f x).0 good)), λ e. refl)
  | inr bad ↦ rw bad (
    λ h. inr ((any_iff p P f xs).0 h),
    λ e. elim e [
      | inl now ↦ absurd (let g = (f x).1 now in ground (arith, g, bad))
      | inr later ↦ (any_iff p P f xs).1 later
    ],
  )
]

contains-any : (ys : List Text) (x : Text) → contains ys x ≡ any (λ y. text_eq y x) ys
unfolding contains
contains-any [] x = refl
contains-any (y ∷ ys) x = ap (λ b. text_eq y x || b) (contains-any ys x)

-- A value that is given, and a list that restricts it.
abbrev pub Permitted : (Text → Type 0) → List Text → Option Text → Type 0
Permitted P allowed none = Unit
Permitted P allowed (some t) = (is_empty t ≡ true) ⊎ ((allowed ≡ []) ⊎ P t)

unlisted_iff :
    (v : Violation) (test : Text → Bool) (P : Text → Type 0) (allowed : List Text) (o : Option Text)
    → ((t : Text) → (test t ≡ true) ↔ P t)
    → (unlisted v test allowed o ≡ []) ↔ Permitted P allowed o
unlisted_iff v test P allowed none f = ((λ e. tt), λ h. refl)
unlisted_iff v test P [] (some t) f = ((λ e. inr (inl refl)), λ h. refl)
unlisted_iff v test P (a ∷ allowed) (some t) f = elim (Bool-cases (is_empty t)) [
  | inl empty ↦ rw empty ((λ e. inl refl), λ h. refl)
  | inr filled ↦ elim (Bool-cases (test t)) [
    | inl good ↦ rw (filled, good) ((λ e. inr (inr ((f t).0 good))), λ h. refl)
    | inr bad ↦
        rw (filled, bad)
          (
            λ e. absurd (ground (arith, e)),
            λ h. elim h [
              | inl wrong ↦ absurd (ground (arith, wrong))
              | inr rest ↦ elim rest [
                | inl wrong ↦ absurd (ground (arith, wrong))
                | inr held ↦ absurd (let g = (f t).1 held in ground (arith, g, bad))
              ]
            ],
          )
  ]
]

amount_iff :
    (scope : MandateScope) (amount : ℕ)
    → (over_amount scope amount ≡ []) ↔ (amount ≤ scope.max_per_tx_usdc)
amount_iff scope amount = elim (Bool-cases (ltb scope.max_per_tx_usdc amount)) [
  | inl over ↦ rw over ((λ e. absurd (ground (arith, e))), λ h. absurd (ground (arith, h, over)))
  | inr within ↦ rw within ((λ e. ground (arith, within)), λ h. refl)
]

-- The merchant, in small letters, has the pattern, in small letters, as a part somewhere.
abbrev pub HasPart : Text → Text → Type 0
HasPart merchant m = (u : Text) × (v : Text) × (lower merchant ≡ u ++ (lower m ++ v))

-- A proposed payment has no violation exactly when its amount is at most the limit for a payment, and
-- each of merchant, category and rail that is given, where the scope restricts it, is allowed: the
-- category and the rail stand in their lists, the merchant contains the text of an allowed merchant
-- anywhere. The daily cap of the scope plays no part.
pub within_scope_iff :
    (scope : MandateScope) (p : MandateCheck)
    → (violations_of scope (some p) ≡ []) ↔ (
        (p.amount_usdc ≤ scope.max_per_tx_usdc)
        × Permitted
            (λ t. AnyOf (HasPart t) scope.allowed_merchants)
            scope.allowed_merchants
            p.merchant
        × Permitted
            (λ t. AnyOf (λ c. c ≡ t) scope.allowed_categories)
            scope.allowed_categories
            p.category
        × Permitted (λ t. AnyOf (λ r. r ≡ t) scope.allowed_rails) scope.allowed_rails p.rail)
unfolding violations_of
within_scope_iff scope p =
    let merchant =
      unlisted_iff merchant_not_allowed (names_merchant scope.allowed_merchants)
        (λ t. AnyOf (HasPart t) scope.allowed_merchants) scope.allowed_merchants p.merchant
        (λ t.
          any_iff (λ m. includes (lower t) (lower m)) (HasPart t)
            (λ m. includes_iff (lower t) (lower m)) scope.allowed_merchants) in
    let category = listed_iff category_not_allowed scope.allowed_categories p.category in
    let rail = listed_iff rail_not_allowed scope.allowed_rails p.rail in
    let amount = amount_iff scope p.amount_usdc in
    (
      λ e.
          let (a, rest) = (nil-append _ _).0 e in
          let (m, rest') = (nil-append _ _).0 rest in
          let (c, r) = (nil-append _ _).0 rest' in
          (amount.0 a, merchant.0 m, category.0 c, rail.0 r),
      λ h. (nil-append _ _).1 (
        amount.1 h.0,
        (nil-append _ _).1 (merchant.1 h.1, (nil-append _ _).1 (category.1 h.2, rail.1 h.3)),
      ),
    )
  where
    listed_iff :
        (v : Violation) (allowed : List Text) (o : Option Text)
        → (unlisted v (contains allowed) allowed o ≡ [])
          ↔ Permitted (λ t. AnyOf (λ c. c ≡ t) allowed) allowed o
    listed_iff v allowed o =
        unlisted_iff v (contains allowed) (λ t. AnyOf (λ c. c ≡ t) allowed) allowed o
          (λ t.
            rw (contains-any allowed t)
              (any_iff (λ y. text_eq y t) (λ c. c ≡ t) (λ y. text_eq_iff y t) allowed))
