-- ===== src/Webhooks/Keys.antt =====
-- src/lib/webhooks.ts: the primary key of the table, and rows that are not active.
use mathlib.Core.Path.{subst}
use x402_agent_suite.Base.{
  ◌≡◌, refl, sym, ap, ◌∙◌, inl, inr, Bool, true, false, ◌&&◌, ◌||◌, List, [], ◌∷◌, ◌++◌, Option,
  none, some, Text, text_eq_iff, any, any-append, Bool-cases, Option-cases, arith,
}
use x402_agent_suite.Webhooks.{
  WebhookSubscription, is_id, is_row, insert_sub, deactivate_sub, migrated_row, migrate_all,
  migrate_legacy_once,
}

-- No two rows share an id: `PRIMARY KEY`.
abbrev pub IsKeyed : List WebhookSubscription → Type 0
IsKeyed [] = Unit
IsKeyed (s ∷ rows) = (any (is_id s.id) rows ≡ false) × IsKeyed rows

-- An active row of this id.
abbrev pub is_awake : Text → WebhookSubscription → Bool
is_awake id s = is_id id s && s.active

pub any-deactivate_sub :
    (k id fleet_id : Text) (rows : List WebhookSubscription)
    → any (is_id k) (deactivate_sub id fleet_id rows) ≡ any (is_id k) rows
unfolding deactivate_sub
any-deactivate_sub k id fleet_id [] = refl
any-deactivate_sub k id fleet_id (s ∷ rows) = elim (Bool-cases (is_row id fleet_id s)) [
  | inl hit ↦ rw hit (ap (λ b. is_id k s || b) (any-deactivate_sub k id fleet_id rows))
  | inr miss ↦ rw miss (ap (λ b. is_id k s || b) (any-deactivate_sub k id fleet_id rows))
]

pub deactivate_sub-IsKeyed :
    (id fleet_id : Text) (rows : List WebhookSubscription)
    → IsKeyed rows
    → IsKeyed (deactivate_sub id fleet_id rows)
unfolding deactivate_sub
deactivate_sub-IsKeyed id fleet_id [] h = tt
deactivate_sub-IsKeyed id fleet_id (s ∷ rows) h =
    let rest = deactivate_sub-IsKeyed id fleet_id rows h.1 in
    elim (Bool-cases (is_row id fleet_id s)) [
      | inl hit ↦ rw hit (any-deactivate_sub s.id id fleet_id rows ∙ h.0, rest)
      | inr miss ↦ rw miss (any-deactivate_sub s.id id fleet_id rows ∙ h.0, rest)
    ]

pub append-IsKeyed :
    (s : WebhookSubscription) (rows : List WebhookSubscription)
    → any (is_id s.id) rows ≡ false
    → IsKeyed rows
    → IsKeyed (rows ++ (s ∷ []))
append-IsKeyed s [] free h = (refl, tt)
append-IsKeyed s (r ∷ rows) free h = (
  any-append (is_id r.id) rows (s ∷ [])
      ∙ ground (arith, free, h.0, text_eq_iff r.id s.id, text_eq_iff s.id r.id),
  append-IsKeyed s rows (ground (arith, free)) h.1,
)

pub insert_sub-some :
    (s : WebhookSubscription) (rows rows' : List WebhookSubscription)
    → insert_sub s rows ≡ some rows'
    → (any (is_id s.id) rows ≡ false) × (rows' ≡ rows ++ (record s { active = true } ∷ []))
unfolding insert_sub
insert_sub-some s rows rows' h = elim (Bool-cases (any (is_id s.id) rows)) [
  | inl taken ↦ cc (rw taken at h)
  | inr free ↦ (free, cc (rw free at h))
]

pub insert_sub-IsKeyed :
    (s : WebhookSubscription) (rows rows' : List WebhookSubscription)
    → insert_sub s rows ≡ some rows'
    → IsKeyed rows
    → IsKeyed rows'
insert_sub-IsKeyed s rows rows' e h =
    let (free, same) = insert_sub-some s rows rows' e in
    subst IsKeyed (sym same) (append-IsKeyed (record s { active = true }) rows free h)

pub migrate_all-IsKeyed :
    (legacy rows : List WebhookSubscription) → IsKeyed rows → IsKeyed (migrate_all legacy rows)
unfolding migrate_all
migrate_all-IsKeyed [] rows h = h
migrate_all-IsKeyed (s ∷ legacy) rows h = elim (Option-cases (insert_sub s rows)) [
  | inl taken ↦ rw (taken, migrate_all) h
  | inr (rows', new) ↦
      rw (new, migrate_all)
        (migrate_all-IsKeyed legacy (migrated_row s rows')
          (migrated s rows' (insert_sub-IsKeyed s rows rows' new h)))
]
  where
    migrated :
        (s : WebhookSubscription) (rows : List WebhookSubscription)
        → IsKeyed rows
        → IsKeyed (migrated_row s rows)
    migrated s rows h = elim (Bool-cases s.active) [
      | inl active ↦ rw active h
      | inr idle ↦ rw idle (deactivate_sub-IsKeyed s.id s.fleet_id rows h)
    ]

pub migrate_legacy_once-IsKeyed :
    (legacy : Option (List WebhookSubscription)) (rows : List WebhookSubscription)
    → IsKeyed rows
    → IsKeyed (migrate_legacy_once legacy rows)
unfolding migrate_legacy_once
migrate_legacy_once-IsKeyed legacy (s ∷ rows) h = h
migrate_legacy_once-IsKeyed none [] h = tt
migrate_legacy_once-IsKeyed (some subs) [] h = migrate_all-IsKeyed subs [] tt

pub asleep_of_missing :
    (id i f : Text) (rows : List WebhookSubscription)
    → any (is_id id) rows ≡ false
    → any (is_awake id) (deactivate_sub i f rows) ≡ false
unfolding deactivate_sub
asleep_of_missing id i f [] h = refl
asleep_of_missing id i f (s ∷ rows) h =
    let rest = asleep_of_missing id i f rows (ground (arith, h)) in
    let other : is_id id s ≡ false = ground (arith, h) in
    elim (Bool-cases (is_row i f s)) [
      | inl hit ↦ rw (hit, other) rest
      | inr miss ↦ rw (miss, other) rest
    ]

pub any-is_row :
    (id f : Text) (rows : List WebhookSubscription)
    → any (is_row id f) rows ≡ true
    → any (is_id id) rows ≡ true
any-is_row id f [] h = absurd (ground (arith, h))
any-is_row id f (s ∷ rows) h = ground (arith, h, any-is_row id f rows)

-- The id of a first row is not that of a later one.
pub first_id :
    (id : Text) (s : WebhookSubscription) (rows : List WebhookSubscription)
    → any (is_id s.id) rows ≡ false
    → is_id id s ≡ true
    → any (is_id id) rows ≡ false
first_id id s rows h same = subst (λ i. any (is_id i) rows ≡ false) ((text_eq_iff s.id id).0 same) h

-- Once its row is deactivated, no row of the id is active.
pub asleep-deactivate_sub :
    (id f : Text) (rows : List WebhookSubscription)
    → IsKeyed rows
    → any (is_row id f) rows ≡ true
    → any (is_awake id) (deactivate_sub id f rows) ≡ false
unfolding deactivate_sub
asleep-deactivate_sub id f [] h e = absurd (ground (arith, e))
asleep-deactivate_sub id f (s ∷ rows) h e = elim (Bool-cases (is_row id f s)) [
  | inl hit ↦
      let same : is_id id s ≡ true = ground (arith, hit) in
      rw (hit, same) (asleep_of_missing id id f rows (first_id id s rows h.0 same))
  | inr miss ↦
      let later : any (is_row id f) rows ≡ true = ground (arith, e, miss) in
      elim (Bool-cases (is_id id s)) [
        | inl same ↦ absurd (
            let there = any-is_row id f rows later in
            let gone = first_id id s rows h.0 same in ground (arith, there, gone))
        | inr other ↦ rw (miss, other) (asleep-deactivate_sub id f rows h.1 later)
      ]
]
