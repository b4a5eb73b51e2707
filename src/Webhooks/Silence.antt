-- ===== src/Webhooks/Silence.antt =====
-- src/lib/webhooks.ts: a subscription after it was deactivated, over any later calls.
use mathlib.Core.Path.{subst}
use x402_agent_suite.Base.{
  ℕ, ◌≡◌, ◌≢◌, refl, sym, ◌∙◌, inl, inr, Bool, true, false, ◌&&◌, List, [], ◌∷◌, Option, some, Text,
  text_eq_iff, any, any-append, All, All-both, All-imp, All_of_any, Bool-cases, Option-cases, arith,
}
use x402_agent_suite.Ssrf.{Net}
use x402_agent_suite.Webhooks.{
  WebhookEvent, WebhookSubscription, listens, is_id, is_row, insert_sub, deactivate_sub,
  migrate_legacy_once, WebhookCheck, valid, unsafe_url, not_https, WebhookInput, new_sub,
  register_checked, register_webhook, assert_valid_webhook_url, deactivate_found,
  deactivate_webhook, Delivery, dispatch_webhooks,
}
use x402_agent_suite.Webhooks.Dispatch.{in_fleet, is_target, dispatch_exact, All-fetched}
use x402_agent_suite.Webhooks.Keys.{
  IsKeyed, is_awake, any-deactivate_sub, any-is_row, asleep-deactivate_sub, deactivate_sub-IsKeyed,
  first_id, insert_sub-IsKeyed, insert_sub-some, migrate_legacy_once-IsKeyed,
}

-- The id is in the table and no row of it is active.
abbrev IsAsleep : Text → List WebhookSubscription → Type 0
IsAsleep id rows = (any (is_id id) rows ≡ true) × (any (is_awake id) rows ≡ false)

asleep-deactivate_other :
    (id i f : Text) (rows : List WebhookSubscription)
    → any (is_awake id) rows ≡ false
    → any (is_awake id) (deactivate_sub i f rows) ≡ false
unfolding deactivate_sub
asleep-deactivate_other id i f [] h = refl
asleep-deactivate_other id i f (s ∷ rows) h =
    let rest = asleep-deactivate_other id i f rows (ground (arith, h)) in
    let first : is_awake id s ≡ false = ground (arith, h) in
    elim (Bool-cases (is_row i f s)) [
      | inl hit ↦ rw hit (ground (arith, rest))
      | inr miss ↦ rw miss (ground (arith, rest, first))
    ]

insert_sub-IsAsleep :
    (id : Text) (s : WebhookSubscription) (rows rows' : List WebhookSubscription)
    → insert_sub s rows ≡ some rows'
    → IsAsleep id rows
    → IsAsleep id rows'
insert_sub-IsAsleep id s rows rows' e h =
    let (free, same) = insert_sub-some s rows rows' e in
    let new : WebhookSubscription = record s { active = true } in
    let differ : is_id id s ≡ false = elim (Bool-cases (is_id id s)) [
      | inr other ↦ other
      | inl mine ↦ absurd (
          let gone = first_id id s rows free mine in let there = h.0 in ground (arith, there, gone))
    ] in
    subst (IsAsleep id) (sym same) (
      any-append (is_id id) rows (new ∷ []) ∙ ground (arith, h.0),
      any-append (is_awake id) rows (new ∷ []) ∙ ground (arith, h.1, differ),
    )

-- A table that is not empty is not migrated.
asleep-migrate :
    (id : Text) (legacy : Option (List WebhookSubscription)) (rows : List WebhookSubscription)
    → IsAsleep id rows
    → migrate_legacy_once legacy rows ≡ rows
unfolding migrate_legacy_once
asleep-migrate id legacy [] h = absurd (let there = h.0 in ground (arith, there))
asleep-migrate id legacy (s ∷ rows) h = refl

-- A call, with the legacy file as it is then.
pub data Call : Type 0 where
  register : Option (List WebhookSubscription) → ℕ → Text → Text → WebhookInput → Call
  deactivate : Option (List WebhookSubscription) → Text → Text → Call
  -- `listWebhooks`, also as a dispatch makes it.
  listing : Option (List WebhookSubscription) → Call

module _ (net : Net) where
  abbrev pub step : Call → List WebhookSubscription → List WebhookSubscription
  step (register legacy now id secret input) rows =
      (register_webhook net legacy now id secret input rows).0
  step (deactivate legacy id f) rows = (deactivate_webhook legacy id f rows).0
  step (listing legacy) rows = migrate_legacy_once legacy rows

  unfoldable pub run : List Call → List WebhookSubscription → List WebhookSubscription
  unfolding register_webhook deactivate_webhook
  run [] rows = rows
  run (c ∷ cs) rows = run cs (step c rows)

  -- What `register` leaves: the table, or the table with the new row.
  register-keeps :
      (P : List WebhookSubscription → Type 0) (s : WebhookSubscription)
      (rows : List WebhookSubscription) (c : WebhookCheck)
      → P rows
      → ((rows' : List WebhookSubscription) → insert_sub s rows ≡ some rows' → P rows')
      → P (register_checked s rows c).0
  register-keeps P s rows valid h more = elim (Option-cases (insert_sub s rows)) [
    | inl taken ↦ rw taken h
    | inr (rows', new) ↦ rw new (more rows' new)
  ]
  register-keeps P s rows (unsafe_url u) h more = h
  register-keeps P s rows not_https h more = h

  step-IsKeyed : (c : Call) (rows : List WebhookSubscription) → IsKeyed rows → IsKeyed (step c rows)
  unfolding register_webhook deactivate_webhook
  step-IsKeyed (register legacy now id secret input) rows h =
      let rows' = migrate_legacy_once legacy rows in
      let keyed = migrate_legacy_once-IsKeyed legacy rows h in
      let s = new_sub now id secret input in
      register-keeps IsKeyed s rows' (assert_valid_webhook_url net input.url) keyed
        (λ r e. insert_sub-IsKeyed s rows' r e keyed)
  step-IsKeyed (deactivate legacy id f) rows h =
      let rows' = migrate_legacy_once legacy rows in
      let keyed = migrate_legacy_once-IsKeyed legacy rows h in
      elim (Bool-cases (any (is_row id f) rows')) [
        | inl there ↦ rw (there, IsKeyed) (deactivate_sub-IsKeyed id f rows' keyed)
        | inr gone ↦ rw (gone, IsKeyed) keyed
      ]
  step-IsKeyed (listing legacy) rows h = migrate_legacy_once-IsKeyed legacy rows h

  step-IsAsleep :
      (id : Text) (c : Call) (rows : List WebhookSubscription)
      → IsAsleep id rows
      → IsAsleep id (step c rows)
  unfolding register_webhook deactivate_webhook
  step-IsAsleep id (register legacy now i secret input) rows h =
      let s = new_sub now i secret input in
      let check = assert_valid_webhook_url net input.url in
      subst (λ r. IsAsleep id (register_checked s r check).0)
        (sym (asleep-migrate id legacy rows h))
        (register-keeps (IsAsleep id) s rows check h (λ r e. insert_sub-IsAsleep id s rows r e h))
  step-IsAsleep id (deactivate legacy i f) rows h =
      subst (λ r. IsAsleep id (deactivate_found i f r).0) (sym (asleep-migrate id legacy rows h))
        (elim (Bool-cases (any (is_row i f) rows)) [
          | inl there ↦
              rw there
                (any-deactivate_sub id i f rows ∙ h.0, asleep-deactivate_other id i f rows h.1)
          | inr gone ↦ rw gone h
        ])
  step-IsAsleep id (listing legacy) rows h =
      subst (IsAsleep id) (sym (asleep-migrate id legacy rows h)) h

  run-IsKeyed :
      (cs : List Call) (rows : List WebhookSubscription) → IsKeyed rows → IsKeyed (run cs rows)
  unfolding run
  run-IsKeyed [] rows h = h
  run-IsKeyed (c ∷ cs) rows h = run-IsKeyed cs (step c rows) (step-IsKeyed c rows h)

  run-IsAsleep :
      (id : Text) (cs : List Call) (rows : List WebhookSubscription)
      → IsAsleep id rows
      → IsAsleep id (run cs rows)
  unfolding run
  run-IsAsleep id [] rows h = h
  run-IsAsleep id (c ∷ cs) rows h = run-IsAsleep id cs (step c rows) (step-IsAsleep id c rows h)

  deactivate-IsAsleep :
      (legacy : Option (List WebhookSubscription)) (id f : Text) (rows : List WebhookSubscription)
      → IsKeyed rows
      → (deactivate_webhook legacy id f rows).1 ≡ true
      → IsAsleep id (deactivate_webhook legacy id f rows).0
  unfolding deactivate_webhook
  deactivate-IsAsleep legacy id f rows h e =
      let rows' = migrate_legacy_once legacy rows in
      let keyed = migrate_legacy_once-IsKeyed legacy rows h in
      elim (Bool-cases (any (is_row id f) rows')) [
        | inr gone ↦ absurd (let wrong = rw gone at e in ground (arith, wrong))
        | inl there ↦ rw there (
          any-deactivate_sub id id f rows' ∙ any-is_row id f rows' there,
          asleep-deactivate_sub id f rows' keyed there,
        )
      ]

  -- A subscription that was deactivated is never called again: in any order of calls before and after, and
  -- whatever each dispatch is about, no dispatch after the deactivation fetches a URL for its id.
  pub deactivated_silent :
      (before after : List Call) (legacy : Option (List WebhookSubscription)) (id f : Text)
      → (deactivate_webhook legacy id f (run before [])).1 ≡ true
      → (legacy' : Option (List WebhookSubscription)) (fetch : WebhookSubscription → Delivery)
        (event : WebhookEvent) (fleet : Option Text)
      → All
          (λ s. s.id ≢ id)
          (dispatch_webhooks net legacy' fetch event fleet
            (run after (deactivate_webhook legacy id f (run before [])).0)).fetched
  deactivated_silent before after legacy id f done legacy' fetch event fleet =
      let rows = (deactivate_webhook legacy id f (run before [])).0 in
      let asleep =
        run-IsAsleep id after rows
          (deactivate-IsAsleep legacy id f (run before []) (run-IsKeyed before [] tt) done) in
      let there : List WebhookSubscription = run after rows in
      let calm = All_of_any (is_awake id) there asleep.1 in
      let all_calm =
        All-fetched net fetch (λ s. is_awake id s ≡ false) legacy' event fleet there
          (subst (All (λ s. is_awake id s ≡ false)) (sym (asleep-migrate id legacy' there asleep))
            calm) in
      let called = (dispatch_exact net fetch legacy' event fleet there).2 in
      All-imp
        (λ s
            (h : (is_awake id s ≡ false)
              × ((is_target event fleet s ≡ true) × (assert_valid_webhook_url net s.url ≡ valid))).
          differs s (in_fleet fleet s) (listens event s) h.0 h.1.0)
        _ (All-both (λ s. is_awake id s ≡ false) _ _ all_calm called)
    where
      differs :
          (s : WebhookSubscription) (p q : Bool)
          → is_awake id s ≡ false
          → (s.active && (p && q)) ≡ true
          → s.id ≢ id
      differs s p q calm h e = let same = (text_eq_iff s.id id).1 e in ground (arith, same, calm, h)
