-- ===== src/Webhooks/Dispatch.antt =====
-- src/lib/webhooks.ts: which subscriptions a dispatch calls, and what it counts.
use mathlib.Core.Path.{subst}
use x402_agent_suite.Base.{
  ◌+◌, ◌≡◌, refl, sym, ap, ◌∙◌, inl, inr, Bool, true, false, ◌&&◌, List, [], ◌∷◌, Option, none,
  some, Text, text_eq, is_empty, length, keep, All, All-keep, All-keep_self, All-both, All-imp,
  length-keep-keep, Bool-cases, ltb, if◌then◌else◌, arith,
}
use x402_agent_suite.Ssrf.{Net}
use x402_agent_suite.Webhooks.{
  WebhookEvent, WebhookSubscription, listens, migrate_legacy_once, insert_by_time, by_time,
  of_fleet, list_webhooks, WebhookCheck, valid, unsafe_url, not_https, is_valid,
  assert_valid_webhook_url, Delivery, is_delivered, Dispatched, deliver, deliver_all,
  dispatch_webhooks,
}

abbrev pub in_fleet : Option Text → WebhookSubscription → Bool
in_fleet none s = true
in_fleet (some fleet_id) s = if is_empty fleet_id then true else text_eq s.fleet_id fleet_id

-- An active subscription of the fleet, if one is named, to the event.
abbrev pub is_target : WebhookEvent → Option Text → WebhookSubscription → Bool
is_target event fleet_id s = s.active && (in_fleet fleet_id s && listens event s)

module _ {κ} (P : WebhookSubscription → Type κ) where
  All-insert_by_time :
      (s : WebhookSubscription) (rows : List WebhookSubscription)
      → P s
      → All P rows
      → All P (insert_by_time s rows)
  unfolding insert_by_time
  All-insert_by_time s [] h all = (h, tt)
  All-insert_by_time s (q ∷ rows) h all = elim (Bool-cases (ltb s.created_at q.created_at)) [
    | inl later ↦ rw later (all.0, All-insert_by_time s rows h all.1)
    | inr first ↦ rw first (h, all)
  ]

  All-by_time : (rows : List WebhookSubscription) → All P rows → All P (by_time rows)
  unfolding by_time
  All-by_time [] all = tt
  All-by_time (s ∷ rows) all = All-insert_by_time s (by_time rows) all.0 (All-by_time rows all.1)

  All-of_fleet :
      (f : Option Text) (rows : List WebhookSubscription) → All P rows → All P (of_fleet f rows)
  All-of_fleet none rows all = all
  All-of_fleet (some f) rows all = elim (Bool-cases (is_empty f)) [
    | inl every_fleet ↦ rw every_fleet all
    | inr one ↦ rw one (All-keep P (λ s. text_eq s.fleet_id f) rows all)
  ]

every_one : (rows : List WebhookSubscription) → All (λ s. true ≡ true) rows
every_one [] = tt
every_one (s ∷ rows) = (refl, every_one rows)

of_fleet-in_fleet :
    (f : Option Text) (rows : List WebhookSubscription)
    → All (λ s. in_fleet f s ≡ true) (of_fleet f rows)
of_fleet-in_fleet none rows = every_one rows
of_fleet-in_fleet (some f) rows = elim (Bool-cases (is_empty f)) [
  | inl every_fleet ↦ rw every_fleet (every_one rows)
  | inr one ↦ rw one (All-keep_self (λ s. text_eq s.fleet_id f) rows)
]

length-keep-insert :
    (p : WebhookSubscription → Bool) (s : WebhookSubscription) (rows : List WebhookSubscription)
    → length (keep p (insert_by_time s rows)) ≡ length (keep p (s ∷ rows))
unfolding insert_by_time
length-keep-insert p s [] = refl
length-keep-insert p s (q ∷ rows) = ground (arith, length-keep-insert p s rows)

length-keep-by_time :
    (p : WebhookSubscription → Bool) (rows : List WebhookSubscription)
    → length (keep p (by_time rows)) ≡ length (keep p rows)
unfolding by_time
length-keep-by_time p [] = refl
length-keep-by_time p (s ∷ rows) =
    length-keep-insert p s (by_time rows) ∙ ground (arith, length-keep-by_time p rows)

length-keep-of_fleet :
    (p : WebhookSubscription → Bool) (f : Option Text) (rows : List WebhookSubscription)
    → length (keep p (of_fleet f rows)) ≡ length (keep (λ s. in_fleet f s && p s) rows)
length-keep-of_fleet p none rows = refl
length-keep-of_fleet p (some f) rows = elim (Bool-cases (is_empty f)) [
  | inl every_fleet ↦ rw every_fleet refl
  | inr one ↦ rw one (length-keep-keep p (λ s. text_eq s.fleet_id f) rows)
]

-- The subscriptions that a dispatch goes through.
abbrev pub targets :
    WebhookEvent → Option Text → List WebhookSubscription → List WebhookSubscription
targets event f rows = keep (listens event) (list_webhooks f rows)

length-targets :
    (event : WebhookEvent) (f : Option Text) (rows : List WebhookSubscription)
    → length (targets event f rows) ≡ length (keep (is_target event f) rows)
length-targets event f rows =
    let active = keep (λ (s : WebhookSubscription). s.active) rows in
    let chosen = λ (s : WebhookSubscription). in_fleet f s && listens event s in
    unfold list_webhooks in
    (length-keep-of_fleet (listens event) f (by_time active)
      ∙ (length-keep-by_time chosen active
          ∙ length-keep-keep chosen (λ (s : WebhookSubscription). s.active) rows))

length-keep-targets :
    (p : WebhookSubscription → Bool) (event : WebhookEvent) (f : Option Text)
    (rows : List WebhookSubscription)
    → length (keep p (targets event f rows))
      ≡ length (keep (λ s. s.active && (in_fleet f s && (listens event s && p s))) rows)
length-keep-targets p event f rows =
    let active = keep (λ (s : WebhookSubscription). s.active) rows in
    let heard = λ (s : WebhookSubscription). listens event s && p s in
    let chosen = λ (s : WebhookSubscription). in_fleet f s && heard s in
    unfold list_webhooks in
    (length-keep-keep p (listens event) (of_fleet f (by_time active))
      ∙ (length-keep-of_fleet heard f (by_time active)
          ∙ (length-keep-by_time chosen active
              ∙ length-keep-keep chosen (λ (s : WebhookSubscription). s.active) rows)))

All-targets :
    (event : WebhookEvent) (f : Option Text) (rows : List WebhookSubscription)
    → All (λ s. is_target event f s ≡ true) (targets event f rows)
unfolding list_webhooks
All-targets event f rows =
    let active = λ (s : WebhookSubscription). s.active ≡ true in
    let sorted = by_time (keep (λ (s : WebhookSubscription). s.active) rows) in
    let all_active =
      All-by_time active _ (All-keep_self (λ (s : WebhookSubscription). s.active) rows) in
    let both =
      All-both active (λ s. in_fleet f s ≡ true) (of_fleet f sorted)
        (All-of_fleet active f sorted all_active) (of_fleet-in_fleet f sorted) in
    All-imp
      (λ s (h : ((s.active ≡ true) × (in_fleet f s ≡ true)) × (listens event s ≡ true)).
        joined s h.0.0 h.0.1 h.1)
      (keep (listens event) (of_fleet f sorted))
      (All-both (λ s. (s.active ≡ true) × (in_fleet f s ≡ true)) (λ s. listens event s ≡ true) _
        (All-keep (λ s. (s.active ≡ true) × (in_fleet f s ≡ true)) (listens event) _ both)
        (All-keep_self (listens event) (of_fleet f sorted)))
  where
    all_three : (p q r : Bool) → p ≡ true → q ≡ true → r ≡ true → (p && (q && r)) ≡ true
    all_three p q r a b c = ground arith

    joined :
        (s : WebhookSubscription)
        → s.active ≡ true
        → in_fleet f s ≡ true
        → listens event s ≡ true
        → is_target event f s ≡ true
    joined s a b c = all_three s.active (in_fleet f s) (listens event s) a b c

is_valid-valid : (c : WebhookCheck) → is_valid c ≡ true → c ≡ valid
is_valid-valid valid h = refl
is_valid-valid (unsafe_url u) h = absurd (ground (arith, h))
is_valid-valid not_https h = absurd (ground (arith, h))

module _ (net : Net) (fetch : WebhookSubscription → Delivery) where
  abbrev is_callable : WebhookSubscription → Bool
  is_callable s = is_valid (assert_valid_webhook_url net s.url)

  -- Each subscription is not called, called with success, or called without.
  module _ (s : WebhookSubscription) (d : Dispatched) where
    deliver-skipped :
        is_callable s ≡ false → deliver net fetch s d ≡ record d { failed = d.failed + 1 }
    deliver-skipped h = unfold deliver in rw h refl

    deliver-done :
        is_callable s ≡ true
        → is_delivered (fetch s) ≡ true
        → deliver net fetch s d ≡ record d { delivered = d.delivered + 1; fetched = s ∷ d.fetched }
    deliver-done h k = unfold deliver in rw (h, k) refl

    deliver-missed :
        is_callable s ≡ true
        → is_delivered (fetch s) ≡ false
        → deliver net fetch s d ≡ record d { failed = d.failed + 1; fetched = s ∷ d.fetched }
    deliver-missed h k = unfold deliver in rw (h, k) refl

  fetched-deliver_all :
      (subs : List WebhookSubscription)
      → (deliver_all net fetch subs).fetched ≡ keep is_callable subs
  unfolding deliver_all
  fetched-deliver_all [] = refl
  fetched-deliver_all (s ∷ subs) =
      let d = deliver_all net fetch subs in
      elim (Bool-cases (is_callable s)) [
        | inr skip ↦ rw (deliver-skipped s d skip, skip) (fetched-deliver_all subs)
        | inl call ↦ elim (Bool-cases (is_delivered (fetch s))) [
          | inl done ↦
              rw (deliver-done s d call done, call) (ap (λ r. s ∷ r) (fetched-deliver_all subs))
          | inr miss ↦
              rw (deliver-missed s d call miss, call) (ap (λ r. s ∷ r) (fetched-deliver_all subs))
        ]
      ]

  counts-deliver_all :
      (subs : List WebhookSubscription)
      → let d = deliver_all net fetch subs in
        (d.delivered + d.failed ≡ length subs)
        × (d.delivered ≡ length (keep (λ s. is_delivered (fetch s)) d.fetched))
  unfolding deliver_all
  counts-deliver_all [] = (refl, refl)
  counts-deliver_all (s ∷ subs) =
      let d = deliver_all net fetch subs in
      let (sum, hits) = counts-deliver_all subs in
      elim (Bool-cases (is_callable s)) [
        | inr skip ↦ rw (deliver-skipped s d skip) (omega (arith, sum), hits)
        | inl call ↦ elim (Bool-cases (is_delivered (fetch s))) [
          | inl done ↦
              rw (deliver-done s d call done) (omega (arith, sum), rw done (omega (arith, hits)))
          | inr miss ↦ rw (deliver-missed s d call miss) (omega (arith, sum), rw miss hits)
        ]
      ]

  -- A dispatch calls the active subscriptions to the event, of the fleet if one is named, whose URLs are safe and
  -- https at that moment, each as often as it has a row, and nothing else: for every test of a subscription as
  -- many of the calls pass it as there are such rows that pass it. What it counts as delivered are the calls
  -- that answered 2xx, and as failed everything else, also what was not called: the two counts together are
  -- the number of active subscriptions to the event, of the fleet if one is named, whatever their URLs.
  pub dispatch_exact :
      (legacy : Option (List WebhookSubscription)) (event : WebhookEvent) (f : Option Text)
      (rows : List WebhookSubscription)
      → let d = dispatch_webhooks net legacy fetch event f rows in
        (d.delivered + d.failed
          ≡ length (keep (is_target event f) (migrate_legacy_once legacy rows)))
        × (d.delivered ≡ length (keep (λ s. is_delivered (fetch s)) d.fetched))
        × All
            (λ s. (is_target event f s ≡ true) × (assert_valid_webhook_url net s.url ≡ valid))
            d.fetched
        × ((p : WebhookSubscription → Bool)
            → length (keep p d.fetched)
              ≡ length (
                  keep
                    (λ s.
                      s.active
                      && (in_fleet f s
                          && (listens event s
                              && (is_valid (assert_valid_webhook_url net s.url) && p s))))
                    (migrate_legacy_once legacy rows)))
  unfolding dispatch_webhooks
  dispatch_exact legacy event f rows =
      let rows' = migrate_legacy_once legacy rows in
      let (sum, hits) = counts-deliver_all (targets event f rows') in
      let called = fetched-deliver_all (targets event f rows') in
      (
        sum ∙ length-targets event f rows',
        hits,
        subst
            (All (λ s. (is_target event f s ≡ true) × (assert_valid_webhook_url net s.url ≡ valid)))
            (sym called)
            (All-both _ (λ s. assert_valid_webhook_url net s.url ≡ valid) _
              (All-keep (λ s. is_target event f s ≡ true) is_callable _ (All-targets event f rows'))
              (All-imp (λ s h. is_valid-valid (assert_valid_webhook_url net s.url) h) _
                (All-keep_self is_callable (targets event f rows')))),
        λ p.
            ap (λ xs. length (keep p xs)) called
            ∙ (length-keep-keep p is_callable (targets event f rows')
                ∙ length-keep-targets (λ s. is_callable s && p s) event f rows'),
      )

  -- What holds of every row holds of every subscription that is called.
  pub All-fetched :
      (P : WebhookSubscription → Type 0) (legacy : Option (List WebhookSubscription))
      (event : WebhookEvent) (f : Option Text) (rows : List WebhookSubscription)
      → All P (migrate_legacy_once legacy rows)
      → All P (dispatch_webhooks net legacy fetch event f rows).fetched
  unfolding dispatch_webhooks
  All-fetched P legacy event f rows all =
      let active = λ (s : WebhookSubscription). s.active in
      let rows' = migrate_legacy_once legacy rows in
      let listed =
        All-of_fleet P f (by_time (keep active rows'))
          (All-by_time P (keep active rows') (All-keep P active rows' all)) in
      subst (All P) (sym (fetched-deliver_all (targets event f rows')))
        (All-keep P is_callable _ (All-keep P (listens event) _ listed))
