-- ===== src/Webhooks.antt =====
-- src/lib/webhooks.ts: subscriptions in the table webhook_subscriptions, and deliveries. Times are
-- milliseconds; random ids and secrets, the legacy file and what a fetch answers are arguments. The
-- deliveries of one dispatch run at once; their counts do not depend on the order.
mod Dispatch
mod Keys
mod Silence
mod Examples
use x402_agent_suite.Base.{
  ℕ, ◌+◌, Bool, true, false, ◌&&◌, List, [], ◌∷◌, ◌++◌, Option, none, some, Text, text, text_eq,
  is_empty, starts_with, keep, any, ltb, leb, ◌==◌, if◌then◌else◌,
}
use x402_agent_suite.Ssrf.{Net, UrlCheck, safe, assert_safe_outbound_url}

pub data WebhookEvent : Type 0 where
  guard_denied guard_allowed receipt_invalid spend_cap_exceeded merchant_trust_low : WebhookEvent

-- A subscription, and a row of the table.
pub record WebhookSubscription : Type 0 where
  pub id : Text
  pub fleet_id : Text
  pub url : Text
  pub events : List WebhookEvent
  pub secret : Text
  pub created_at : ℕ
  pub active : Bool

abbrev pub event_code : WebhookEvent → ℕ
event_code guard_denied = 0
event_code guard_allowed = 1
event_code receipt_invalid = 2
event_code spend_cap_exceeded = 3
event_code merchant_trust_low = 4

-- `s.events.includes(event)`.
unfoldable pub listens : WebhookEvent → WebhookSubscription → Bool
listens event s = any (λ e. event_code e == event_code event) s.events

abbrev pub is_id : Text → WebhookSubscription → Bool
is_id id s = text_eq s.id id

abbrev pub is_row : Text → Text → WebhookSubscription → Bool
is_row id fleet_id s = text_eq s.id id && text_eq s.fleet_id fleet_id

-- `INSERT`: `none` when the primary key is taken.
unfoldable pub insert_sub :
    WebhookSubscription → List WebhookSubscription → Option (List WebhookSubscription)
insert_sub s rows =
    if any (is_id s.id) rows then none else some (rows ++ (record s { active = true } ∷ []))

-- `UPDATE webhook_subscriptions SET active = 0 WHERE id = ? AND fleet_id = ?`.
unfoldable pub deactivate_sub : Text → Text → List WebhookSubscription → List WebhookSubscription
deactivate_sub id fleet_id [] = []
deactivate_sub id fleet_id (s ∷ rows) =
    (if is_row id fleet_id s then record s { active = false } else s)
    ∷ deactivate_sub id fleet_id rows

abbrev pub migrated_row : WebhookSubscription → List WebhookSubscription → List WebhookSubscription
migrated_row s rows = if s.active then rows else deactivate_sub s.id s.fleet_id rows

-- The loop over the legacy file; a key that is taken ends it.
unfoldable pub migrate_all :
    List WebhookSubscription → List WebhookSubscription → List WebhookSubscription
unfolding insert_sub deactivate_sub
migrate_all [] rows = rows
migrate_all (s ∷ legacy) rows = elim (insert_sub s rows) [
  | none ↦ rows
  | some rows' ↦ migrate_all legacy (migrated_row s rows')
]

unfoldable pub migrate_legacy_once :
    Option (List WebhookSubscription) → List WebhookSubscription → List WebhookSubscription
unfolding migrate_all
migrate_legacy_once legacy (s ∷ rows) = s ∷ rows
migrate_legacy_once none [] = []
migrate_legacy_once (some subs) [] = migrate_all subs []

pub data WebhookCheck : Type 0 where
  valid : WebhookCheck
  unsafe_url : UrlCheck → WebhookCheck
  not_https : WebhookCheck

pub record WebhookInput : Type 0 where
  pub fleet_id : Text
  pub url : Text
  pub events : List WebhookEvent

pub data Registered : Type 0 where
  registered : WebhookSubscription → Registered
  refused : WebhookCheck → Registered
  -- The random id is taken: the insert throws.
  id_taken : Registered

abbrev pub new_sub : ℕ → Text → Text → WebhookInput → WebhookSubscription
new_sub now id secret input = record {
  id = id;
  fleet_id = input.fleet_id;
  url = input.url;
  events = input.events;
  secret = secret;
  created_at = now;
  active = true;
}

abbrev pub inserted :
    WebhookSubscription
    → List WebhookSubscription
    → Option (List WebhookSubscription)
    → List WebhookSubscription × Registered
inserted s rows none = (rows, id_taken)
inserted s rows (some rows') = (rows', registered s)

-- `ORDER BY created_at DESC`.
unfoldable pub insert_by_time :
    WebhookSubscription → List WebhookSubscription → List WebhookSubscription
insert_by_time s [] = s ∷ []
insert_by_time s (q ∷ rows) =
    if ltb s.created_at q.created_at then q ∷ insert_by_time s rows else s ∷ q ∷ rows

unfoldable pub by_time : List WebhookSubscription → List WebhookSubscription
unfolding insert_by_time
by_time [] = []
by_time (s ∷ rows) = insert_by_time s (by_time rows)

abbrev pub of_fleet : Option Text → List WebhookSubscription → List WebhookSubscription
of_fleet none subs = subs
of_fleet (some fleet_id) subs =
    if is_empty fleet_id then subs else keep (λ s. text_eq s.fleet_id fleet_id) subs

-- `listWebhooks`, after the migration.
unfoldable pub list_webhooks : Option Text → List WebhookSubscription → List WebhookSubscription
unfolding by_time
list_webhooks fleet_id rows = of_fleet fleet_id (by_time (keep (λ s. s.active) rows))

abbrev pub deactivate_found :
    Text → Text → List WebhookSubscription → List WebhookSubscription × Bool
deactivate_found id fleet_id rows =
    if any (is_row id fleet_id) rows then (deactivate_sub id fleet_id rows, true) else (rows, false)

unfoldable pub deactivate_webhook :
    Option (List WebhookSubscription)
    → Text
    → Text
    → List WebhookSubscription
    → List WebhookSubscription × Bool
unfolding migrate_legacy_once deactivate_sub
deactivate_webhook legacy id fleet_id rows =
    deactivate_found id fleet_id (migrate_legacy_once legacy rows)

-- What a delivery comes to: an exception, a time-out included, or a status.
pub data Delivery : Type 0 where
  thrown : Delivery
  status : ℕ → Delivery

-- 2xx; redirects and all else are failures.
abbrev pub is_delivered : Delivery → Bool
is_delivered thrown = false
is_delivered (status n) = leb 200 n && ltb n 300

-- The counts, and the subscriptions whose URLs were fetched.
pub record Dispatched : Type 0 where
  pub delivered : ℕ
  pub failed : ℕ
  pub fetched : List WebhookSubscription

abbrev pub register_checked :
    WebhookSubscription
    → List WebhookSubscription
    → WebhookCheck
    → List WebhookSubscription × Registered
register_checked s rows valid = inserted s rows (insert_sub s rows)
register_checked s rows check = (rows, refused check)

abbrev pub is_valid : WebhookCheck → Bool
is_valid valid = true
is_valid _ = false

module _ (net : Net) where
  abbrev pub check_https : Text → UrlCheck → WebhookCheck
  check_https url safe = if starts_with url (text "https://") then valid else not_https
  check_https url check = unsafe_url check

  unfoldable pub assert_valid_webhook_url : Text → WebhookCheck
  unfolding assert_safe_outbound_url
  assert_valid_webhook_url url = check_https url (assert_safe_outbound_url net url)

  unfoldable pub register_webhook :
      Option (List WebhookSubscription)
      → ℕ
      → Text
      → Text
      → WebhookInput
      → List WebhookSubscription
      → List WebhookSubscription × Registered
  unfolding migrate_legacy_once assert_valid_webhook_url insert_sub
  register_webhook legacy now id secret input rows =
      register_checked (new_sub now id secret input) (migrate_legacy_once legacy rows)
        (assert_valid_webhook_url input.url)

  -- One subscription of a dispatch, `fetch` being what its request comes to.
  unfoldable pub deliver :
      (WebhookSubscription → Delivery) → WebhookSubscription → Dispatched → Dispatched
  unfolding assert_valid_webhook_url
  deliver fetch s d =
      if is_valid (assert_valid_webhook_url s.url)
      then (if is_delivered (fetch s)
          then record d { delivered = d.delivered + 1; fetched = s ∷ d.fetched }
          else record d { failed = d.failed + 1; fetched = s ∷ d.fetched })
      else record d { failed = d.failed + 1 }

  unfoldable pub deliver_all :
      (WebhookSubscription → Delivery) → List WebhookSubscription → Dispatched
  unfolding deliver
  deliver_all fetch [] = record { delivered = 0; failed = 0; fetched = [] }
  deliver_all fetch (s ∷ subs) = deliver fetch s (deliver_all fetch subs)

  unfoldable pub dispatch_webhooks :
      Option (List WebhookSubscription)
      → (WebhookSubscription → Delivery)
      → WebhookEvent
      → Option Text
      → List WebhookSubscription
      → Dispatched
  unfolding migrate_legacy_once list_webhooks listens deliver_all
  dispatch_webhooks legacy fetch event fleet_id rows =
      deliver_all fetch
        (keep (listens event) (list_webhooks fleet_id (migrate_legacy_once legacy rows)))
