-- ===== src/Webhooks/Examples.antt =====
-- Webhooks: one that is registered, called and deactivated, and the theorems at it. The parser takes every
-- URL as https with the host `a.dev`.
use x402_agent_suite.Base.{
  Bool, ◌+◌, ◌≡◌, ◌≢◌, refl, true, false, ◌&&◌, List, [], ◌∷◌, none, some, Text, text, text_eq,
  length, keep, All, starts_with, lower, includes, ends_with, contains,
}
use x402_agent_suite.Ssrf.{Net}
use x402_agent_suite.Webhooks.{
  guard_denied, WebhookSubscription, listens, migrate_legacy_once, insert_sub, by_time,
  list_webhooks, deactivate_webhook, valid, is_valid, assert_valid_webhook_url, Delivery, status,
  is_delivered, dispatch_webhooks, deliver_all,
}
use x402_agent_suite.Webhooks.Dispatch.{in_fleet, is_target, dispatch_exact}
use x402_agent_suite.Webhooks.Silence.{Call, register, run, deactivated_silent}

abbrev net : Net
net = record {
  parse = λ url.
      some (record {
        protocol = text "https:";
        username = [];
        password = [];
        hostname = text "a.dev";
      });
  is_ip = λ host. false;
  resolve4 = λ host. none;
  resolve6 = λ host. none;
}

abbrev fetch : WebhookSubscription → Delivery
fetch s = status 204

abbrev registering : Text → Text → Call
registering id url =
    register none 5 id (text "k")
      (record { fleet_id = text "f"; url = url; events = guard_denied ∷ [] })

abbrev before : List Call
before =
    registering (text "w1") (text "https://a.dev/h")
    ∷ registering (text "w2") (text "http://a.dev")
    ∷ []

abbrev rows : List WebhookSubscription
rows =
    record {
      id = text "w1";
      fleet_id = text "f";
      url = text "https://a.dev/h";
      events = guard_denied ∷ [];
      secret = text "k";
      created_at = 5;
      active = true;
    }
    ∷ []

-- The second URL is not https and is refused.
before-rows : run net before [] ≡ rows
unfolding run insert_sub migrate_legacy_once text_eq starts_with lower includes ends_with contains
before-rows = refl

called_once : (dispatch_webhooks net none fetch guard_denied none rows).delivered ≡ 1
unfolding dispatch_webhooks list_webhooks by_time listens text_eq starts_with lower includes
    ends_with contains deliver_all
called_once = refl

dispatch_exact_example :
    let d = dispatch_webhooks net none fetch guard_denied none rows in
    (d.delivered + d.failed
      ≡ length (keep (is_target guard_denied none) (migrate_legacy_once none rows)))
    × (d.delivered ≡ length (keep (λ s. is_delivered (fetch s)) d.fetched))
    × All
        (λ s. (is_target guard_denied none s ≡ true) × (assert_valid_webhook_url net s.url ≡ valid))
        d.fetched
    × ((p : WebhookSubscription → Bool)
        → length (keep p d.fetched)
          ≡ length (
              keep
                (λ s.
                  s.active
                  && (in_fleet none s
                      && (listens guard_denied s
                          && (is_valid (assert_valid_webhook_url net s.url) && p s))))
                (migrate_legacy_once none rows)))
dispatch_exact_example = dispatch_exact net fetch none guard_denied none rows

deactivated_silent_example :
    All
      (λ s. s.id ≢ text "w1")
      (dispatch_webhooks net none fetch guard_denied none (
        run net
          (registering (text "w3") (text "https://a.dev/h") ∷ [])
          (deactivate_webhook none (text "w1") (text "f") (run net before [])).0)).fetched
unfolding run insert_sub migrate_legacy_once text_eq starts_with lower includes ends_with contains
deactivated_silent_example =
    deactivated_silent net before (registering (text "w3") (text "https://a.dev/h") ∷ []) none
      (text "w1") (text "f") refl none fetch guard_denied none
