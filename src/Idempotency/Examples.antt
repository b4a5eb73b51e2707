-- ===== src/Idempotency/Examples.antt =====
-- Idempotency: a paid request, its retries, and the theorems at them. The hash of a body is the body.
use x402_agent_suite.Base.{
  ℕ, ◌+◌, ◌≤◌, ◌≡◌, ◌≢◌, refl, List, [], ◌∷◌, none, some, Text, text, text_eq, trim, lookup,
  lookup_front, insert, remove, IsUnique, arith,
}
use x402_agent_suite.X402Headers.{absent, single, has_payment_signature_header}
use x402_agent_suite.Idempotency.{
  CacheRow, Store, Request, replayed, key_reused, in_progress, seconds, pre_check,
}
use x402_agent_suite.Idempotency.Exclusive.{
  Job, World, Event, arrive, turn_away, answer, step, run, IsPrompt, IsExclusive,
}
use x402_agent_suite.Idempotency.OneEach.{run-IsExclusive}
use x402_agent_suite.Idempotency.Promises.{
  empty_world, empty-IsExclusive, HasKey, run_one_each, replay_until_expiry,
}
use x402_agent_suite.Idempotency.Blocked.{turn_away_blocks}

abbrev hash : Text → Text
hash t = t

abbrev request_with : Text → Request
request_with body = record {
  idempotency_key = some (text " k1 ");
  headers = record {
    payment_signature = single (text "sig");
    x_payment = absent;
    x402_payment = absent;
  };
  path = text "/api/a";
  body = body;
}

abbrev first : Request
first = request_with (text "{}")

abbrev key : Text
key = text "/api/a::k1"

abbrev first_job : Job
first_job = record { request = first; started = 1_000 }

young_one :
    (now : ℕ) (j : Job) (k : Text) (i : Job)
    → seconds now ≤ seconds j.started + 3600
    → lookup k ((key, j) ∷ []) ≡ some i
    → seconds now ≤ seconds i.started + 3600
unfolding lookup
young_one now j k i young h = ground (arith, young, lookup_front key k j i [] h)

young_none :
    (now : ℕ) (k : Text) (i : Job) → lookup k [] ≡ some i → seconds now ≤ seconds i.started + 3600
unfolding lookup
young_none now k i h = ground arith

abbrev events : List Event
events =
    arrive 1_000 first
    ∷ arrive 2_000 first
    ∷ answer 3_000 key 200 (text "ok")
    ∷ arrive 4_000 first
    ∷ []

events-IsPrompt : IsPrompt hash events empty_world
unfolding step pre_check trim has_payment_signature_header lookup insert text_eq remove
events-IsPrompt = (
  young_none 1_000,
  ((λ k i. young_one 2_000 first_job k i (omega arith)), (tt, (young_none 4_000, tt))),
)

run_one_each_example :
    let jobs = (run hash events empty_world).running in
    IsUnique jobs × ((k : Text) (j : Job) → lookup k jobs ≡ some j → HasKey k j.request)
run_one_each_example = run_one_each hash events events-IsPrompt

abbrev started : World
started = run hash (arrive 1_000 first ∷ []) empty_world

started-IsExclusive : IsExclusive started
started-IsExclusive =
    run-IsExclusive hash (arrive 1_000 first ∷ []) empty_world (young_none 1_000, tt)
      empty-IsExclusive

started-running : lookup key started.running ≡ some first_job
unfolding run step pre_check trim has_payment_signature_header lookup insert text_eq
started-running = refl

started-cache : lookup key started.store.cache ≡ none
unfolding run step pre_check trim has_payment_signature_header lookup insert text_eq
started-cache = refl

first-HasKey : (body : Text) → HasKey key (request_with body)
unfolding trim has_payment_signature_header
first-HasKey body = (refl, refl, refl)

answered_events-IsPrompt :
    IsPrompt hash
      (arrive 5_000 (request_with (text "[]")) ∷ [])
      (step hash (answer 3_000 key 201 (text "ok")) started)
unfolding run step pre_check trim has_payment_signature_header lookup insert text_eq remove
answered_events-IsPrompt = (young_none 5_000, tt)

replay_until_expiry_example :
    let w = step hash (answer 3_000 key 201 (text "ok")) started in
    let a =
      (pre_check hash 86_402_000 first
        (run hash (arrive 5_000 (request_with (text "[]")) ∷ []) w).store).1 in
    (text "{}" ≡ text "{}" → a ≡ replayed 201 (text "ok"))
    × (text "{}" ≢ text "{}" → a ≡ key_reused)
replay_until_expiry_example =
    replay_until_expiry hash started key first_job 3_000 201 (text "ok") started-IsExclusive
      started-running refl (arrive 5_000 (request_with (text "[]")) ∷ []) answered_events-IsPrompt
      (omega arith, tt) first 86_402_000 (first-HasKey (text "{}")) (omega arith)

-- Two retries after the refusal.
retries-IsPrompt :
    IsPrompt hash (arrive 5_000 first ∷ arrive 6_000 first ∷ []) (step hash (turn_away key) started)
unfolding run step pre_check trim has_payment_signature_header lookup insert text_eq remove
retries-IsPrompt = (young_none 5_000, (young_none 6_000, tt))

turn_away_blocks_example :
    let w =
      run hash (arrive 5_000 first ∷ arrive 6_000 first ∷ []) (step hash (turn_away key) started) in
    (lookup key w.running ≡ none) × ((pre_check hash 3_600_000 first w.store).1 ≡ in_progress)
turn_away_blocks_example =
    turn_away_blocks hash started key first_job started-IsExclusive started-running started-cache
      (arrive 5_000 first ∷ arrive 6_000 first ∷ []) retries-IsPrompt
      (omega arith, (omega arith, tt)) first 3_600_000 (first-HasKey (text "{}")) (omega arith)

abbrev one_row : CacheRow
one_row = record {
  status = 200;
  body = text "ok";
  body_hash = text "{}";
  route = text "/api/a";
  created_at = 3;
}

abbrev pruned_store : Store
pruned_store = record { cache = (key, one_row) ∷ []; inflight = []; prune_counter = 999 }
