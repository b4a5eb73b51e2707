-- ===== src/Idempotency/Exclusive.antt =====
-- src/lib/idempotency.ts as `createPost` of src/routes/shared.ts chains it around the payment
-- middleware: requests in progress, and their keys.
use mathlib.Core.Path.{subst}
use x402_agent_suite.Base.{
  ℕ, ◌+◌, ◌≤◌, ◌≡◌, ap, ◌∙◌, inl, inr, true, List, [], ◌∷◌, Option, none, some, Text, Dict, lookup,
  remove, IsUnique, Option-cases, arith,
}
use x402_agent_suite.Idempotency.{
  Store, Request, Answer, next, replayed, key_reused, in_progress, seconds, maybe_prune, cache_key,
  key_of, is_usable, pre_check, respond_json, respond_end,
}
use x402_agent_suite.Base.{lookup-insert_fresh, lookup_front}
use x402_agent_suite.Idempotency.PreCheck.{pre_check-preserves, pre_check-Claimed}
use x402_agent_suite.X402Headers.{has_payment_signature_header}
use x402_agent_suite.Idempotency.Pruning.{
  IsTable, claim-IsTable, maybe_prune-IsTable, maybe_prune-inflight,
}

-- A request that `idempotencyPreCheck` let through with a claim, and when.
pub record Job : Type 0 where
  pub request : Request
  pub started : ℕ

-- The jobs in progress stand under their claims.
pub record World : Type 0 where
  pub store : Store
  pub running : Dict Job

pub data Event : Type 0 where
  arrive : (now : ℕ) (req : Request) → Event
  -- The payment middleware answers: `idempotencyCapture` is not reached.
  turn_away : (key : Text) → Event
  answer : (now : ℕ) (key : Text) (status : ℕ) (body : Text) → Event
  -- The response ends without a JSON body: `res.end` and not `res.json`.
  close : (key : Text) → Event

abbrev pub start : ℕ → Request → Answer → Dict Job → Dict Job
start now req (next (some k)) jobs = (k, record { request = req; started = now }) ∷ jobs
start now req (next none) jobs = jobs
start now req (replayed status body) jobs = jobs
start now req key_reused jobs = jobs
start now req in_progress jobs = jobs

abbrev pub turned_away : Text → Job → Store → Store
turned_away k j s = s

abbrev pub answered : (Text → Text) → ℕ → ℕ → Text → Text → Job → Store → Store
answered hash now status body k j s = respond_json hash now j.request (some k) status body s

abbrev pub closed : Text → Job → Store → Store
closed k j s = respond_end j.request (some k) s

abbrev pub end_job : (Text → Job → Store → Store) → Text → Option Job → World → World
end_job f k none w = w
end_job f k (some j) w = record w { store = f k j w.store; running = remove k w.running }

-- The job is for a paid request with this cache key.
abbrev pub IsOwn : Text → Job → Type 0
IsOwn k j =
    (cache_key j.request.path (key_of j.request) ≡ k)
    × (is_usable (key_of j.request) ≡ true)
    × (has_payment_signature_header j.request.headers ≡ true)

-- No job is older than an hour when a request arrives.
abbrev pub IsYoung : Event → World → Type 0
IsYoung (arrive now req) w =
    (k : Text) (j : Job) → lookup k w.running ≡ some j → seconds now ≤ seconds j.started + 3600
IsYoung (turn_away k) w = Unit
IsYoung (answer now k status body) w = Unit
IsYoung (close k) w = Unit

-- Every job holds its claim, for its own request.
pub record IsExclusive (w : World) : Type 0 where
  pub table : IsTable w.store
  pub unique : IsUnique w.running
  pub holds :
      (k : Text) (j : Job)
      → lookup k w.running ≡ some j
      → lookup k w.store.inflight ≡ some (seconds j.started)
  pub own : (k : Text) (j : Job) → lookup k w.running ≡ some j → IsOwn k j

module _ (hash : Text → Text) where
  unfoldable pub step : Event → World → World
  unfolding pre_check respond_json respond_end
  step (arrive now req) w =
      let (s, a) = pre_check hash now req w.store in
      record w { store = s; running = start now req a w.running }
  step (turn_away k) w = end_job turned_away k (lookup k w.running) w
  step (answer now k status body) w =
      end_job (answered hash now status body) k (lookup k w.running) w
  step (close k) w = end_job closed k (lookup k w.running) w

  unfoldable pub run : List Event → World → World
  unfolding step
  run [] w = w
  run (e ∷ es) w = run es (step e w)

  abbrev pub IsPrompt : List Event → World → Type 0
  IsPrompt [] w = Unit
  IsPrompt (e ∷ es) w = IsYoung e w × IsPrompt es (step e w)

  module _ (now : ℕ) (req : Request) (w : World) (good : IsExclusive w) where
    -- The tables after `idempotencyPreCheck`.
    abbrev after : Store
    after = (pre_check hash now req w.store).0

    pub after-IsTable : IsTable after
    after-IsTable =
        pre_check-preserves hash IsTable now req w.store (λ s t. maybe_prune-IsTable now s t)
          (λ s free t. claim-IsTable _ _ s t) good.table

    -- A claim that is at most an hour old survives.
    pub after-held :
        (k : Text) (c : ℕ)
        → lookup k w.store.inflight ≡ some c
        → seconds now ≤ c + 3600
        → lookup k after.inflight ≡ some c
    after-held k c held young =
        (pre_check-preserves hash (λ s. IsTable s × (lookup k s.inflight ≡ some c)) now req w.store
          (λ s p. (maybe_prune-IsTable now s p.0, maybe_prune-inflight now c k s p.0 p.1 young))
          (λ s free p. (claim-IsTable _ _ s p.0, lookup-insert_fresh _ k _ c s.inflight free p.1))
          (good.table, held)).1

    pub same-IsExclusive :
        IsYoung (arrive now req) w → IsExclusive (record w { store = after; running = w.running })
    same-IsExclusive young = record {
      table = after-IsTable;
      unique = good.unique;
      holds = λ k j r. after-held k _ (good.holds k j r) (young k j r);
      own = good.own;
    }

    -- Nobody else runs under a key that has just been claimed.
    claimed-fresh :
        (k : Text)
        → lookup k (maybe_prune now w.store).inflight ≡ none
        → IsYoung (arrive now req) w
        → lookup k w.running ≡ none
    claimed-fresh k free young = elim (Option-cases (lookup k w.running)) [
      | inl fresh ↦ fresh
      | inr (j, r) ↦
          let held =
            maybe_prune-inflight now _ k w.store good.table (good.holds k j r) (young k j r) in
          ground (arith, free, held)
    ]

    claimed-IsExclusive :
        (k : Text)
        → (pre_check hash now req w.store).1 ≡ next (some k)
        → IsYoung (arrive now req) w
        → IsExclusive (record w {
          store = after;
          running = (k, record { request = req; started = now }) ∷ w.running;
        })
    unfolding lookup
    claimed-IsExclusive k e young =
        let (usable, paid, (same, free, made)) = pre_check-Claimed hash now req k w.store e in
        record {
          table = after-IsTable;
          unique = (claimed-fresh k free young, good.unique);
          holds = λ i j r. elim (lookup_front k i _ j w.running r) [
            | inl (here, new) ↦
                subst (λ i. lookup i after.inflight ≡ some (seconds j.started)) here
                  (made ∙ ap (λ j. some (seconds j.started)) new)
            | inr old ↦ after-held i _ (good.holds i j old) (young i j old)
          ];
          own = λ i j r. elim (lookup_front k i _ j w.running r) [
            | inl (here, new) ↦ subst (IsOwn i) new (same ∙ here, usable, paid)
            | inr old ↦ good.own i j old
          ];
        }

    pub start-IsExclusive :
        (a : Answer)
        → (pre_check hash now req w.store).1 ≡ a
        → IsYoung (arrive now req) w
        → IsExclusive (record w { store = after; running = start now req a w.running })
    start-IsExclusive (next (some k)) e young = claimed-IsExclusive k e young
    start-IsExclusive (next none) e young = same-IsExclusive young
    start-IsExclusive (replayed status body) e young = same-IsExclusive young
    start-IsExclusive key_reused e young = same-IsExclusive young
    start-IsExclusive in_progress e young = same-IsExclusive young
