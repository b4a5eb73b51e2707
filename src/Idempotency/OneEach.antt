-- ===== src/Idempotency/OneEach.antt =====
-- src/lib/idempotency.ts: requests in progress under one key, over any sequence of events.
use x402_agent_suite.Base.{
  ◌≡◌, refl, ◌∙◌, false, List, [], ◌∷◌, Option, none, some, Text, text_eq, lookup,
  lookup-remove-some, IsUnique-remove,
}
use x402_agent_suite.Idempotency.{Store, pre_check}
use x402_agent_suite.Idempotency.Pruning.{IsTable}
use x402_agent_suite.Idempotency.Responses.{
  respond_end-IsTable, respond_end-other, respond_json-IsTable, respond_json-other,
}
use x402_agent_suite.Idempotency.Exclusive.{
  Job, World, Event, turned_away, answered, closed, arrive, turn_away, answer, close, end_job, step,
  run, IsYoung, IsPrompt, IsExclusive, start-IsExclusive,
}

module _ (hash : Text → Text) where
  end_job-IsExclusive :
      (f : Text → Job → Store → Store) (k : Text) (o : Option Job) (w : World)
      → ((j : Job) (s : Store) → IsTable s → IsTable (f k j s))
      → ((j : Job) (s : Store) (i : Text)
          → text_eq k i ≡ false
          → lookup i (f k j s).inflight ≡ lookup i s.inflight)
      → IsExclusive w
      → IsExclusive (end_job f k o w)
  end_job-IsExclusive f k none w table others good = good
  end_job-IsExclusive f k (some j) w table others good = record {
    table = table j w.store good.table;
    unique = IsUnique-remove k w.running good.unique;
    holds = λ i h r.
        let (other, left) = lookup-remove-some k i h w.running r in
        others j w.store i other ∙ good.holds i h left;
    own = λ i h r. good.own i h (lookup-remove-some k i h w.running r).1;
  }

  pub step-IsExclusive :
      (e : Event) (w : World) → IsYoung e w → IsExclusive w → IsExclusive (step hash e w)
  unfolding step
  step-IsExclusive (arrive now req) w young good =
      start-IsExclusive hash now req w good (pre_check hash now req w.store).1 refl young
  step-IsExclusive (turn_away k) w young good =
      end_job-IsExclusive turned_away k (lookup k w.running) w (λ j s t. t) (λ j s i other. refl)
        good
  step-IsExclusive (answer now k status body) w young good =
      end_job-IsExclusive (answered hash now status body) k (lookup k w.running) w
        (λ j s t. respond_json-IsTable hash now j.request k status body s t)
        (λ j s i other. respond_json-other hash now j.request k status body i s other) good
  step-IsExclusive (close k) w young good =
      end_job-IsExclusive closed k (lookup k w.running) w
        (λ j s t. respond_end-IsTable j.request k s t)
        (λ j s i other. respond_end-other j.request k i s other) good

  pub run-IsExclusive :
      (es : List Event) (w : World)
      → IsPrompt hash es w
      → IsExclusive w
      → IsExclusive (run hash es w)
  unfolding run
  run-IsExclusive [] w prompt good = good
  run-IsExclusive (e ∷ es) w prompt good =
      run-IsExclusive es (step hash e w) prompt.1 (step-IsExclusive e w prompt.0 good)
