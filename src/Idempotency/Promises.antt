-- ===== src/Idempotency/Promises.antt =====
-- src/lib/idempotency.ts: the promises to a client that retries.
use mathlib.Core.Path.{subst}
use x402_agent_suite.Base.{
  ℕ, ◌+◌, ◌*◌, ◌<◌, ◌≡◌, ◌≢◌, refl, sym, ◌∙◌, inl, inr, true, List, [], some, Text, text_eq,
  text_eq_iff, All, lookup, lookup-remove_self, IsUnique, Bool-cases, arith,
}
use x402_agent_suite.X402Headers.{has_payment_signature_header}
use x402_agent_suite.Idempotency.{
  Request, replayed, key_reused, ttl_sec, seconds, cache_key, key_of, is_usable, is_success,
  pre_check, respond_json, row_of,
}
use x402_agent_suite.Idempotency.PreCheck.{pre_check-hit}
use x402_agent_suite.Idempotency.Responses.{respond_json-stored}
use x402_agent_suite.Idempotency.Exclusive.{
  Job, World, Event, answer, step, run, IsPrompt, IsExclusive,
}
use x402_agent_suite.Idempotency.OneEach.{run-IsExclusive, step-IsExclusive}
use x402_agent_suite.Idempotency.Replay.{IsStored, IsBefore, run-IsStored}

abbrev pub empty_world : World
empty_world = record {
  store = record { cache = []; inflight = []; prune_counter = 0 };
  running = [];
}

-- A request that carries a payment and an `Idempotency-Key` with the cache key `k`.
abbrev pub HasKey : Text → Request → Type 0
HasKey k req =
    (cache_key req.path (key_of req) ≡ k)
    × (is_usable (key_of req) ≡ true)
    × (has_payment_signature_header req.headers ≡ true)

pub empty-IsExclusive : IsExclusive empty_world
unfolding lookup
empty-IsExclusive = record {
  table = record { cache_unique = tt; inflight_unique = tt };
  unique = tt;
  holds = λ k j r. ground arith;
  own = λ k j r. ground arith;
}

module _ (hash : Text → Text) where
  -- However requests arrive, are turned away and are answered, with JSON or without, and however often the
  -- tables are pruned: if no request arrives while one that was let through is more than an hour old, then of the
  -- requests in progress no two have the same cache key, and each is a paid request with its own key.
  pub run_one_each :
      (es : List Event)
      → IsPrompt hash es empty_world
      → let jobs = (run hash es empty_world).running in
        IsUnique jobs × ((k : Text) (j : Job) → lookup k jobs ≡ some j → HasKey k j.request)
  run_one_each es prompt =
      let good = run-IsExclusive hash es empty_world prompt empty-IsExclusive in
      (good.unique, good.own)

  step-IsStored_answer :
      (w : World) (k : Text) (j : Job) (t status : ℕ) (body : Text)
      → IsExclusive w
      → lookup k w.running ≡ some j
      → is_success status ≡ true
      → IsStored hash k (row_of hash t j.request status body) (step hash (answer t k status body) w)
  unfolding step
  step-IsStored_answer w k j t status body good r success =
      let own = good.own k j r in
      rw r (record {
        held =
            subst
              (λ i.
                lookup i (respond_json hash t j.request (some k) status body w.store).cache
                ≡ some (row_of hash t j.request status body))
              own.0
              (respond_json-stored hash t j.request k status body w.store own.1 own.2 success);
        idle = lookup-remove_self k w.running;
      })

  -- When each request in progress holds its own claim (as after any events from the start in which no request
  -- arrives while one that was let through is more than an hour old), and a paid one of them is answered with
  -- success: whatever events follow before the day is over, if again no request arrives while one that was let
  -- through is more than an hour old, every paid request with its key is answered from the cache. One with the
  -- same body hash gets the same status and body again, any other is told that the key was used for something
  -- else.
  pub replay_until_expiry :
      (w : World) (k : Text) (j : Job) (t status : ℕ) (body : Text)
      → IsExclusive w
      → lookup k w.running ≡ some j
      → is_success status ≡ true
      → let w' = step hash (answer t k status body) w in
        let end = (seconds t + ttl_sec) * 1000 in
        (es : List Event)
        → IsPrompt hash es w'
        → All (IsBefore end) es
        → (req : Request) (now : ℕ) → HasKey k req
        → now < end
        → let a = (pre_check hash now req (run hash es w').store).1 in
          (hash j.request.body ≡ hash req.body → a ≡ replayed status body)
          × (hash j.request.body ≢ hash req.body → a ≡ key_reused)
  replay_until_expiry w k j t status body good r success es prompt early req now own fresh =
      let row = row_of hash t j.request status body in
      let w' = step hash (answer t k status body) w in
      let (good', st) =
        run-IsStored hash k row es w' prompt early
          (step-IsExclusive hash (answer t k status body) w tt good)
          (step-IsStored_answer w k j t status body good r success) in
      let hit =
        pre_check-hit hash now req row (run hash es w').store good'.table own.1 own.2
          (subst (λ i. lookup i (run hash es w').store.cache ≡ some row) (sym own.0) st.held)
          fresh in
      (
        λ same. hit ∙ rw ((text_eq_iff (hash j.request.body) (hash req.body)).1 same) refl,
        λ other. hit ∙ elim (Bool-cases (text_eq (hash j.request.body) (hash req.body))) [
          | inl same ↦ absurd (other ((text_eq_iff (hash j.request.body) (hash req.body)).0 same))
          | inr differ ↦ rw differ refl
        ],
      )
