-- ===== src/Idempotency/Retries.antt =====
-- src/lib/idempotency.ts: what a retry meets when the first request did not succeed.
use x402_agent_suite.Base.{ℕ, ◌+◌, ◌≤◌, ◌≡◌, refl, ap, ◌∙◌, false, none, some, Text, lookup}
use x402_agent_suite.Idempotency.{
  Store, Request, next, in_progress, seconds, is_success, pre_check, load_hit, try_claim_in_flight,
  maybe_prune,
}
use x402_agent_suite.Idempotency.Pruning.{
  IsTable, maybe_prune-IsTable, load_hit-lookup, maybe_prune-inflight, maybe_prune-none,
}
use x402_agent_suite.Idempotency.PreCheck.{pre_check-paid}
use x402_agent_suite.Idempotency.Responses.{
  respond_json-released, respond_json-IsTable, respond_json-failed, respond_end-IsTable,
  respond_end-cache, respond_end-released,
}
use x402_agent_suite.Idempotency.Exclusive.{Job, World, answer, close, step, IsExclusive}
use x402_agent_suite.Idempotency.Promises.{HasKey}

module _ (hash : Text → Text) where
  -- A request whose key is free and has no response to replay is let through, with the claim.
  pre_check-free :
      (now : ℕ) (req : Request) (k : Text) (s : Store)
      → IsTable s
      → HasKey k req
      → lookup k s.cache ≡ none
      → lookup k s.inflight ≡ none
      → (pre_check hash now req s).1 ≡ next (some k)
  unfolding load_hit try_claim_in_flight
  pre_check-free now req k s t (same, usable, paid) miss free =
      let miss' : (load_hit now k s).1 ≡ none = load_hit-lookup now k s t ∙ rw miss refl in
      let free' = maybe_prune-none now k s t free in
      rw (pre_check-paid hash now req s usable paid, same) (rw miss' (rw free' refl))

  -- While a claim is held and no response is stored, the key is refused.
  pub pre_check-held :
      (now c : ℕ) (req : Request) (k : Text) (s : Store)
      → IsTable s
      → HasKey k req
      → lookup k s.cache ≡ none
      → lookup k s.inflight ≡ some c
      → seconds now ≤ c + 3600
      → (pre_check hash now req s).1 ≡ in_progress
  unfolding load_hit try_claim_in_flight
  pre_check-held now c req k s t (same, usable, paid) miss held young =
      let miss' : (load_hit now k s).1 ≡ none = load_hit-lookup now k s t ∙ rw miss refl in
      let held' = maybe_prune-inflight now c k s t held young in
      let again : (load_hit now k (maybe_prune now s)).1 ≡ none =
        load_hit-lookup now k (maybe_prune now s) (maybe_prune-IsTable now s t) ∙ miss' in
      rw (pre_check-paid hash now req s usable paid, same) (rw miss' (rw held' (rw again refl)))

  -- When a request with a claim ends without success (an error status, or a response without a body),
  -- and no earlier response is stored, the next paid request with its key is let through with the claim.
  pub failed_retry :
      (w : World) (k : Text) (j : Job) (t status : ℕ) (body : Text)
      → IsExclusive w
      → lookup k w.running ≡ some j
      → lookup k w.store.cache ≡ none
      → is_success status ≡ false
      → (req : Request) (now : ℕ) → HasKey k req
      → ((pre_check hash now req (step hash (answer t k status body) w).store).1 ≡ next (some k))
        × ((pre_check hash now req (step hash (close k) w).store).1 ≡ next (some k))
  unfolding step
  failed_retry w k j t status body good r miss failed req now own =
      let usable = (good.own k j r).1 in
      (
        rw r (
            pre_check-free now req k _
              (respond_json-IsTable hash t j.request k status body w.store good.table) own
              (ap (lookup k)
                  (respond_json-failed hash t j.request k status body w.store usable failed)
                ∙ miss)
              (respond_json-released hash t j.request k status body w.store usable)),
        rw r (
            pre_check-free now req k _ (respond_end-IsTable j.request k w.store good.table) own
              (ap (lookup k) (respond_end-cache j.request k w.store) ∙ miss)
              (respond_end-released j.request k w.store usable)),
      )
