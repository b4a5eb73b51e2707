-- ===== src/Idempotency/Blocked.antt =====
-- src/lib/idempotency.ts and `createPost` of src/routes/shared.ts: a claim that nobody releases.
use mathlib.Core.Path.{subst}
use x402_agent_suite.Base.{
  ℕ, ◌+◌, ◌≤◌, ◌≡◌, refl, sym, ap, ◌∙◌, inl, inr, false, List, [], ◌∷◌, Option, none, some, Text,
  text_eq, text_eq_iff, All, lookup, lookup-remove, lookup-remove_self, Bool-cases, arith,
}
use x402_agent_suite.Idempotency.{
  Store, Request, Answer, next, replayed, key_reused, in_progress, seconds, maybe_prune, pre_check,
}
use x402_agent_suite.Idempotency.Pruning.{
  IsTable, claim-IsTable, maybe_prune-IsTable, maybe_prune-inflight, maybe_prune-uncached,
}
use x402_agent_suite.Idempotency.PreCheck.{pre_check-preserves, pre_check-Claimed}
use x402_agent_suite.Idempotency.Responses.{
  respond_json-other, respond_json-cache_other, respond_end-other, respond_end-cache,
}
use x402_agent_suite.Idempotency.Exclusive.{
  Job, World, Event, arrive, turn_away, answer, close, turned_away, answered, closed, start,
  end_job, step, run, after-held, IsPrompt, IsExclusive,
}
use x402_agent_suite.Idempotency.OneEach.{step-IsExclusive}
use x402_agent_suite.Idempotency.Promises.{HasKey}
use x402_agent_suite.Idempotency.Retries.{pre_check-held}

-- An arrival at most an hour after the second `c`; any other event.
abbrev pub IsWithinHour : ℕ → Event → Type 0
IsWithinHour c (arrive now req) = seconds now ≤ c + 3600
IsWithinHour c (turn_away k) = Unit
IsWithinHour c (answer now k status body) = Unit
IsWithinHour c (close k) = Unit

module _ (hash : Text → Text) (k : Text) (c : ℕ) where
  -- The key is claimed, though no request of it is in progress, and no response of it is stored.
  record IsStuck (w : World) : Type 0 where
    held : lookup k w.store.inflight ≡ some c
    miss : lookup k w.store.cache ≡ none
    idle : lookup k w.running ≡ none

  start-idle :
      (now : ℕ) (req : Request) (w : World) (a : Answer)
      → IsTable w.store
      → IsStuck w
      → seconds now ≤ c + 3600
      → (pre_check hash now req w.store).1 ≡ a
      → lookup k (start now req a w.running) ≡ none
  unfolding lookup
  start-idle now req w (next (some i)) t st young e = elim (Bool-cases (text_eq i k)) [
    | inr other ↦ rw other st.idle
    | inl same ↦
        let (usable, paid, (key, free, made)) = pre_check-Claimed hash now req i w.store e in
        let held = maybe_prune-inflight now c k w.store t st.held young in
        absurd (clash i free held ((text_eq_iff i k).0 same))
  ]
    where
      clash :
          (i : Text)
          → lookup i (maybe_prune now w.store).inflight ≡ none
          → lookup k (maybe_prune now w.store).inflight ≡ some c
          → i ≡ k
          → ⊥
      clash i free held same =
          let wrong = sym (ap (λ j. lookup j (maybe_prune now w.store).inflight) same) ∙ free in
          ground (arith, wrong, held)
  start-idle now req w (next none) t st young e = st.idle
  start-idle now req w (replayed status body) t st young e = st.idle
  start-idle now req w key_reused t st young e = st.idle
  start-idle now req w in_progress t st young e = st.idle

  arrive-miss :
      (now : ℕ) (req : Request) (w : World)
      → IsTable w.store
      → IsStuck w
      → lookup k (pre_check hash now req w.store).0.cache ≡ none
  arrive-miss now req w t st =
      (pre_check-preserves hash (λ s. IsTable s × (lookup k s.cache ≡ none)) now req w.store
        (λ s p. (maybe_prune-IsTable now s p.0, maybe_prune-uncached now k s p.0 p.1))
        (λ s free p. (claim-IsTable _ _ s p.0, p.1)) (t, st.miss)).1

  end_job-IsStuck :
      (f : Text → Job → Store → Store) (i : Text) (o : Option Job) (w : World)
      → lookup i w.running ≡ o
      → IsStuck w
      → ((j : Job)
          → lookup i w.running ≡ some j
          → text_eq i k ≡ false
          → (lookup k (f i j w.store).inflight ≡ lookup k w.store.inflight)
            × (lookup k (f i j w.store).cache ≡ lookup k w.store.cache))
      → IsStuck (end_job f i o w)
  end_job-IsStuck f i none w e st kept = st
  end_job-IsStuck f i (some j) w e st kept =
      let other : text_eq i k ≡ false = elim (Bool-cases (text_eq i k)) [
        | inr other ↦ other
        | inl same ↦
            let gone = subst (λ i. lookup i w.running ≡ some j) ((text_eq_iff i k).0 same) e in
            let idle = st.idle in ground (arith, gone, idle)
      ] in
      let (claims, rows) = kept j e other in
      record {
        held = claims ∙ st.held;
        miss = rows ∙ st.miss;
        idle = lookup-remove i k w.running ∙ rw (other, st.idle) refl;
      }

  step-IsStuck :
      (e : Event) (w : World)
      → IsExclusive w
      → IsWithinHour c e
      → IsStuck w
      → IsStuck (step hash e w)
  unfolding step
  step-IsStuck (arrive now req) w good young st = record {
    held = after-held hash now req w good k c st.held young;
    miss = arrive-miss now req w good.table st;
    idle = start-idle now req w (pre_check hash now req w.store).1 good.table st young refl;
  }
  step-IsStuck (turn_away i) w good young st =
      end_job-IsStuck turned_away i _ w refl st (λ j e other. (refl, refl))
  step-IsStuck (answer now i status body) w good young st =
      end_job-IsStuck (answered hash now status body) i _ w refl st (λ j e other.
        let own = good.own i j e in
        (
          respond_json-other hash now j.request i status body k w.store other,
          respond_json-cache_other hash now j.request i status body k w.store own.1
              (rw own.0 other),
        ))
  step-IsStuck (close i) w good young st = end_job-IsStuck closed i _ w refl st (λ j e other. (
    respond_end-other j.request i k w.store other,
    ap (lookup k) (respond_end-cache j.request i w.store),
  ))

  run-IsStuck :
      (es : List Event) (w : World)
      → IsPrompt hash es w
      → All (IsWithinHour c) es
      → IsExclusive w
      → IsStuck w
      → IsExclusive (run hash es w) × IsStuck (run hash es w)
  unfolding run
  run-IsStuck [] w prompt young good st = (good, st)
  run-IsStuck (e ∷ es) w prompt young good st =
      run-IsStuck es (step hash e w) prompt.1 young.1 (step-IsExclusive hash e w prompt.0 good)
        (step-IsStuck e w good young.0 st)

module _ (hash : Text → Text) where
  turn_away-IsStuck :
      (w : World) (k : Text) (j : Job)
      → IsExclusive w
      → lookup k w.running ≡ some j
      → lookup k w.store.cache ≡ none
      → IsStuck hash k (seconds j.started) (step hash (turn_away k) w)
  unfolding step
  turn_away-IsStuck w k j good r miss =
      rw r (record { held = good.holds k j r; miss = miss; idle = lookup-remove_self k w.running })

  -- When the payment middleware turns a request away after `idempotencyPreCheck` let it through with a claim,
  -- and no earlier response is stored, the claim stays. Whatever events follow, if none of the arrivals is later
  -- than an hour after the request's and none comes while another request that was let through is more than
  -- an hour old: no request with its key is in progress, and every paid request with its key that comes within
  -- the hour, the first as well as any later one, is refused as already in progress. (Before the refusal
  -- every request in progress holds its own claim.)
  pub turn_away_blocks :
      (w : World) (k : Text) (j : Job)
      → IsExclusive w
      → lookup k w.running ≡ some j
      → lookup k w.store.cache ≡ none
      → (es : List Event) → IsPrompt hash es (step hash (turn_away k) w)
      → All (IsWithinHour (seconds j.started)) es
      → (req : Request) (now : ℕ) → HasKey k req
      → seconds now ≤ seconds j.started + 3600
      → let w' = run hash es (step hash (turn_away k) w) in
        (lookup k w'.running ≡ none) × ((pre_check hash now req w'.store).1 ≡ in_progress)
  turn_away_blocks w k j good r miss es prompt early req now own young =
      let c = seconds j.started in
      let w1 = step hash (turn_away k) w in
      let (good', st) =
        run-IsStuck hash k c es w1 prompt early (step-IsExclusive hash (turn_away k) w tt good)
          (turn_away-IsStuck w k j good r miss) in
      (
        st.idle,
        pre_check-held hash now c req k (run hash es w1).store good'.table own st.miss st.held
            young,
      )
