-- ===== src/Idempotency/Replay.antt =====
-- src/lib/idempotency.ts: what a retry after a success meets.
use mathlib.Core.Path.{subst}
use x402_agent_suite.Base.{
  ℕ, ◌+◌, ◌*◌, ◌<◌, ◌≡◌, refl, sym, ap, ◌∙◌, inl, inr, false, List, [], ◌∷◌, Option, none, some,
  Text, text_eq, text_eq_iff, All, lookup, lookup-remove, Bool-cases, arith,
}
use x402_agent_suite.Idempotency.{
  CacheRow, Store, Request, Answer, next, replayed, key_reused, in_progress, ttl_sec, pre_check,
}
use x402_agent_suite.Idempotency.Pruning.{
  IsTable, claim-IsTable, maybe_prune-cache, maybe_prune-IsTable,
}
use x402_agent_suite.Idempotency.PreCheck.{
  pre_check-hit, pre_check-preserves, pre_check-Claimed, answer_hit-next,
}
use x402_agent_suite.Idempotency.Responses.{respond_json-cache_other, respond_end-cache}
use x402_agent_suite.Idempotency.Exclusive.{
  Job, World, Event, arrive, turn_away, answer, close, turned_away, answered, closed, start,
  end_job, step, run, IsPrompt, IsExclusive,
}
use x402_agent_suite.Idempotency.OneEach.{step-IsExclusive}

-- An arrival before the time `end`; any other event.
abbrev pub IsBefore : ℕ → Event → Type 0
IsBefore end (arrive now req) = now < end
IsBefore end (turn_away k) = Unit
IsBefore end (answer now k status body) = Unit
IsBefore end (close k) = Unit

module _ (hash : Text → Text) (k : Text) (r : CacheRow) where
  -- The response is stored, and no request of its key is in progress.
  pub record IsStored (w : World) : Type 0 where
    pub held : lookup k w.store.cache ≡ some r
    pub idle : lookup k w.running ≡ none

  abbrev pub expiry : ℕ
  expiry = (r.created_at + ttl_sec) * 1000

  start-idle :
      (now : ℕ) (req : Request) (w : World) (a : Answer)
      → IsTable w.store
      → IsStored w
      → now < expiry
      → (pre_check hash now req w.store).1 ≡ a
      → lookup k (start now req a w.running) ≡ none
  unfolding lookup
  start-idle now req w (next (some i)) t st early e = elim (Bool-cases (text_eq i k)) [
    | inr other ↦ rw other st.idle
    | inl same ↦
        let (usable, paid, (key, free, made)) = pre_check-Claimed hash now req i w.store e in
        let hit =
          pre_check-hit hash now req r w.store t usable paid
            (subst (λ i. lookup i w.store.cache ≡ some r) (sym (key ∙ (text_eq_iff i k).0 same))
              st.held)
            early in
        absurd (answer_hit-next hash now req r (some i) (sym hit ∙ e))
  ]
  start-idle now req w (next none) t st early e = st.idle
  start-idle now req w (replayed status body) t st early e = st.idle
  start-idle now req w key_reused t st early e = st.idle
  start-idle now req w in_progress t st early e = st.idle

  arrive-held :
      (now : ℕ) (req : Request) (w : World)
      → IsTable w.store
      → IsStored w
      → now < expiry
      → lookup k (pre_check hash now req w.store).0.cache ≡ some r
  arrive-held now req w t st early =
      (pre_check-preserves hash (λ s. IsTable s × (lookup k s.cache ≡ some r)) now req w.store
        (λ s p. (maybe_prune-IsTable now s p.0, maybe_prune-cache now k r s p.0 p.1 early))
        (λ s free p. (claim-IsTable _ _ s p.0, p.1)) (t, st.held)).1

  end_job-IsStored :
      (f : Text → Job → Store → Store) (i : Text) (o : Option Job) (w : World)
      → lookup i w.running ≡ o
      → IsStored w
      → ((j : Job)
          → lookup i w.running ≡ some j
          → text_eq i k ≡ false
          → lookup k (f i j w.store).cache ≡ some r)
      → IsStored (end_job f i o w)
  end_job-IsStored f i none w e st kept = st
  end_job-IsStored f i (some j) w e st kept =
      let other : text_eq i k ≡ false = elim (Bool-cases (text_eq i k)) [
        | inr other ↦ other
        | inl same ↦
            let gone = subst (λ i. lookup i w.running ≡ some j) ((text_eq_iff i k).0 same) e in
            let idle = st.idle in ground (arith, gone, idle)
      ] in
      record {
        held = kept j e other;
        idle = lookup-remove i k w.running ∙ rw (other, st.idle) refl;
      }

  step-IsStored :
      (e : Event) (w : World)
      → IsExclusive w
      → IsBefore expiry e
      → IsStored w
      → IsStored (step hash e w)
  unfolding step
  step-IsStored (arrive now req) w good early st = record {
    held = arrive-held now req w good.table st early;
    idle = start-idle now req w (pre_check hash now req w.store).1 good.table st early refl;
  }
  step-IsStored (turn_away i) w good early st =
      end_job-IsStored turned_away i _ w refl st (λ j e other. st.held)
  step-IsStored (answer now i status body) w good early st =
      end_job-IsStored (answered hash now status body) i _ w refl st (λ j e other.
        let own = good.own i j e in
        respond_json-cache_other hash now j.request i status body k w.store own.1 (rw own.0 other)
        ∙ st.held)
  step-IsStored (close i) w good early st =
      end_job-IsStored closed i _ w refl st
        (λ j e other. ap (lookup k) (respond_end-cache j.request i w.store) ∙ st.held)

  pub run-IsStored :
      (es : List Event) (w : World)
      → IsPrompt hash es w
      → All (IsBefore expiry) es
      → IsExclusive w
      → IsStored w
      → IsExclusive (run hash es w) × IsStored (run hash es w)
  unfolding run
  run-IsStored [] w prompt early good st = (good, st)
  run-IsStored (e ∷ es) w prompt early good st =
      run-IsStored es (step hash e w) prompt.1 early.1 (step-IsExclusive hash e w prompt.0 good)
        (step-IsStored e w good early.0 st)
