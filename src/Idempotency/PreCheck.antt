-- ===== src/Idempotency/PreCheck.antt =====
-- src/lib/idempotency.ts: what `idempotencyPreCheck` does to the tables, and when it claims a key.
use mathlib.Core.Path.{subst}
use x402_agent_suite.Base.{
  ℕ, ◌+◌, ◌*◌, ◌<◌, ◌≡◌, refl, sym, ap, ◌∙◌, inl, inr, ◌≢◌, true, false, Option, none, some, Text,
  lookup, insert, lookup-insert_self, Bool-cases, Option-cases, arith,
}
use x402_agent_suite.X402Headers.{has_payment_signature_header}
use x402_agent_suite.Idempotency.{
  ttl_sec, CacheRow, Store, Request, Answer, next, seconds, maybe_prune, load_hit, cache_key,
  key_of, is_usable, try_claim_in_flight, pre_check, answer_lookup, answer_claim, answer_retry,
  answer_hit,
}
use x402_agent_suite.Idempotency.Pruning.{IsTable, load_hit-lookup}

answer_retry-store :
    (hash : Text → Text) (req : Request) (s : Store) (o : Option CacheRow)
    → (answer_retry hash req (s, o)).0 ≡ s
answer_retry-store hash req s none = refl
answer_retry-store hash req s (some r) = refl

module _ (hash : Text → Text) (P : Store → Type 0) (now : ℕ) (req : Request) where
  abbrev pub Prunes : Type 0
  Prunes = (s : Store) → P s → P (maybe_prune now s)

  abbrev pub Claims : Type 0
  Claims =
      (s : Store)
      → lookup (cache_key req.path (key_of req)) s.inflight ≡ none
      → P s
      → P (record s {
        inflight = insert (cache_key req.path (key_of req)) (seconds now) s.inflight;
      })

  answer_claim-preserves :
      (s : Store)
      → Prunes
      → Claims
      → P s
      → P
          (answer_claim hash now req
            (cache_key req.path (key_of req))
            (try_claim_in_flight now (cache_key req.path (key_of req)) s)).0
  unfolding try_claim_in_flight load_hit
  answer_claim-preserves s prunes claims p =
      elim (Option-cases (lookup (cache_key req.path (key_of req)) s.inflight)) [
        | inl free ↦ rw free (claims s free p)
        | inr (t, taken) ↦
            rw (taken, answer_retry-store hash req (maybe_prune now s) _) (prunes s p)
      ]

  -- What the pruning and a new claim keep, `idempotencyPreCheck` keeps.
  pub pre_check-preserves : (s : Store) → Prunes → Claims → P s → P (pre_check hash now req s).0
  unfolding pre_check load_hit
  pre_check-preserves s prunes claims p = elim (Bool-cases (is_usable (key_of req))) [
    | inr short ↦ rw short p
    | inl usable ↦ elim (Bool-cases (has_payment_signature_header req.headers)) [
      | inr free ↦ rw (usable, free) p
      | inl paid ↦ elim (Option-cases (load_hit now (cache_key req.path (key_of req)) s).1) [
        | inl miss ↦
            rw (usable, paid, miss)
              (answer_claim-preserves (maybe_prune now s) prunes claims (prunes s p))
        | inr (r, hit) ↦ rw (usable, paid, hit) (prunes s p)
      ]
    ]
  ]

module _ (hash : Text → Text) (now : ℕ) (req : Request) where
  pub answer_hit-next : (r : CacheRow) (o : Option Text) → answer_hit hash req r ≢ next o
  answer_hit-next r o h = ground arith

  answer_retry-next :
      (p : Store × Option CacheRow) (o : Option Text) → (answer_retry hash req p).1 ≢ next o
  answer_retry-next (s, some r) o h = answer_hit-next r o h
  answer_retry-next (s, none) o h = ground arith

  pub pre_check-short :
      (s : Store) → is_usable (key_of req) ≡ false → pre_check hash now req s ≡ (s, next none)
  unfolding pre_check
  pre_check-short s short = rw short refl

  pub pre_check-unpaid :
      (s : Store)
      → has_payment_signature_header req.headers ≡ false
      → pre_check hash now req s ≡ (s, next none)
  unfolding pre_check
  pre_check-unpaid s unpaid = elim (Bool-cases (is_usable (key_of req))) [
    | inl usable ↦ rw (usable, unpaid) refl
    | inr short ↦ rw short refl
  ]

  pub pre_check-paid :
      (s : Store)
      → is_usable (key_of req) ≡ true
      → has_payment_signature_header req.headers ≡ true
      → let k = cache_key req.path (key_of req) in
        pre_check hash now req s ≡ answer_lookup hash now req k (load_hit now k s)
  unfolding pre_check
  pre_check-paid s usable paid = rw (usable, paid) refl

  -- The request goes on with the claim `j`, made on the tables `s`.
  abbrev pub Claimed : Text → Store → Store × Answer → Type 0
  Claimed j s (t, a) =
      (cache_key req.path (key_of req) ≡ j)
      × (lookup j s.inflight ≡ none)
      × (lookup j t.inflight ≡ some (seconds now))

  answer_claim-Claimed :
      (j : Text) (s : Store)
      → let r =
          answer_claim hash now req
            (cache_key req.path (key_of req))
            (try_claim_in_flight now (cache_key req.path (key_of req)) s) in
        r.1 ≡ next (some j) → Claimed j s r
  unfolding try_claim_in_flight
  answer_claim-Claimed j s =
      let k = cache_key req.path (key_of req) in
      elim (Option-cases (lookup k s.inflight)) [
        | inl free ↦ rw free (λ e.
            let same : k ≡ j = cc e in
            (
              same,
              subst (λ i. lookup i s.inflight ≡ none) same free,
              subst (λ i. lookup i (insert k (seconds now) s.inflight) ≡ some (seconds now)) same
                  (lookup-insert_self k (seconds now) s.inflight),
            ))
        | inr (t, taken) ↦ rw taken (λ e. absurd (answer_retry-next _ _ e))
      ]

  answer_lookup-Claimed :
      (j : Text) (s : Store) (o : Option CacheRow)
      → let r = answer_lookup hash now req (cache_key req.path (key_of req)) (s, o) in
        r.1 ≡ next (some j) → Claimed j s r
  answer_lookup-Claimed j s none e = answer_claim-Claimed j s e
  answer_lookup-Claimed j s (some r) e = absurd (answer_hit-next r _ e)

  pub pre_check-Claimed :
      (j : Text) (s : Store)
      → (pre_check hash now req s).1 ≡ next (some j)
      → (is_usable (key_of req) ≡ true)
        × (has_payment_signature_header req.headers ≡ true)
        × Claimed j (maybe_prune now s) (pre_check hash now req s)
  unfolding load_hit
  pre_check-Claimed j s e = elim (Bool-cases (is_usable (key_of req))) [
    | inr short ↦ let f = pre_check-short s short in ground (arith, e, f)
    | inl usable ↦ elim (Bool-cases (has_payment_signature_header req.headers)) [
      | inr unpaid ↦ let f = pre_check-unpaid s unpaid in ground (arith, e, f)
      | inl paid ↦ (
        usable,
        paid,
        subst (λ r. r.1 ≡ next (some j) → Claimed j (maybe_prune now s) r)
            (sym (pre_check-paid s usable paid)) (answer_lookup-Claimed j (maybe_prune now s) _) e,
      )
    ]
  ]

  -- A stored response that has not expired decides the answer.
  pub pre_check-hit :
      (r : CacheRow) (s : Store)
      → IsTable s
      → is_usable (key_of req) ≡ true
      → has_payment_signature_header req.headers ≡ true
      → lookup (cache_key req.path (key_of req)) s.cache ≡ some r
      → now < (r.created_at + ttl_sec) * 1000
      → (pre_check hash now req s).1 ≡ answer_hit hash req r
  pre_check-hit r s t usable paid held fresh =
      let k = cache_key req.path (key_of req) in
      let hit : (load_hit now k s).1 ≡ some r = load_hit-lookup now k s t ∙ rw held ground arith in
      rw (pre_check-paid s usable paid)
        (ap (λ o. (answer_lookup hash now req k ((load_hit now k s).0, o)).1) hit)
