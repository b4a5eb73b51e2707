-- ===== src/Idempotency/Responses.antt =====
-- src/lib/idempotency.ts: what `idempotencyCapture` does to the tables when a response ends.
use x402_agent_suite.Base.{
  ℕ, ◌≡◌, refl, ap, ◌∙◌, inl, inr, true, false, ◌&&◌, none, some, Text, text_eq, lookup, remove,
  lookup-insert, lookup-insert_self, lookup-remove, lookup-remove_self, IsUnique-insert,
  IsUnique-remove, Bool-cases, if◌then◌else◌,
}
use x402_agent_suite.X402Headers.{has_payment_signature_header}
use x402_agent_suite.Idempotency.{
  Store, Request, released, cache_key, key_of, is_usable, respond_json, respond_end, captured,
  row_of, is_success,
}
use x402_agent_suite.Idempotency.Pruning.{IsTable}

released-IsTable : (k : Text) (s : Store) → IsTable s → IsTable (released k s)
released-IsTable k s t = record {
  cache_unique = t.cache_unique;
  inflight_unique = IsUnique-remove k s.inflight t.inflight_unique;
}

released-other :
    (k i : Text) (s : Store)
    → text_eq k i ≡ false
    → lookup i (released k s).inflight ≡ lookup i s.inflight
released-other k i s other = rw (lookup-remove k i s.inflight, other) refl

pub respond_end-IsTable :
    (req : Request) (k : Text) (s : Store) → IsTable s → IsTable (respond_end req (some k) s)
unfolding respond_end
respond_end-IsTable req k s t = elim (Bool-cases (is_usable (key_of req))) [
  | inl usable ↦ rw usable (released-IsTable k s t)
  | inr short ↦ rw short t
]

pub respond_end-other :
    (req : Request) (k i : Text) (s : Store)
    → text_eq k i ≡ false
    → lookup i (respond_end req (some k) s).inflight ≡ lookup i s.inflight
unfolding respond_end
respond_end-other req k i s other = elim (Bool-cases (is_usable (key_of req))) [
  | inl usable ↦ rw usable (released-other k i s other)
  | inr short ↦ rw short refl
]

module _ (hash : Text → Text) (now : ℕ) (req : Request) (k : Text) (status : ℕ) (body : Text) where
  -- The tables when `res.json` has stored a successful response of a paid request.
  abbrev pub stored : Store → Store
  stored s =
      if is_success status && has_payment_signature_header req.headers
      then captured hash now req status body s
      else s

  stored-IsTable : (s : Store) → IsTable s → IsTable (stored s)
  stored-IsTable s t =
      elim (Bool-cases (is_success status && has_payment_signature_header req.headers)) [
        | inl good ↦ rw good (record {
          cache_unique = IsUnique-insert _ _ s.cache t.cache_unique;
          inflight_unique = t.inflight_unique;
        })
        | inr bad ↦ rw bad t
      ]

  stored-inflight : (s : Store) → (stored s).inflight ≡ s.inflight
  stored-inflight s =
      elim (Bool-cases (is_success status && has_payment_signature_header req.headers)) [
        | inl good ↦ rw good refl
        | inr bad ↦ rw bad refl
      ]

  pub respond_json-IsTable :
      (s : Store) → IsTable s → IsTable (respond_json hash now req (some k) status body s)
  unfolding respond_json
  respond_json-IsTable s t = elim (Bool-cases (is_usable (key_of req))) [
    | inl usable ↦ rw usable (released-IsTable k _ (released-IsTable k _ (stored-IsTable s t)))
    | inr short ↦ rw short t
  ]

  pub respond_json-other :
      (i : Text) (s : Store)
      → text_eq k i ≡ false
      → lookup i (respond_json hash now req (some k) status body s).inflight ≡ lookup i s.inflight
  unfolding respond_json
  respond_json-other i s other = elim (Bool-cases (is_usable (key_of req))) [
    | inl usable ↦ rw usable (
        released-other k i (released k (stored s)) other
        ∙ (released-other k i (stored s) other ∙ rw (stored-inflight s) refl))
    | inr short ↦ rw short refl
  ]

  pub respond_json-released :
      (s : Store)
      → is_usable (key_of req) ≡ true
      → lookup k (respond_json hash now req (some k) status body s).inflight ≡ none
  unfolding respond_json
  respond_json-released s usable = rw usable (lookup-remove_self k (remove k (stored s).inflight))

  pub respond_json-cache :
      (s : Store)
      → is_usable (key_of req) ≡ true
      → (respond_json hash now req (some k) status body s).cache ≡ (stored s).cache
  unfolding respond_json
  respond_json-cache s usable = rw usable refl

  -- A response is stored under its own cache key only.
  pub respond_json-cache_other :
      (i : Text) (s : Store)
      → is_usable (key_of req) ≡ true
      → text_eq (cache_key req.path (key_of req)) i ≡ false
      → lookup i (respond_json hash now req (some k) status body s).cache ≡ lookup i s.cache
  respond_json-cache_other i s usable other =
      ap (lookup i) (respond_json-cache s usable)
      ∙ elim (Bool-cases (is_success status && has_payment_signature_header req.headers)) [
        | inl good ↦ rw good (
            lookup-insert (cache_key req.path (key_of req)) i (row_of hash now req status body)
              s.cache
            ∙ rw other refl)
        | inr bad ↦ rw bad refl
      ]

  pub respond_json-stored :
      (s : Store)
      → is_usable (key_of req) ≡ true
      → has_payment_signature_header req.headers ≡ true
      → is_success status ≡ true
      → lookup
          (cache_key req.path (key_of req))
          (respond_json hash now req (some k) status body s).cache
        ≡ some (row_of hash now req status body)
  respond_json-stored s usable paid good =
      ap (lookup (cache_key req.path (key_of req))) (respond_json-cache s usable)
      ∙ rw (good, paid)
          (lookup-insert_self (cache_key req.path (key_of req)) (row_of hash now req status body)
            s.cache)

  pub respond_json-failed :
      (s : Store)
      → is_usable (key_of req) ≡ true
      → is_success status ≡ false
      → (respond_json hash now req (some k) status body s).cache ≡ s.cache
  respond_json-failed s usable failed = respond_json-cache s usable ∙ rw failed refl

pub respond_end-released :
    (req : Request) (k : Text) (s : Store)
    → is_usable (key_of req) ≡ true
    → lookup k (respond_end req (some k) s).inflight ≡ none
unfolding respond_end
respond_end-released req k s usable = rw usable (lookup-remove_self k s.inflight)

pub respond_end-cache :
    (req : Request) (k : Text) (s : Store) → (respond_end req (some k) s).cache ≡ s.cache
unfolding respond_end
respond_end-cache req k s = elim (Bool-cases (is_usable (key_of req))) [
  | inl usable ↦ rw usable refl
  | inr short ↦ rw short refl
]
