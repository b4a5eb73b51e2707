-- ===== src/MandateDiff/Scope.antt =====
-- src/agents/mandate-diff.ts: what an allowed trace means for src/lib/mandate.ts.
use x402_agent_suite.Base.{
  ℕ, ◌≡◌, refl, sym, ap, ◌∙◌, ◌⊎◌, inl, inr, Bool, true, false, List, [], ◌∷◌, nil-append, Option,
  none, some, Text, is_empty, Dict, any, All, All-imp, ltb, Bool-cases, arith,
}
use x402_agent_suite.Mandate.{
  MandateScope, MandateRecord, MandateCrypto, MandateCheck, Violation, merchant_not_allowed,
  category_not_allowed, rail_not_allowed, VerifyResult, mandate_not_found, signature_mismatch,
  mandate_expired, checked, signatures_equal, canonical, is_past, over_amount, unlisted,
  violations_of, verify_record, verify_mandate,
}
use x402_agent_suite.MandateDiff.{
  ToolCallTrace, DiffCode, tier_from_violations, is_blocking, code_if, expired_codes, not_admitted,
  over_limit, url_violations, call_violations, trace_violations, scope_codes, is_allow,
  MandateDiffInput, run_mandate_diff,
}

-- A call as a payment of its own; one without an amount is a payment of 0.
abbrev pub amount_or_zero : Option ℕ → ℕ
amount_or_zero none = 0
amount_or_zero (some amount) = amount

abbrev pub check_of : ToolCallTrace → MandateCheck
check_of call = record {
  amount_usdc = amount_or_zero call.amount_usdc;
  merchant = call.merchant;
  category = call.category;
  rail = call.rail;
}

allow_nil : (vs : List DiffCode) → is_allow (tier_from_violations vs) ≡ true → vs ≡ []
unfolding tier_from_violations
allow_nil [] h = refl
allow_nil (v ∷ vs) h = elim (Bool-cases (any is_blocking (v ∷ vs))) [
  | inl blocking ↦ absurd (let wrong = rw blocking at h in ground (arith, wrong))
  | inr mild ↦ absurd (let wrong = rw mild at h in ground (arith, wrong))
]

code_if-nil : (b : Bool) (code : DiffCode) → code_if b code ≡ [] → b ≡ false
code_if-nil true code h = absurd (ground (arith, h))
code_if-nil false code h = refl

scope_codes-nil : (vs : List Violation) → scope_codes vs ≡ [] → vs ≡ []
scope_codes-nil [] h = refl
scope_codes-nil (v ∷ vs) h = absurd (ground (arith, h))

admitted_listed :
    (v : Violation) (test : Text → Bool) (allowed : List Text) (o : Option Text)
    → not_admitted test allowed o ≡ false
    → unlisted v test allowed o ≡ []
admitted_listed v test allowed none h = refl
admitted_listed v test [] (some t) h = refl
admitted_listed v test (a ∷ allowed) (some t) h = elim (Bool-cases (is_empty t)) [
  | inl empty ↦ rw empty refl
  | inr filled ↦ elim (Bool-cases (test t)) [
    | inl good ↦ rw (filled, good) refl
    | inr bad ↦ absurd (let wrong = rw (filled, bad) at h in ground (arith, wrong))
  ]
]

within_limit :
    (scope : MandateScope) (o : Option ℕ)
    → over_limit scope.max_per_tx_usdc o ≡ false
    → over_amount scope (amount_or_zero o) ≡ []
within_limit scope none h =
    let below : ltb scope.max_per_tx_usdc 0 ≡ false = ground arith in rw below refl
within_limit scope (some amount) h = rw h refl

module _ (host_of : Text → Option Text) (scope : MandateScope) where
  call_covered :
      (call : ToolCallTrace)
      → call_violations host_of scope call ≡ []
      → violations_of scope (some (check_of call)) ≡ []
  unfolding call_violations violations_of
  call_covered call h =
      let (_, rest) = (nil-append (url_violations host_of scope call.url) _).0 h in
      let (merchant, rest1) = (nil-append _ _).0 rest in
      let (category, rest2) = (nil-append _ _).0 rest1 in
      let (rail, rest3) = (nil-append _ _).0 rest2 in
      let (amount, _) = (nil-append _ _).0 rest3 in
      (nil-append _ _).1 (
        within_limit scope call.amount_usdc (code_if-nil _ _ amount),
        (nil-append _ _).1 (
          admitted_listed merchant_not_allowed _ scope.allowed_merchants call.merchant
              (code_if-nil _ _ merchant),
          (nil-append _ _).1 (
            admitted_listed category_not_allowed _ scope.allowed_categories call.category
                (code_if-nil _ _ category),
            admitted_listed rail_not_allowed _ scope.allowed_rails call.rail (code_if-nil _ _ rail),
          ),
        ),
      )

  trace_covered :
      (calls : List ToolCallTrace)
      → trace_violations host_of scope calls ≡ []
      → All (λ call. violations_of scope (some (check_of call)) ≡ []) calls
  unfolding trace_violations
  trace_covered [] h = tt
  trace_covered (call ∷ calls) h =
      let (now, later) = (nil-append (call_violations host_of scope call) _).0 h in
      (call_covered call now, trace_covered calls later)

expired_codes-nil : (o : Option MandateCheck) → expired_codes o ≡ [] → o ≡ none
expired_codes-nil none h = refl
expired_codes-nil (some p) h = absurd (ground (arith, h))

-- Every call, as a payment of its own, has no violation under the record.
abbrev pub AreWithinScope : MandateRecord → List ToolCallTrace → Type 0
AreWithinScope r calls = All (λ call. violations_of r.scope (some (check_of call)) ≡ []) calls

-- An allowed comparison: the mandate was checked, without a violation, or it had expired and nothing was
-- proposed.
allowed_checked :
    (host_of : Text → Option Text) (input : MandateDiffInput) (result : VerifyResult)
    → (run_mandate_diff host_of input result).allowed ≡ true
    → (r : MandateRecord) × ((result ≡ checked r [])
        ⊎ ((result ≡ mandate_expired r) × (input.proposed ≡ none)))
      × AreWithinScope r input.tool_calls
unfolding run_mandate_diff
allowed_checked host_of input mandate_not_found h = absurd (ground (arith, h))
allowed_checked host_of input (signature_mismatch r) h = absurd (ground (arith, h))
allowed_checked host_of input (mandate_expired r) h =
    let (proposed, rest) = (nil-append (expired_codes input.proposed) _).0 (allow_nil _ h) in
    let (trace, _) = (nil-append (trace_violations host_of r.scope input.tool_calls) _).0 rest in
    (
      r,
      inr (refl, expired_codes-nil input.proposed proposed),
      trace_covered host_of r.scope input.tool_calls trace,
    )
allowed_checked host_of input (checked r vs) h =
    let (proposed, rest) = (nil-append (scope_codes vs) _).0 (allow_nil _ h) in
    let (trace, _) = (nil-append (trace_violations host_of r.scope input.tool_calls) _).0 rest in
    (
      r,
      inl (ap (checked r) (scope_codes-nil vs proposed)),
      trace_covered host_of r.scope input.tool_calls trace,
    )

-- Whatever is proposed, the same record is checked.
module _ (k : MandateCrypto) (now : ℕ) (p q : Option MandateCheck) (r : MandateRecord) where
  rechecked :
      (vs : List Violation) (row : Option MandateRecord)
      → verify_record k now p row ≡ checked r vs
      → verify_record k now q row ≡ checked r (violations_of r.scope q)
  rechecked vs none h = absurd (ground (arith, h))
  rechecked vs (some s) h =
      elim (Bool-cases (signatures_equal k (k.sign (canonical s)) s.signature)) [
        | inr forged ↦ absurd (let wrong = rw forged at h in ground (arith, wrong))
        | inl genuine ↦ elim (Bool-cases (is_past now s.scope.expires_at)) [
          | inl past ↦ absurd (let wrong = rw (genuine, past) at h in ground (arith, wrong))
          | inr running ↦
              let same : s ≡ r = let e = rw (genuine, running) at h in ground (arith, e) in
              rw (genuine, running) (rw same refl)
        ]
      ]

module _ (k : MandateCrypto) (legacy : Option (List MandateRecord)) (now : ℕ) (version id : Text)
    (table : Dict MandateRecord) where
  -- The payment is within the scope of the mandate, for `verifyMandate`.
  abbrev pub IsWithinMandate : Option MandateCheck → Type 0
  IsWithinMandate p =
      (r : MandateRecord) × ((verify_mandate k legacy now version id p table).1 ≡ checked r [])

  -- The mandate is found expired, and every call of the trace is within its scope apart from that.
  abbrev pub HasExpired : List ToolCallTrace → Type 0
  HasExpired calls =
      (r : MandateRecord) × ((verify_mandate k legacy now version id none table).1
        ≡ mandate_expired r)
      × AreWithinScope r calls

  -- When the comparison with the mandate allows a trace, `verifyMandate` finds the proposed payment, if there is
  -- one, within the mandate's scope, and would find so for every call of the trace proposed as a payment of
  -- its own, where a call without an amount counts as a payment of 0. The one exception: nothing is proposed and
  -- the mandate has expired; then every call keeps the limit and the lists of the scope, and the trace is
  -- allowed although `verifyMandate` finds the mandate expired.
  pub allowed-IsWithinMandate :
      (host_of : Text → Option Text) (input : MandateDiffInput)
      → (run_mandate_diff host_of input
          (verify_mandate k legacy now version id input.proposed table).1).allowed
        ≡ true
      → (IsWithinMandate input.proposed
          × All (λ call. IsWithinMandate (some (check_of call))) input.tool_calls)
        ⊎ ((input.proposed ≡ none) × HasExpired input.tool_calls)
  unfolding verify_mandate
  allowed-IsWithinMandate host_of input h =
      let (r, valid, covered) =
        allowed_checked host_of input
          (verify_mandate k legacy now version id input.proposed table).1 h in
      elim valid [
        | inl found ↦ inl (
          (r, found),
          All-imp
              (λ call e. (
                r,
                rechecked k now input.proposed (some (check_of call)) r [] _ found
                    ∙ ap (checked r) e,
              ))
              input.tool_calls covered,
        )
        | inr (late, nothing) ↦
            let found =
              ap (λ p. (verify_mandate k legacy now version id p table).1) (sym nothing) in
            inr (nothing, (r, found ∙ late, covered))
      ]
