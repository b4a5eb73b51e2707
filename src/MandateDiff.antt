-- ===== src/MandateDiff.antt =====
-- src/agents/mandate-diff.ts: a trace of tool calls against a signed mandate. Amounts are micro-USDC. The
-- verification of the mandate is Mandate's; the host of a URL (`hostOf`) is an argument. A text is matched
-- against a regular expression by its parts, in small letters. `Math.ceil(n * 0.2)` is exact.
mod Scope
mod Examples
use x402_agent_suite.Base.{
  ℕ, ◌+◌, ◌/◌, Bool, true, false, not, ◌&&◌, ◌||◌, List, [], ◌∷◌, ◌++◌, Option, none, some, Text,
  text, text_eq, is_empty, lower, starts_with, includes, contains, any, every, keep, length, ltb,
  leb, ◌==◌, is_digit, if◌then◌else◌,
}
use x402_agent_suite.Mandate.{
  MandateScope, MandateRecord, MandateCheck, Violation, VerifyResult, mandate_not_found,
  signature_mismatch, mandate_expired, checked, names_merchant,
}

pub record ToolCallTrace : Type 0 where
  pub url : Option Text
  pub amount_usdc : Option ℕ
  pub merchant : Option Text
  pub category : Option Text
  pub rail : Option Text
  pub args_summary : Option Text

pub data DiffCode : Type 0 where
  mandate_invalid scope_expired : DiffCode
  scope_violation : Violation → DiffCode
  suspicious_url affiliate_redirect merchant_not_in_mandate category_not_in_mandate : DiffCode
  rail_not_in_mandate amount_exceeds_mandate instruction_tampering task_intent_drift : DiffCode

abbrev pub is_blocking : DiffCode → Bool
is_blocking affiliate_redirect = false
is_blocking task_intent_drift = false
is_blocking code = true

pub data Tier : Type 0 where
  allow step_up block : Tier

unfoldable pub tier_from_violations : List DiffCode → Tier
tier_from_violations violations =
    if any is_blocking violations then block else elim violations [ [] ↦ allow | v ∷ vs ↦ step_up ]

-- `/[?&](aff|ref|utm_|affiliate)=/i`.
abbrev pub affiliate_names : List Text
affiliate_names = text "aff=" ∷ text "ref=" ∷ text "utm_=" ∷ text "affiliate=" ∷ []

unfoldable pub has_affiliate : Text → Bool
has_affiliate [] = false
has_affiliate (c ∷ s) =
    ((c == b'?' || c == b'&') && any (λ name. starts_with s name) affiliate_names)
    || has_affiliate s

-- `/scam|phish|invalid|fake-wallet/i` and `/prefer store|rewrite url|ignore mandate|override/i`.
abbrev pub includes_one : List Text → Text → Bool
includes_one parts s = any (λ part. includes (lower s) part) parts

abbrev pub suspicious_domains : List Text
suspicious_domains = text "scam" ∷ text "phish" ∷ text "invalid" ∷ text "fake-wallet" ∷ []

abbrev pub overrides : List Text
overrides = text "prefer store" ∷ text "rewrite url" ∷ text "ignore mandate" ∷ text "override" ∷ []

abbrev pub code_if : Bool → DiffCode → List DiffCode
code_if b code = if b then code ∷ [] else []

-- A value that is given and not empty, which a list that is not empty does not admit.
abbrev pub not_admitted : (Text → Bool) → List Text → Option Text → Bool
not_admitted test allowed none = false
not_admitted test [] (some t) = false
not_admitted test (a ∷ allowed) (some t) = not (is_empty t) && not (test t)

abbrev pub over_limit : ℕ → Option ℕ → Bool
over_limit limit none = false
over_limit limit (some amount) = ltb limit amount

abbrev pub tampers : Option Text → Bool
tampers none = false
tampers (some s) = not (is_empty s) && includes_one overrides s

module _ (host_of : Text → Option Text) (scope : MandateScope) where
  abbrev pub host_admitted : Text → Text → Bool
  host_admitted url host =
      any (λ m. includes host (lower m) || includes (lower url) (lower m)) scope.allowed_merchants

  abbrev pub url_violations : Option Text → List DiffCode
  url_violations none = []
  url_violations (some url) =
      if is_empty url
      then []
      else code_if (includes_one suspicious_domains url) suspicious_url
        ++ (code_if (has_affiliate (lower url)) affiliate_redirect
            ++ code_if (not_admitted (host_admitted url) scope.allowed_merchants (host_of url))
                merchant_not_in_mandate)

  unfoldable pub call_violations : ToolCallTrace → List DiffCode
  unfolding has_affiliate
  call_violations call =
      url_violations call.url
      ++ (code_if
            (not_admitted (names_merchant scope.allowed_merchants) scope.allowed_merchants
              call.merchant)
            merchant_not_in_mandate
          ++ (code_if
                (not_admitted (contains scope.allowed_categories) scope.allowed_categories
                  call.category)
                category_not_in_mandate
              ++ (code_if
                    (not_admitted (contains scope.allowed_rails) scope.allowed_rails call.rail)
                    rail_not_in_mandate
                  ++ (code_if (over_limit scope.max_per_tx_usdc call.amount_usdc)
                        amount_exceeds_mandate
                      ++ code_if (tampers call.args_summary) instruction_tampering))))

  unfoldable pub trace_violations : List ToolCallTrace → List DiffCode
  unfolding call_violations
  trace_violations [] = []
  trace_violations (call ∷ calls) = call_violations call ++ trace_violations calls

-- `\w`.
abbrev pub is_word : ℕ → Bool
is_word c = is_digit c || ((leb b'a' c && leb c b'z') || ((leb b'A' c && leb c b'Z') || c == b'_'))

-- `s.split(/\W+/)`; `cur` is the word so far. The empty words between are left to the filter.
unfoldable pub words : Text → Text → List Text
words cur [] = cur ∷ []
words cur (c ∷ s) =
    let longer = words (cur ++ c ∷ []) s in
    let next = cur ∷ words [] s in if is_word c then longer else next

unfoldable pub drifts : Text → Text → Bool
unfolding words
drifts intent task =
    let tokens = keep (λ t. ltb 3 (length t)) (words [] (lower intent)) in
    let overlap = length (keep (λ t. includes (lower task) t) tokens) in
    leb 3 (length tokens) && ltb overlap ((length tokens + 4) / 5)

abbrev pub drift_violations : Option Text → Text → List DiffCode
drift_violations none intent = []
drift_violations (some task) intent =
    if is_empty task || is_empty intent then [] else code_if (drifts intent task) task_intent_drift

pub record MandateDiffInput : Type 0 where
  pub tool_calls : List ToolCallTrace
  pub proposed : Option MandateCheck
  pub task : Option Text

pub record MandateDiffResult : Type 0 where
  pub allowed : Bool
  pub liability_tier : Tier
  pub mandate_valid : Bool
  pub within_mandate_scope : Bool
  pub violations : List DiffCode

abbrev pub is_allow : Tier → Bool
is_allow allow = true
is_allow tier = false

abbrev pub no_violations : List Violation → Bool
no_violations [] = true
no_violations (v ∷ vs) = false

abbrev pub scope_codes : List Violation → List DiffCode
scope_codes [] = []
scope_codes (v ∷ vs) = scope_violation v ∷ scope_codes vs

abbrev pub invalid_result : MandateDiffResult
invalid_result = record {
  allowed = false;
  liability_tier = block;
  mandate_valid = false;
  within_mandate_scope = false;
  violations = mandate_invalid ∷ [];
}

-- From `mandateResult.withinScope` and all violations.
abbrev pub diff_result : Bool → List DiffCode → MandateDiffResult
diff_result within_scope violations =
    let tier = tier_from_violations violations in
    record {
      allowed = is_allow tier;
      liability_tier = tier;
      mandate_valid = true;
      within_mandate_scope = within_scope && every (λ v. not (is_blocking v)) violations;
      violations = violations;
    }

-- The violation of an expired mandate, which only counts with a proposed payment.
abbrev pub expired_codes : Option MandateCheck → List DiffCode
expired_codes none = []
expired_codes (some proposed) = scope_expired ∷ []

-- `runMandateDiff`, from what `verifyMandate(input.mandateId, input.proposed)` says: an expired mandate is valid
-- there and not within its scope. Without a proposed payment a live one has no violations of its scope.
unfoldable pub run_mandate_diff :
    (Text → Option Text) → MandateDiffInput → VerifyResult → MandateDiffResult
unfolding trace_violations drifts tier_from_violations
run_mandate_diff host_of input (checked mandate vs) = diff_result (no_violations vs) (
    scope_codes vs
    ++ (trace_violations host_of mandate.scope input.tool_calls
        ++ drift_violations input.task mandate.intent))
run_mandate_diff host_of input mandate_not_found = invalid_result
run_mandate_diff host_of input (signature_mismatch mandate) = invalid_result
run_mandate_diff host_of input (mandate_expired mandate) = diff_result false (
    expired_codes input.proposed
    ++ (trace_violations host_of mandate.scope input.tool_calls
        ++ drift_violations input.task mandate.intent))
