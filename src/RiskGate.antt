-- ===== src/RiskGate.antt =====
-- src/agents/risk-gate.ts with src/lib/security.ts and src/lib/agentic-gateways.ts: the verdict on a
-- target URL. Amounts are micro-USDC. What a probe of the URL finds is an argument; texts of reasons and
-- recommendations are left out, each reason is one constructor.
mod Verdict
mod Examples
use x402_agent_suite.Base.{
  ℕ, ◌+◌, ◌-◌, ◌*◌, ◌/◌, Bool, true, false, not, ◌&&◌, ◌||◌, List, [], ◌∷◌, ◌++◌, Option, none,
  some, Text, text, text_eq, is_empty, lower, starts_with, ends_with, includes, any, length, keep,
  map, min, ltb, leb, ◌==◌, if◌then◌else◌,
}
use x402_agent_suite.Ssrf.{
  Net, UrlCheck, safe, assert_safe_outbound_url, is_safe_outbound_url, host_of,
}

abbrev pub blocked_host_patterns : List Text
blocked_host_patterns =
    text "localhost"
    ∷ text "127.0.0.1"
    ∷ text "0.0.0.0"
    ∷ text "metadata.google"
    ∷ text "169.254."
    ∷ text "10."
    ∷ text "192.168."
    ∷ []

abbrev pub high_risk_tlds : List Text
high_risk_tlds = text ".tk" ∷ text ".ml" ∷ text ".ga" ∷ text ".cf" ∷ text ".gq" ∷ []

pub data SecurityGrade : Type 0 where
  grade_a grade_b grade_c grade_d grade_f : SecurityGrade

pub data Threat : Type 0 where
  invalid_url blocked_by_ssrf not_https long_hostname : Threat
  blocked_pattern high_risk_tld : Text → Threat

pub record SecurityAssessment : Type 0 where
  pub grade : SecurityGrade
  pub score : ℕ
  pub threats : List Threat

-- What each threat takes off the score of 85.
abbrev pub weight : Threat → ℕ
weight not_https = 25
weight (blocked_pattern p) = 50
weight (high_risk_tld t) = 15
weight long_hostname = 10
weight invalid_url = 0
weight blocked_by_ssrf = 0

unfoldable pub total_weight : List Threat → ℕ
total_weight [] = 0
total_weight (t ∷ threats) = weight t + total_weight threats

unfoldable pub grade_of : ℕ → SecurityGrade
grade_of score =
    if leb 85 score
    then grade_a
    else if leb 70 score
    then grade_b
    else if leb 55 score
    then grade_c
    else if leb 40 score
    then grade_d
    else grade_f

abbrev pub threat_if : Bool → Threat → List Threat
threat_if b t = if b then t ∷ [] else []

unfoldable pub url_threats : Text → Text → List Threat
url_threats url host =
    threat_if (not (starts_with url (text "https://"))) not_https
    ++ (map blocked_pattern (keep (λ p. includes host p) blocked_host_patterns)
        ++ (map high_risk_tld (keep (λ t. ends_with host t) high_risk_tlds)
            ++ threat_if (ltb 80 (length host)) long_hostname))

-- A score below 0 is reported as 0, and has the grade of 0.
abbrev pub assessed : List Threat → SecurityAssessment
assessed threats = record {
  grade = grade_of (85 - total_weight threats);
  score = 85 - total_weight threats;
  threats = threats;
}

abbrev pub failed_assessment : Threat → SecurityAssessment
failed_assessment t = record { grade = grade_f; score = 0; threats = t ∷ [] }

-- `isKnownAgenticGateway` and `isExpectedAgenticGatewayProbeStatus`.
abbrev pub known_agentic_gateway_hosts : List Text
known_agentic_gateway_hosts =
    text "x402.alchemy.com"
    ∷ text "api.cdp.coinbase.com"
    ∷ text "x402.dexter.cash"
    ∷ text "x402.org"
    ∷ []

unfoldable pub is_known_agentic_gateway : Text → Bool
is_known_agentic_gateway host =
    let h = lower host in
    any (λ p. text_eq h p || ends_with h (b'.' ∷ p)) known_agentic_gateway_hosts

abbrev pub is_expected_status : ℕ → Bool
is_expected_status status = status == 401 || (status == 403 || status == 402)

pub record ProbeResult : Type 0 where
  pub status : ℕ
  pub requires_payment : Bool
  pub price_usdc : Option ℕ

pub record RiskGateInput : Type 0 where
  pub target_url : Text
  pub estimated_cost_usdc : Option ℕ
  pub per_call_cap_usdc : Option ℕ
  pub blocked_hosts : List Text

pub data Reason : Type 0 where
  invalid_target : Reason
  unsafe_target : UrlCheck → Reason
  blocked_host unreachable unprotected price_exceeds_cap cost_too_low : Reason
  threat : Threat → Reason

pub record RiskGateResult : Type 0 where
  pub is_safe : Bool
  pub risk_score : ℕ
  pub security_grade : SecurityGrade
  pub reasons : List Reason

abbrev pub reason_if : Bool → Reason → List Reason
reason_if b r = if b then r ∷ [] else []

abbrev pub host_reasons : List Text → Text → List Reason
host_reasons blocked host = reason_if (any (λ h. includes host (lower h)) blocked) blocked_host

unfoldable pub status_reasons : Text → ProbeResult → List Reason
unfolding is_known_agentic_gateway
status_reasons host p =
    if p.status == 0
    then unreachable ∷ []
    else if is_known_agentic_gateway host && is_expected_status p.status
    then []
    else if is_known_agentic_gateway host && leb 500 p.status
    then []
    else reason_if (not p.requires_payment && p.status == 200) unprotected

abbrev pub cap_reasons : Option ℕ → Option ℕ → List Reason
cap_reasons (some price) (some cap) = reason_if (ltb cap price) price_exceeds_cap
cap_reasons _ _ = []

-- `estimated < price * 0.5`.
abbrev pub cost_reasons : Option ℕ → Option ℕ → List Reason
cost_reasons (some estimated) (some price) = reason_if (ltb (2 * estimated) price) cost_too_low
cost_reasons _ _ = []

abbrev pub risk_of : Reason → ℕ
risk_of blocked_host = 80
risk_of unreachable = 50
risk_of unprotected = 15
risk_of price_exceeds_cap = 40
risk_of cost_too_low = 20
risk_of _ = 0

unfoldable pub total_risk : List Reason → ℕ
total_risk [] = 0
total_risk (r ∷ reasons) = risk_of r + total_risk reasons

-- `Math.min(100, Math.round((base + (100 - score)) / 2))`.
unfoldable pub merged_risk : ℕ → ℕ → ℕ
merged_risk base score = min 100 ((base + (100 - score) + 1) / 2)

abbrev pub no_reasons : List Reason → Bool
no_reasons [] = true
no_reasons (r ∷ reasons) = false

abbrev pub refused : Reason → RiskGateResult
refused r = record { is_safe = false; risk_score = 100; security_grade = grade_f; reasons = r ∷ [] }

abbrev pub concluded : List Reason → SecurityAssessment → RiskGateResult
concluded reasons a =
    let all = reasons ++ map threat a.threats in
    let score = merged_risk (total_risk reasons) a.score in
    record {
      is_safe = ltb score 50 && no_reasons all;
      risk_score = score;
      security_grade = a.grade;
      reasons = all;
    }

module _ (net : Net) where
  abbrev pub assess_host : Text → Option Text → SecurityAssessment
  assess_host url none = failed_assessment invalid_url
  assess_host url (some host) =
      if is_empty host
      then failed_assessment invalid_url
      else if not (is_safe_outbound_url net url)
      then failed_assessment blocked_by_ssrf
      else assessed (url_threats url host)

  unfoldable pub assess_url_security : Text → SecurityAssessment
  unfolding url_threats grade_of total_weight is_safe_outbound_url host_of
  assess_url_security url = assess_host url (host_of net url)

  abbrev pub gate_reasons : RiskGateInput → Text → ProbeResult → List Reason
  gate_reasons input host p =
      host_reasons input.blocked_hosts host
      ++ (status_reasons host p
          ++ (cap_reasons p.price_usdc input.per_call_cap_usdc
              ++ cost_reasons input.estimated_cost_usdc p.price_usdc))

  abbrev pub gate_checked : RiskGateInput → Text → ProbeResult → UrlCheck → RiskGateResult
  gate_checked input host p safe =
      concluded (gate_reasons input host p) (assess_url_security input.target_url)
  gate_checked input host p check = refused (unsafe_target check)

  abbrev pub gate_host : RiskGateInput → ProbeResult → Option Text → RiskGateResult
  gate_host input p none = refused invalid_target
  gate_host input p (some host) =
      if is_empty host
      then refused invalid_target
      else gate_checked input host p (assert_safe_outbound_url net input.target_url)

  -- `probe` is what the probe of the URL finds.
  unfoldable pub run_risk_gate : RiskGateInput → ProbeResult → RiskGateResult
  unfolding assess_url_security merged_risk total_risk status_reasons assert_safe_outbound_url
      host_of
  run_risk_gate input probe = gate_host input probe (host_of net input.target_url)
