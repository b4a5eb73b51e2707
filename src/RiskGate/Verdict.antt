-- ===== src/RiskGate/Verdict.antt =====
-- src/agents/risk-gate.ts: what is known of a target that the gate calls safe.
use x402_agent_suite.Base.{
  ℕ, ◌-◌, ◌*◌, ◌≤◌, ◌≡◌, ◌≢◌, refl, sym, ap, ◌∙◌, inl, inr, Bool, true, false, not, List, [], ◌∷◌,
  ◌++◌, map, Option, none, some, Text, text, is_empty, lower, starts_with, includes, All,
  All_of_any, ltb, ==_iff, Bool-cases, and-eq-true, arith,
}
use x402_agent_suite.Ssrf.{
  Net, ParsedUrl, UrlCheck, safe, is_safe, assert_safe_outbound_url, is_safe_outbound_url, host_of,
}
use x402_agent_suite.Ssrf.Outbound.{IsAdmitted, assert_safe_outbound_url-IsAdmitted}
use x402_agent_suite.RiskGate.{
  Threat, not_https, threat_if, url_threats, total_weight, assessed, ProbeResult, RiskGateInput,
  Reason, blocked_host, price_exceeds_cap, cost_too_low, threat, reason_if, host_reasons,
  status_reasons, cap_reasons, cost_reasons, total_risk, merged_risk, no_reasons, concluded,
  assess_host, assess_url_security, gate_reasons, gate_checked, gate_host, run_risk_gate,
}

no_reasons-append :
    (xs ys : List Reason)
    → no_reasons (xs ++ ys) ≡ true
    → (no_reasons xs ≡ true) × (no_reasons ys ≡ true)
no_reasons-append [] ys h = (refl, h)
no_reasons-append (x ∷ xs) ys h = absurd (ground (arith, h))

no_threats : (ts : List Threat) → no_reasons (map threat ts) ≡ true → ts ≡ []
no_threats [] h = refl
no_threats (t ∷ ts) h = absurd (ground (arith, h))

nil_of_no_reasons : (xs : List Reason) → no_reasons xs ≡ true → xs ≡ []
nil_of_no_reasons [] h = refl
nil_of_no_reasons (x ∷ xs) h = absurd (ground (arith, h))

reason_if-false : (b : Bool) (r : Reason) → no_reasons (reason_if b r) ≡ true → b ≡ false
reason_if-false true r h = absurd (ground (arith, h))
reason_if-false false r h = refl

threat_if-false : (b : Bool) (t : Threat) (ts : List Threat) → threat_if b t ++ ts ≡ [] → b ≡ false
threat_if-false true t ts h = absurd (ground (arith, h))
threat_if-false false t ts h = refl

-- A price that is known and a cap that is given; the price against the estimate.
abbrev pub WithinCap : Option ℕ → Option ℕ → Type 0
WithinCap (some price) (some cap) = price ≤ cap
WithinCap _ _ = Unit

abbrev pub PlausibleCost : Option ℕ → Option ℕ → Type 0
PlausibleCost (some estimated) (some price) = price ≤ 2 * estimated
PlausibleCost _ _ = Unit

within_cap : (p c : Option ℕ) → no_reasons (cap_reasons p c) ≡ true → WithinCap p c
within_cap none c h = tt
within_cap (some price) none h = tt
within_cap (some price) (some cap) h =
    let e = reason_if-false (ltb cap price) price_exceeds_cap h in ground (arith, e)

plausible_cost : (e p : Option ℕ) → no_reasons (cost_reasons e p) ≡ true → PlausibleCost e p
plausible_cost none p h = tt
plausible_cost (some estimated) none h = tt
plausible_cost (some estimated) (some price) h =
    let e = reason_if-false (ltb (2 * estimated) price) cost_too_low h in ground (arith, e)

reachable :
    (host : Text) (p : ProbeResult) → no_reasons (status_reasons host p) ≡ true → p.status ≢ 0
unfolding status_reasons
reachable host p h e =
    let zero_status = (==_iff p.status 0).1 e in
    let wrong = rw zero_status at h in ground (arith, wrong)

module _ (net : Net) (input : RiskGateInput) (p : ProbeResult) where
  -- What the gate has found out about the target.
  pub record IsCleared (host : Text) : Type 0 where
    pub url : ParsedUrl
    pub parsed : net.parse input.target_url ≡ some url
    pub admitted : IsAdmitted net url
    pub https : starts_with input.target_url (text "https://") ≡ true
    pub unblocked : All (λ h. includes host (lower h) ≡ false) input.blocked_hosts
    pub answered : p.status ≢ 0
    pub affordable : WithinCap p.price_usdc input.per_call_cap_usdc
    pub plausible : PlausibleCost input.estimated_cost_usdc p.price_usdc

  https_of_no_threats :
      (host : Text)
      → url_threats input.target_url host ≡ []
      → starts_with input.target_url (text "https://") ≡ true
  unfolding url_threats
  https_of_no_threats host h =
      let e =
        threat_if-false (not (starts_with input.target_url (text "https://"))) not_https _ h in
      ground (arith, e)

  assessed_safe :
      (host : Text)
      → host_of net input.target_url ≡ some host
      → is_empty host ≡ false
      → assert_safe_outbound_url net input.target_url ≡ safe
      → assess_url_security net input.target_url ≡ assessed (url_threats input.target_url host)
  assessed_safe host found filled admitted =
      let outbound : is_safe_outbound_url net input.target_url ≡ true =
        unfold is_safe_outbound_url in ap is_safe admitted in
      let by_host : assess_url_security net input.target_url
          ≡ assess_host net input.target_url (some host) =
        unfold assess_url_security in ap (assess_host net input.target_url) found in
      by_host ∙ rw (filled, outbound) refl

  -- A conclusion without reasons: there are no threats either, and the score is that of no risk.
  concluded_safe :
      (host : Text) (rs : List Reason) (ts : List Threat)
      → (concluded rs (assessed ts)).is_safe ≡ true
      → (no_reasons rs ≡ true) × (ts ≡ []) × ((concluded rs (assessed ts)).risk_score ≡ 8)
  concluded_safe host rs ts h =
      let score = ltb (merged_risk (total_risk rs) (85 - total_weight ts)) 50 in
      let none_left = ((and-eq-true score (no_reasons (rs ++ map threat ts))).0 h).1 in
      let (first, second) = no_reasons-append rs (map threat ts) none_left in
      let no_ts = no_threats ts second in
      let no_rs = nil_of_no_reasons rs first in
      (
        first,
        no_ts,
        ap (λ x. merged_risk (total_risk x) (85 - total_weight ts)) no_rs
            ∙ (ap (λ x. merged_risk (total_risk []) (85 - total_weight x)) no_ts ∙ lowest),
      )
    where
      lowest : merged_risk (total_risk []) (85 - total_weight []) ≡ 8
      lowest = unfold merged_risk total_risk total_weight in refl

  cleared :
      (host : Text)
      → host_of net input.target_url ≡ some host
      → is_empty host ≡ false
      → (c : UrlCheck) → assert_safe_outbound_url net input.target_url ≡ c
      → (gate_checked net input host p c).is_safe ≡ true
      → IsCleared host × ((gate_checked net input host p c).risk_score ≡ 8)
  cleared host found filled safe check ok =
      let reasons = gate_reasons net input host p in
      let threats = url_threats input.target_url host in
      let same = ap (concluded reasons) (assessed_safe host found filled check) in
      let (clear, no_ts, score) =
        concluded_safe host reasons threats (sym (ap (λ r. r.is_safe) same) ∙ ok) in
      let (first, rest) = no_reasons-append (host_reasons input.blocked_hosts host) _ clear in
      let (second, rest') = no_reasons-append (status_reasons host p) _ rest in
      let (third, fourth) =
        no_reasons-append (cap_reasons p.price_usdc input.per_call_cap_usdc) _ rest' in
      let (url, parsed, admitted) =
        assert_safe_outbound_url-IsAdmitted net input.target_url check in
      (
        record {
          url = url;
          parsed = parsed;
          admitted = admitted;
          https = https_of_no_threats host no_ts;
          unblocked =
              All_of_any (λ h. includes host (lower h)) input.blocked_hosts
                (reason_if-false _ blocked_host first);
          answered = reachable host p second;
          affordable = within_cap p.price_usdc input.per_call_cap_usdc third;
          plausible = plausible_cost input.estimated_cost_usdc p.price_usdc fourth;
        },
        ap (λ r. r.risk_score) same ∙ score,
      )
  cleared host found filled other check ok = absurd (ground (arith, ok))

  gate-IsCleared :
      (o : Option Text)
      → host_of net input.target_url ≡ o
      → (gate_host net input p o).is_safe ≡ true
      → (host : Text) × (o ≡ some host)
        × IsCleared host
        × ((gate_host net input p o).risk_score ≡ 8)
  gate-IsCleared none found ok = absurd (ground (arith, ok))
  gate-IsCleared (some host) found ok = elim (Bool-cases (is_empty host)) [
    | inl empty ↦ absurd (let wrong = rw empty at ok in ground (arith, wrong))
    | inr filled ↦
        let (facts, score) =
          cleared host found filled (assert_safe_outbound_url net input.target_url) refl
            (rw filled at ok) in
        (host, refl, facts, rw filled score)
  ]

  -- A target that the gate calls safe parses, is admitted by the SSRF guard and https, contains none of the
  -- policy's blocked hosts, answered the probe, does not cost more than the cap nor more than twice the
  -- estimate, where these are known; and its risk score is then always 8.
  pub safe_target :
      (run_risk_gate net input p).is_safe ≡ true
      → (host : Text) × (host_of net input.target_url ≡ some host)
        × IsCleared host
        × ((run_risk_gate net input p).risk_score ≡ 8)
  unfolding run_risk_gate
  safe_target ok = gate-IsCleared (host_of net input.target_url) refl ok
