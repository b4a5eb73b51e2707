-- ===== src/RiskGate/Examples.antt =====
-- The risk gate: a target that is safe, and the theorem at it. The parser below takes every URL as https
-- with the host `a.dev`.
use x402_agent_suite.Base.{
  ℕ, ◌≡◌, refl, true, false, [], ◌∷◌, none, some, Text, text, text_eq, starts_with, ends_with,
  includes, lower, contains,
}
use x402_agent_suite.Ssrf.{Net, host_of}
use x402_agent_suite.RiskGate.{ProbeResult, RiskGateInput, run_risk_gate}
use x402_agent_suite.RiskGate.Verdict.{IsCleared, safe_target}

abbrev net : Net
net = record {
  parse = λ url.
      some (record {
        protocol = text "https:";
        username = [];
        password = [];
        hostname = text "a.dev";
      });
  is_ip = λ host. false;
  resolve4 = λ host. none;
  resolve6 = λ host. none;
}

abbrev input_of : ℕ → RiskGateInput
input_of cap = record {
  target_url = text "https://a.dev/x";
  estimated_cost_usdc = some 10_000;
  per_call_cap_usdc = some cap;
  blocked_hosts = text "Evil.dev" ∷ [];
}

abbrev found_probe : ProbeResult
found_probe = record { status = 402; requires_payment = true; price_usdc = some 20_000 }

too_dear : (run_risk_gate net (input_of 15_000) found_probe).is_safe ≡ false
unfolding run_risk_gate text_eq starts_with ends_with includes lower contains
too_dear = refl

safe_target_example :
    (host : Text) × (host_of net (text "https://a.dev/x") ≡ some host)
    × IsCleared net (input_of 50_000) found_probe host
    × ((run_risk_gate net (input_of 50_000) found_probe).risk_score ≡ 8)
unfolding run_risk_gate text_eq starts_with ends_with includes lower contains
safe_target_example = safe_target net (input_of 50_000) found_probe refl
