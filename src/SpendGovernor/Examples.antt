-- ===== src/SpendGovernor/Examples.antt =====
-- The spend governor: a day of calls, and the theorems at it.
use x402_agent_suite.Base.{
  ℕ, ◌≤◌, ◌≡◌, refl, ◌↔◌, ◌⊎◌, true, false, List, [], ◌∷◌, ◌++◌, Option, none, Text, text, text_eq,
  is_empty, arith,
}
use x402_agent_suite.HostPolicy.{normalized, host_matches_pattern}
use x402_agent_suite.HostPolicy.Matching.{host_matches_pattern_iff}
use x402_agent_suite.SpendGovernor.{get_spent_today, sum_day, refusal, record_spend}
use x402_agent_suite.SpendGovernor.Caps.{Call, run, spent_within_cap}

abbrev no_host : Text → Option Text
no_host url = none

abbrev call_of : ℕ → Call
call_of cost = record {
  day = text "2026-01-02";
  input = record {
    agent_id = text "a1";
    estimated_cost_usdc = cost;
    target_url = none;
    network = none;
    policy = record {
      daily_cap_usdc = 1_000_000;
      per_call_cap_usdc = 600_000;
      allowed_hosts = [];
      blocked_hosts = [];
      allowed_networks = [];
    };
  };
}

abbrev calls : List Call
calls = call_of 500_000 ∷ call_of 700_000 ∷ call_of 400_000 ∷ call_of 300_000 ∷ []

calls-spent : get_spent_today (text "2026-01-02") (text "a1") (run no_host calls []) ≡ 900_000
unfolding run get_spent_today sum_day refusal record_spend text_eq
calls-spent = refl

spent_within_cap_example :
    get_spent_today (text "2026-01-02") (text "a1") (run no_host calls []) ≤ 1_000_000
unfolding get_spent_today sum_day
spent_within_cap_example =
    spent_within_cap no_host (text "2026-01-02") (text "a1") 1_000_000 calls []
      (
        (λ d a. omega arith),
        ((λ d a. omega arith), ((λ d a. omega arith), ((λ d a. omega arith), tt))),
      )
      (omega arith)

host_matches_pattern_iff_example :
    let h = normalized (text "evilallowed.com") in
    let p = normalized (text "allowed.com") in
    (host_matches_pattern (text "evilallowed.com") (text "allowed.com") ≡ true) ↔ (
      (is_empty h ≡ false)
      × (is_empty p ≡ false)
      × ((h ≡ p) ⊎ ((u : Text) × (h ≡ u ++ (b'.' ∷ p)))))
host_matches_pattern_iff_example =
    host_matches_pattern_iff (text "evilallowed.com") (text "allowed.com")
