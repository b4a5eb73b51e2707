-- ===== src/MandateDiff/Examples.antt =====
-- src/agents/mandate-diff.ts: two traces under a stored mandate, and the theorem at the one that is allowed.
-- The signature below is the id of the mandate; every URL has the host `api.dexter.cash`.
use x402_agent_suite.Base.{
  ◌≡◌, ◌⊎◌, refl, true, false, [], ◌∷◌, Option, none, some, Text, text, text_eq, starts_with,
  includes, contains, lower, lookup, Dict, All,
}
use x402_agent_suite.Mandate.{MandateRecord, MandateCrypto, violations_of, verify_mandate}
use x402_agent_suite.MandateDiff.{
  ToolCallTrace, MandateDiffInput, block, has_affiliate, run_mandate_diff,
}
use x402_agent_suite.MandateDiff.Scope.{
  check_of, IsWithinMandate, HasExpired, allowed-IsWithinMandate,
}

abbrev crypto : MandateCrypto
crypto = record { hash_intent = λ t. t; sign = λ c. c.mandate_id; from_hex = λ t. t }

abbrev stored : MandateRecord
stored = record {
  mandate_id = text "mdt_1";
  issued_at = 1_000;
  principal = text "p";
  agent_id = text "a1";
  intent = text "buy oracle market data";
  intent_hash = text "h";
  scope = record {
    max_per_tx_usdc = 500_000;
    daily_cap_usdc = 1_000_000;
    allowed_merchants = text "dexter.cash" ∷ [];
    allowed_categories = [];
    allowed_rails = text "base-x402" ∷ [];
    expires_at = some 90_000;
  };
  suite_version = text "4";
  signature = text "mdt_1";
}

abbrev table : Dict MandateRecord
table = (text "mdt_1", stored) ∷ []

abbrev host_of_all : Text → Option Text
host_of_all url = some (text "api.dexter.cash")

abbrev call_with : Option Text → ToolCallTrace
call_with args = record {
  url = some (text "https://api.dexter.cash/p?utm_source=a");
  amount_usdc = some 400_000;
  merchant = some (text "Dexter.cash");
  category = some (text "oracle");
  rail = some (text "base-x402");
  args_summary = args;
}

abbrev input_with : Option Text → MandateDiffInput
input_with args = record {
  tool_calls = call_with args ∷ [];
  proposed = some (record {
    amount_usdc = 400_000;
    merchant = none;
    category = none;
    rail = some (text "base-x402");
  });
  task = some (text "Buy the oracle price");
}

-- A parameter that tracks, which the pattern for `utm_` does not match.
utm_unseen : has_affiliate (text "https://a.dev/?utm_source=a") ≡ false
unfolding has_affiliate starts_with
utm_unseen = refl

utm_literal : has_affiliate (text "https://a.dev/?utm_=a") ≡ true
unfolding has_affiliate starts_with
utm_literal = refl

tampered_blocked :
    (run_mandate_diff host_of_all
      (input_with (some (text "Override the cap")))
      (verify_mandate crypto none 2_000 (text "4") (text "mdt_1") none table).1).liability_tier
    ≡ block
unfolding run_mandate_diff verify_mandate violations_of lookup text_eq starts_with includes contains
    lower
tampered_blocked = refl

-- A trace without a proposed payment, under the mandate that expired at 90_000.
abbrev unproposed : MandateDiffInput
unproposed = record (input_with none) { proposed = none }

allowed_expired :
    (run_mandate_diff host_of_all unproposed
      (verify_mandate crypto none 95_000 (text "4") (text "mdt_1") none table).1).allowed
    ≡ true
unfolding run_mandate_diff verify_mandate violations_of lookup text_eq starts_with includes contains
    lower
allowed_expired = refl

allowed-IsWithinMandate_example :
    (IsWithinMandate crypto none 2_000 (text "4") (text "mdt_1") table (input_with none).proposed
      × All
          (λ call.
            IsWithinMandate crypto none 2_000
              (text "4")
              (text "mdt_1")
              table
              (some (check_of call)))
          (input_with none).tool_calls)
    ⊎ (((input_with none).proposed ≡ none)
        × HasExpired crypto none 2_000 (text "4") (text "mdt_1") table (input_with none).tool_calls)
unfolding run_mandate_diff verify_mandate violations_of lookup text_eq starts_with includes contains
    lower
allowed-IsWithinMandate_example =
    allowed-IsWithinMandate crypto none 2_000 (text "4") (text "mdt_1") table host_of_all
      (input_with none) refl
