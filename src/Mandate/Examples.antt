-- ===== src/Mandate/Examples.antt =====
-- Mandates: one that is issued and changed, and the theorems at it. The signature below is the id and the
-- hash of the intent.
use x402_agent_suite.Base.{
  includes, lower, contains, ◌≤◌, ◌≡◌, refl, ◌↔◌, [], ◌∷◌, ◌++◌, none, some, text, text_eq, lookup,
  arith,
}
use x402_agent_suite.Mandate.{
  MandateScope, MandateRecord, MandateCrypto, Issue, MandateCheck, checked, signature_mismatch,
  signed, verify_mandate, violations_of,
}
use x402_agent_suite.Mandate.Signing.{tampered_refused}
use x402_agent_suite.Mandate.Scope.{AnyOf, HasPart, Permitted, within_scope_iff}

abbrev scope : MandateScope
scope = record {
  max_per_tx_usdc = 500_000;
  daily_cap_usdc = 1_000_000;
  allowed_merchants = text "dexter.cash" ∷ [];
  allowed_categories = [];
  allowed_rails = text "base-x402" ∷ [];
  expires_at = some 90_000;
}

abbrev crypto : MandateCrypto
crypto = record {
  hash_intent = λ t. t;
  sign = λ c. c.mandate_id ++ c.intent_hash;
  from_hex = λ t. t;
}

abbrev issue : Issue
issue = record { principal = text "p"; agent_id = text "a1"; intent = text "buy"; scope = scope }

abbrev payment : MandateCheck
payment = record {
  amount_usdc = 400_000;
  merchant = some (text "https://API.dexter.cash.evil.dev");
  category = some (text "oracle");
  rail = none;
}

abbrev stored : MandateRecord
stored = signed crypto (text "mdt_1") 1_000 (text "4") issue

stored-verifies :
    (verify_mandate crypto none 2_000
      (text "4")
      (text "mdt_1")
      none
      ((text "mdt_1", stored) ∷ [])).1
    ≡ checked stored []
unfolding verify_mandate violations_of lookup text_eq
stored-verifies = refl

within_scope_iff_example : (violations_of scope (some payment) ≡ []) ↔ (
    (400_000 ≤ 500_000)
    × Permitted
        (λ t. AnyOf (HasPart t) scope.allowed_merchants)
        scope.allowed_merchants
        payment.merchant
    × Permitted
        (λ t. AnyOf (λ c. c ≡ t) scope.allowed_categories)
        scope.allowed_categories
        payment.category
    × Permitted (λ t. AnyOf (λ r. r ≡ t) scope.allowed_rails) scope.allowed_rails payment.rail)
within_scope_iff_example = within_scope_iff scope payment

in_scope : violations_of scope (some payment) ≡ []
unfolding violations_of includes lower text_eq contains
in_scope = refl

abbrev tampered : MandateRecord
tampered = record stored { intent_hash = text "sell" }

tampered_refused_example :
    verify_mandate crypto none 2_000
      (text "4")
      (text "mdt_1")
      (some payment)
      ((text "mdt_1", tampered) ∷ [])
    ≡ ((text "mdt_1", tampered) ∷ [], signature_mismatch tampered)
unfolding lookup text_eq
tampered_refused_example =
    tampered_refused crypto none (text "4") 2_000 1_000 (text "mdt_1") issue (some payment) tampered
      ((text "mdt_1", tampered) ∷ []) (λ e. absurd (ground (arith, e))) refl refl
      (λ terms. let f = terms.3 in ground (arith, f))
