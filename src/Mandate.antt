-- ===== src/Mandate.antt =====
-- src/lib/mandate.ts: signed mandates in the table mandates, and what a payment may do under one.
-- Amounts are micro-USDC, times milliseconds, `none` a date that cannot be read. What node computes,
-- the clock, the random id, the suite's version and the legacy file are arguments.
mod Signing
mod Scope
mod Examples
use x402_agent_suite.Base.{
  ℕ, ◌+◌, Bool, true, false, not, ◌&&◌, List, [], ◌∷◌, ◌++◌, Option, none, some, Text, text,
  text_eq, is_empty, lower, includes, contains, any, Dict, lookup, insert, ltb, if◌then◌else◌,
}

pub record MandateScope : Type 0 where
  pub max_per_tx_usdc : ℕ
  pub daily_cap_usdc : ℕ
  pub allowed_merchants : List Text
  pub allowed_categories : List Text
  pub allowed_rails : List Text
  pub expires_at : Option ℕ

-- A record, and a row of the table, which stands under its mandate id.
pub record MandateRecord : Type 0 where
  pub mandate_id : Text
  pub issued_at : ℕ
  pub principal : Text
  pub agent_id : Text
  pub intent : Text
  pub intent_hash : Text
  pub scope : MandateScope
  pub suite_version : Text
  pub signature : Text

-- What is signed: the fields of the canonical JSON text.
pub record Canonical : Type 0 where
  pub mandate_id : Text
  pub principal : Text
  pub agent_id : Text
  pub intent_hash : Text
  pub scope : MandateScope

-- SHA-256 in hex, the HMAC of a canonical text in hex, and `Buffer.from(text, "hex")`.
pub record MandateCrypto : Type 0 where
  pub hash_intent : Text → Text
  pub sign : Canonical → Text
  pub from_hex : Text → List ℕ

pub record Issue : Type 0 where
  pub principal : Text
  pub agent_id : Text
  pub intent : Text
  pub scope : MandateScope

pub record MandateCheck : Type 0 where
  pub amount_usdc : ℕ
  pub merchant : Option Text
  pub category : Option Text
  pub rail : Option Text

pub data Violation : Type 0 where
  amount_exceeds merchant_not_allowed category_not_allowed rail_not_allowed : Violation

pub data VerifyResult : Type 0 where
  mandate_not_found : VerifyResult
  signature_mismatch mandate_expired : MandateRecord → VerifyResult
  -- Valid; within scope when there is no violation.
  checked : MandateRecord → List Violation → VerifyResult

abbrev pub canonical : MandateRecord → Canonical
canonical r = record {
  mandate_id = r.mandate_id;
  principal = r.principal;
  agent_id = r.agent_id;
  intent_hash = r.intent_hash;
  scope = r.scope;
}

abbrev pub probe_id : Text
probe_id = text "mdt_verifier_probe_example"

module _ (k : MandateCrypto) where
  -- A record with its signature.
  abbrev pub signed : Text → ℕ → Text → Issue → MandateRecord
  signed mandate_id now version input =
      let hashed = k.hash_intent input.intent in
      record {
        mandate_id = mandate_id;
        issued_at = now;
        principal = input.principal;
        agent_id = input.agent_id;
        intent = input.intent;
        intent_hash = hashed;
        scope = input.scope;
        suite_version = version;
        signature = k.sign (record {
          mandate_id = mandate_id;
          principal = input.principal;
          agent_id = input.agent_id;
          intent_hash = hashed;
          scope = input.scope;
        });
      }

  abbrev pub signatures_equal : Text → Text → Bool
  signatures_equal a b = text_eq (k.from_hex a) (k.from_hex b)

  unfoldable pub issue_mandate :
      Text → ℕ → Text → Issue → Dict MandateRecord → Dict MandateRecord × MandateRecord
  issue_mandate mandate_id now version input table =
      let r = signed mandate_id now version input in (insert mandate_id r table, r)

  abbrev pub probe_issue : ℕ → Issue
  probe_issue now = record {
    principal = text "cardholder:dexter-verifier";
    agent_id = text "dexter-verifier-probe";
    intent = text "Buy ETH/USD oracle data for a trading bot, under $1 per call, daily $10 cap";
    scope = record {
      max_per_tx_usdc = 500_000;
      daily_cap_usdc = 10_000_000;
      allowed_merchants =
          text "myceliasignal.com" ∷ text "dexter.cash" ∷ text "api.myceliasignal.com" ∷ [];
      allowed_categories = text "market-data" ∷ text "oracle" ∷ [];
      allowed_rails = text "base-x402" ∷ text "solana-x402" ∷ text "visa-cli" ∷ [];
      expires_at = some (now + 31_536_000_000);
    };
  }

  unfoldable pub ensure_verifier_probe_mandate : ℕ → Text → Dict MandateRecord → Dict MandateRecord
  unfolding issue_mandate
  ensure_verifier_probe_mandate now version table = elim (lookup probe_id table) [
    | some r ↦ table
    | none ↦ (issue_mandate probe_id now version (probe_issue now) table).0
  ]

abbrev pub upsert_all : List MandateRecord → Dict MandateRecord → Dict MandateRecord
upsert_all [] table = table
upsert_all (r ∷ rs) table = upsert_all rs (insert r.mandate_id r table)

-- The legacy file, if there is one that can be read, fills an empty table.
unfoldable pub migrate_legacy_json_once :
    Option (List MandateRecord) → Dict MandateRecord → Dict MandateRecord
migrate_legacy_json_once none table = table
migrate_legacy_json_once (some records) [] = upsert_all records []
migrate_legacy_json_once (some records) (row ∷ table) = row ∷ table

abbrev pub is_past : ℕ → Option ℕ → Bool
is_past now none = false
is_past now (some t) = ltb t now

abbrev pub over_amount : MandateScope → ℕ → List Violation
over_amount scope amount = if ltb scope.max_per_tx_usdc amount then amount_exceeds ∷ [] else []

-- `value && list.length > 0 && !test`.
abbrev pub unlisted : Violation → (Text → Bool) → List Text → Option Text → List Violation
unlisted v test allowed none = []
unlisted v test [] (some t) = []
unlisted v test (a ∷ allowed) (some t) = if is_empty t then [] else if test t then [] else v ∷ []

abbrev pub names_merchant : List Text → Text → Bool
names_merchant merchants t = any (λ m. includes (lower t) (lower m)) merchants

unfoldable pub violations_of : MandateScope → Option MandateCheck → List Violation
violations_of scope none = []
violations_of scope (some p) =
    over_amount scope p.amount_usdc
    ++ (unlisted merchant_not_allowed (names_merchant scope.allowed_merchants)
          scope.allowed_merchants p.merchant
        ++ (unlisted category_not_allowed (contains scope.allowed_categories)
              scope.allowed_categories p.category
            ++ unlisted rail_not_allowed (contains scope.allowed_rails) scope.allowed_rails p.rail))

module _ (k : MandateCrypto) where
  abbrev pub verify_record : ℕ → Option MandateCheck → Option MandateRecord → VerifyResult
  verify_record now proposed none = mandate_not_found
  verify_record now proposed (some r) =
      if not (signatures_equal k (k.sign (canonical r)) r.signature)
      then signature_mismatch r
      else if is_past now r.scope.expires_at
      then mandate_expired r
      else checked r (violations_of r.scope proposed)

  unfoldable pub verify_mandate :
      Option (List MandateRecord)
      → ℕ
      → Text
      → Text
      → Option MandateCheck
      → Dict MandateRecord
      → Dict MandateRecord × VerifyResult
  unfolding ensure_verifier_probe_mandate migrate_legacy_json_once violations_of
  verify_mandate legacy now version mandate_id proposed table =
      let seeded =
        if text_eq mandate_id probe_id
        then ensure_verifier_probe_mandate k now version table
        else table in
      let t = migrate_legacy_json_once legacy seeded in
      (t, verify_record now proposed (lookup mandate_id t))
