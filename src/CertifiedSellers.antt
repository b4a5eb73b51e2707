-- ===== src/CertifiedSellers.antt =====
-- src/lib/certified-sellers.ts: the certified sellers in `data/certified-sellers.json`, and their bonds, with
-- `runBondSlash` of src/agents/trust-network.ts. Amounts are micro-USDC, times milliseconds. The HMAC of a
-- canonical text in hex, the clock and the random badge id are arguments.
mod Store
mod Bonds
mod Lookups
mod Examples
use mathlib.Core.List.{reverse}
use x402_agent_suite.Base.{
  ℕ, ◌+◌, ◌-◌, ◌*◌, Bool, true, false, not, List, [], ◌∷◌, ◌++◌, Option, none, some, Text, text_eq,
  lower, find, keep, drop, length, min, ltb, leb, ◌==◌, if◌then◌else◌,
}

pub data AgentTier : Type 0 where
  bronze silver gold platinum : AgentTier

pub data Grade : Type 0 where
  grade_a grade_b grade_c grade_d grade_f : Grade

pub record SellerAccessPolicy : Type 0 where
  pub require_attestation : Bool
  pub min_agent_tier : AgentTier
  pub min_trust_score : ℕ
  pub min_security_grade : Grade

pub record GoodResponseProfile : Type 0 where
  pub required_keys : Option (List Text)
  pub min_length_bytes : Option ℕ
  pub forbid_empty : Option Bool

pub record CertifiedSellerRecord : Type 0 where
  pub host : Text
  pub badge_id : Text
  pub certified_at : ℕ
  pub expires_at : ℕ
  pub trust_score_at_cert : ℕ
  pub grade : Text
  pub recommendation : Text
  pub policy : SellerAccessPolicy
  pub good_response_profile : Option GoodResponseProfile
  pub bond_usdc : Option ℕ
  pub bond_remaining_usdc : Option ℕ
  pub signature : Text

-- The fields of the canonical JSON text.
pub record Canonical : Type 0 where
  pub host : Text
  pub badge_id : Text
  pub certified_at : ℕ
  pub expires_at : ℕ
  pub trust_score_at_cert : ℕ
  pub policy : SellerAccessPolicy
  pub bond_remaining_usdc : ℕ

-- `TIER_ORDER.indexOf` and `GRADE_ORDER.indexOf`; a grade that is unknown is met by none.
abbrev pub tier_index : AgentTier → ℕ
tier_index bronze = 0
tier_index silver = 1
tier_index gold = 2
tier_index platinum = 3

abbrev pub grade_index : Grade → ℕ
grade_index grade_a = 0
grade_index grade_b = 1
grade_index grade_c = 2
grade_index grade_d = 3
grade_index grade_f = 4

abbrev pub tier_meets : AgentTier → AgentTier → Bool
tier_meets least actual = leb (tier_index least) (tier_index actual)

abbrev pub grade_meets : Grade → Option Grade → Bool
grade_meets least none = false
grade_meets least (some actual) = leb (grade_index actual) (grade_index least)

abbrev pub amount_or_zero : Option ℕ → ℕ
amount_or_zero none = 0
amount_or_zero (some n) = n

abbrev pub canonical : CertifiedSellerRecord → Canonical
canonical r = record {
  host = r.host;
  badge_id = r.badge_id;
  certified_at = r.certified_at;
  expires_at = r.expires_at;
  trust_score_at_cert = r.trust_score_at_cert;
  policy = r.policy;
  bond_remaining_usdc = amount_or_zero r.bond_remaining_usdc;
}

-- `rows.slice(-n)`, which for 0 is all of them.
unfoldable pub last_rows : ℕ → List CertifiedSellerRecord → List CertifiedSellerRecord
last_rows n rows = if n == 0 then rows else drop (length rows - n) rows

-- `saveStore` keeps the last 200.
abbrev pub save_store : List CertifiedSellerRecord → List CertifiedSellerRecord
save_store rows = last_rows 200 rows

abbrev pub has_host : Text → CertifiedSellerRecord → Bool
has_host h r = text_eq r.host h

pub record Certification : Type 0 where
  pub host : Text
  pub trust_score_at_cert : ℕ
  pub grade : Text
  pub recommendation : Text
  pub policy : SellerAccessPolicy
  pub good_response_profile : Option GoodResponseProfile
  pub bond_usdc : Option ℕ
  pub ttl_days : Option ℕ

abbrev pub days_or_thirty : Option ℕ → ℕ
days_or_thirty none = 30
days_or_thirty (some days) = days

-- `bondUsdc > 0 ? bondUsdc : undefined`.
abbrev pub positive_bond : Option ℕ → Option ℕ
positive_bond bond = if ltb 0 (amount_or_zero bond) then bond else none

abbrev pub is_bonded : Option ℕ → Bool
is_bonded bond = ltb 0 (amount_or_zero bond)

pub data SlashResult : Type 0 where
  not_certified : SlashResult
  -- `slashedUsdc` and `bondRemainingUsdc`; ok when something was slashed.
  slashed : ℕ → ℕ → SlashResult

module _ (sign : Canonical → Text) where
  abbrev pub signed : CertifiedSellerRecord → CertifiedSellerRecord
  signed r = record r { signature = sign (canonical r) }

  abbrev pub certified : Text → ℕ → Certification → CertifiedSellerRecord
  certified badge_id now input = signed (record {
    host = lower input.host;
    badge_id = badge_id;
    certified_at = now;
    expires_at = now + days_or_thirty input.ttl_days * 86_400_000;
    trust_score_at_cert = input.trust_score_at_cert;
    grade = input.grade;
    recommendation = input.recommendation;
    policy = input.policy;
    good_response_profile = input.good_response_profile;
    bond_usdc = positive_bond input.bond_usdc;
    bond_remaining_usdc = positive_bond input.bond_usdc;
    signature = [];
  })

  unfoldable pub upsert_certification :
      Text
      → ℕ
      → Certification
      → List CertifiedSellerRecord
      → List CertifiedSellerRecord × CertifiedSellerRecord
  unfolding last_rows
  upsert_certification badge_id now input rows =
      let r = certified badge_id now input in
      (save_store (keep (λ x. not (has_host r.host x)) rows ++ r ∷ []), r)

  abbrev pub verified : ℕ → CertifiedSellerRecord → Option CertifiedSellerRecord
  verified now r =
      if ltb r.expires_at now
      then none
      else if text_eq (sign (canonical r)) r.signature
      then some r
      else none

  unfoldable pub get_certified_host :
      ℕ → Text → List CertifiedSellerRecord → Option CertifiedSellerRecord
  get_certified_host now host rows = elim (find (has_host (lower host)) rows) [
    | none ↦ none
    | some r ↦ verified now r
  ]

  -- `rows[idx] = updated`, at the first row of the host.
  abbrev pub slash_record : ℕ → CertifiedSellerRecord → CertifiedSellerRecord
  slash_record amount r =
      signed
        (record r { bond_remaining_usdc = some (amount_or_zero r.bond_remaining_usdc - amount) })

  unfoldable pub slash_first : Text → ℕ → List CertifiedSellerRecord → List CertifiedSellerRecord
  slash_first h amount [] = []
  slash_first h amount (r ∷ rows) =
      if has_host h r then slash_record amount r ∷ rows else r ∷ slash_first h amount rows

  abbrev pub slash_found :
      Text
      → ℕ
      → Option CertifiedSellerRecord
      → List CertifiedSellerRecord
      → List CertifiedSellerRecord × SlashResult
  slash_found h amount none rows = (rows, not_certified)
  slash_found h amount (some r) rows =
      let bond = amount_or_zero r.bond_remaining_usdc in
      (save_store (slash_first h amount rows), slashed (min amount bond) (bond - amount))

  unfoldable pub slash_seller_bond :
      Text → ℕ → List CertifiedSellerRecord → List CertifiedSellerRecord × SlashResult
  unfolding slash_first last_rows
  slash_seller_bond host amount rows =
      let h = lower host in slash_found h amount (find (has_host h) rows) rows

  abbrev pub slash_bonded :
      Text
      → ℕ
      → Option CertifiedSellerRecord
      → List CertifiedSellerRecord
      → List CertifiedSellerRecord × Option SlashResult
  slash_bonded host amount none rows = (rows, none)
  slash_bonded host amount (some cert) rows =
      let (rows', result) = slash_seller_bond host amount rows in
      if is_bonded cert.bond_remaining_usdc then (rows', some result) else (rows, none)

  -- No result: the seller has no active bond.
  unfoldable pub run_bond_slash :
      ℕ → Text → ℕ → List CertifiedSellerRecord → List CertifiedSellerRecord × Option SlashResult
  unfolding slash_seller_bond get_certified_host
  run_bond_slash now seller_host amount rows =
      let host = lower seller_host in
      slash_bonded host amount (get_certified_host now host rows) rows

unfoldable pub list_certified_hosts :
    ℕ → ℕ → List CertifiedSellerRecord → List CertifiedSellerRecord
unfolding last_rows
list_certified_hosts now limit rows =
    reverse (last_rows limit (keep (λ r. ltb now r.expires_at) rows))
