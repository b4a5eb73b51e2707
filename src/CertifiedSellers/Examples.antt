-- ===== src/CertifiedSellers/Examples.antt =====
-- Certified sellers: runs of the calls, and the theorems at them. The signature below is the badge id with the
-- remaining bond.
use x402_agent_suite.Base.{
  ℕ, zero, suc, ◌+◌, ◌≤◌, ◌≡◌, refl, ap, true, false, List, [], ◌∷◌, none, some, Text, text,
  text_eq, lower, All, length, arith,
}
use x402_agent_suite.CertifiedSellers.{
  CertifiedSellerRecord, Canonical, has_host, Certification, silver, grade_b, upsert_certification,
  get_certified_host, run_bond_slash,
}
use x402_agent_suite.CertifiedSellers.Store.{
  OneEach, IsSound, Call, certify, slash, store_after, store_after-IsSound,
}
use x402_agent_suite.CertifiedSellers.Bonds.{total_bonds, slashes, slashes_conserve}
use x402_agent_suite.CertifiedSellers.Lookups.{issued, get-upsert, full_store_evicts}

abbrev sign : Canonical → Text
sign c = c.bond_remaining_usdc ∷ c.badge_id

abbrev certification : Text → Certification
certification host = record {
  host = host;
  trust_score_at_cert = 80;
  grade = text "B";
  recommendation = text "pay";
  policy = record {
    require_attestation = true;
    min_agent_tier = silver;
    min_trust_score = 60;
    min_security_grade = grade_b;
  };
  good_response_profile = none;
  bond_usdc = some 5_000_000;
  ttl_days = none;
}

abbrev calls : List Call
calls =
    slash 3_000 (text "A.dev") 2_000_000
    ∷ certify (text "c2") 2_000 (certification (text "b.dev"))
    ∷ certify (text "c1") 1_000 (certification (text "A.dev"))
    ∷ []

abbrev later_slashes : List (ℕ × Text × ℕ)
later_slashes =
    (5_000, text "a.dev", 4_000_000) ∷ (4_000, text "c.dev", 1_000) ∷ (4_000, text "b.dev", 1) ∷ []

-- The second slash finds only what the first has left.
slashed_to_zero : (slashes sign later_slashes (store_after sign calls)).1 ≡ 3_000_001
unfolding slashes store_after upsert_certification run_bond_slash text_eq lower
slashed_to_zero = refl

store_after-IsSound_example : IsSound sign (store_after sign calls)
store_after-IsSound_example = store_after-IsSound sign calls

slashes_conserve_example :
    total_bonds (slashes sign later_slashes (store_after sign calls)).0
      + (slashes sign later_slashes (store_after sign calls)).1
    ≡ total_bonds (store_after sign calls)
slashes_conserve_example =
    slashes_conserve sign later_slashes (store_after sign calls) (store_after-IsSound sign calls)

get-upsert_example :
    get_certified_host sign 9_000
      (text "A.DEV")
      (upsert_certification sign
        (text "c3")
        8_000
        (certification (text "a.dev"))
        (store_after sign calls)).0
    ≡ some (issued sign (text "c3") 8_000 (certification (text "a.dev")))
unfolding lower
get-upsert_example =
    get-upsert sign (text "c3") 8_000 (certification (text "a.dev")) (store_after sign calls) 9_000
      (text "A.DEV") refl (omega arith)

-- A full store: hosts of one character, each a number.
abbrev row : ℕ → CertifiedSellerRecord
row n = issued sign (text "c") 1_000 (certification (n ∷ []))

abbrev rows : ℕ → List CertifiedSellerRecord
rows zero = []
rows (suc n) = record (row n) { host = n ∷ [] } ∷ rows n

length-rows : (n : ℕ) → length (rows n) ≡ n
length-rows zero = refl
length-rows (suc n) = ap suc (length-rows n)

rows-fresh : (n k : ℕ) → n ≤ k → All (λ x. has_host (k ∷ []) x ≡ false) (rows n)
unfolding text_eq
rows-fresh zero k h = tt
rows-fresh (suc n) k h = (ground (arith, h), rows-fresh n k (omega (arith, h)))

rows-OneEach : (n : ℕ) → OneEach (rows n)
rows-OneEach zero = tt
rows-OneEach (suc n) = (rows-fresh n n (omega arith), rows-OneEach n)

full_store_evicts_example :
    get_certified_host sign 2_000
      (199 ∷ [])
      (upsert_certification sign (text "c3") 1_500 (certification (500 ∷ [])) (rows 200)).0
    ≡ none
unfolding lower
full_store_evicts_example =
    full_store_evicts sign (text "c3") 1_500 (certification (500 ∷ []))
      (record (row 199) { host = 199 ∷ [] }) (rows 199) 2_000 (length-rows 199) (rows-OneEach 200)
      (rows-fresh 200 500 (omega arith)) refl
