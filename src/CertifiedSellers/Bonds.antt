-- ===== src/CertifiedSellers/Bonds.antt =====
-- src/lib/certified-sellers.ts: slashes take from the bonds what they report.
use x402_agent_suite.Base.{
  ℕ, suc, ◌+◌, ◌-◌, ◌≤◌, ◌≡◌, refl, ap, ◌∙◌, inl, inr, List, [], ◌∷◌, Option, none, some, Text,
  lower, find, drop, length, min, Bool-cases, arith,
}
use x402_agent_suite.CertifiedSellers.{
  CertifiedSellerRecord, Canonical, amount_or_zero, last_rows, save_store, has_host, is_bonded,
  SlashResult, not_certified, slashed, slash_first, slash_found, slash_seller_bond, slash_bonded,
  get_certified_host, run_bond_slash,
}
use x402_agent_suite.CertifiedSellers.Store.{IsSound, run_bond_slash-IsSound}

-- What remains of all bonds, and what a call reports as slashed.
abbrev pub total_bonds : List CertifiedSellerRecord → ℕ
total_bonds [] = 0
total_bonds (r ∷ rows) = amount_or_zero r.bond_remaining_usdc + total_bonds rows

abbrev pub reported : Option SlashResult → ℕ
reported none = 0
reported (some not_certified) = 0
reported (some (slashed amount remaining)) = amount

-- A short store is saved as it is.
pub save_store_all :
    (rows : List CertifiedSellerRecord) → length rows ≤ 200 → save_store rows ≡ rows
unfolding last_rows
save_store_all rows short =
    let zero_over : length rows - 200 ≡ 0 = omega (arith, short) in ap (λ n. drop n rows) zero_over

module _ (sign : Canonical → Text) where
  length-slash_first :
      (h : Text) (amount : ℕ) (rows : List CertifiedSellerRecord)
      → length (slash_first sign h amount rows) ≡ length rows
  unfolding slash_first
  length-slash_first h amount [] = refl
  length-slash_first h amount (r ∷ rows) = elim (Bool-cases (has_host h r)) [
    | inl found ↦ rw found refl
    | inr other ↦ rw other (ap suc (length-slash_first h amount rows))
  ]

  total-slash_first :
      (h : Text) (amount : ℕ) (r : CertifiedSellerRecord) (rows : List CertifiedSellerRecord)
      → find (has_host h) rows ≡ some r
      → total_bonds (slash_first sign h amount rows)
          + min amount (amount_or_zero r.bond_remaining_usdc)
        ≡ total_bonds rows
  unfolding slash_first
  total-slash_first h amount r [] found = absurd (ground (arith, found))
  total-slash_first h amount r (x ∷ rows) found = elim (Bool-cases (has_host h x)) [
    | inl here ↦
        let same : x ≡ r = let e = rw here at found in ground (arith, e) in
        let bond : amount_or_zero x.bond_remaining_usdc ≡ amount_or_zero r.bond_remaining_usdc =
          ap (λ y. amount_or_zero y.bond_remaining_usdc) same in
        rw here (omega (arith, bond))
    | inr other ↦
        let rest = total-slash_first h amount r rows (rw other at found) in
        rw other (omega (arith, rest))
  ]

  total-slash_found :
      (h : Text) (amount : ℕ) (rows : List CertifiedSellerRecord) (o : Option CertifiedSellerRecord)
      → find (has_host h) rows ≡ o
      → length rows ≤ 200
      → total_bonds (slash_found sign h amount o rows).0
          + reported (some (slash_found sign h amount o rows).1)
        ≡ total_bonds rows
  total-slash_found h amount rows none e short = omega arith
  total-slash_found h amount rows (some r) e short =
      let same =
        save_store_all (slash_first sign h amount rows)
          (omega (arith, length-slash_first h amount rows, short)) in
      ap (λ x. total_bonds x + min amount (amount_or_zero r.bond_remaining_usdc)) same
      ∙ total-slash_first h amount r rows e

  total-slash_bonded :
      (host : Text) (amount : ℕ) (rows : List CertifiedSellerRecord)
      (o : Option CertifiedSellerRecord)
      → length rows ≤ 200
      → total_bonds (slash_bonded sign host amount o rows).0
          + reported (slash_bonded sign host amount o rows).1
        ≡ total_bonds rows
  unfolding slash_seller_bond
  total-slash_bonded host amount rows none short = omega arith
  total-slash_bonded host amount rows (some cert) short =
      elim (Bool-cases (is_bonded cert.bond_remaining_usdc)) [
        | inl bonded ↦ rw bonded (
            total-slash_found (lower host) amount rows (find (has_host (lower host)) rows) refl
              short)
        | inr bare ↦ rw bare (omega arith)
      ]

  pub total-run_bond_slash :
      (now : ℕ) (host : Text) (amount : ℕ) (rows : List CertifiedSellerRecord)
      → length rows ≤ 200
      → total_bonds (run_bond_slash sign now host amount rows).0
          + reported (run_bond_slash sign now host amount rows).1
        ≡ total_bonds rows
  unfolding run_bond_slash
  total-run_bond_slash now host amount rows short =
      total-slash_bonded (lower host) amount rows (get_certified_host sign now (lower host) rows)
        short

  -- Slashes by clock, host and amount, the latest first: the store, and what they report in sum.
  unfoldable pub slashes :
      List (ℕ × Text × ℕ) → List CertifiedSellerRecord → List CertifiedSellerRecord × ℕ
  unfolding run_bond_slash
  slashes [] rows = (rows, 0)
  slashes ((now, host, amount) ∷ earlier) rows =
      let (before, sum) = slashes earlier rows in
      let (after, result) = run_bond_slash sign now host amount before in
      (after, reported result + sum)

  slashes-IsSound :
      (calls : List (ℕ × Text × ℕ)) (rows : List CertifiedSellerRecord)
      → IsSound sign rows
      → IsSound sign (slashes calls rows).0
  unfolding slashes
  slashes-IsSound [] rows s = s
  slashes-IsSound ((now, host, amount) ∷ earlier) rows s =
      run_bond_slash-IsSound sign now host amount (slashes earlier rows).0
        (slashes-IsSound earlier rows s)

  -- Over a sound store, whatever slashes of whichever hosts come, the amounts that they report as slashed and what
  -- remains of all bonds add up to the bonds that there were: so no more than the bonds is ever slashed.
  pub slashes_conserve :
      (calls : List (ℕ × Text × ℕ)) (rows : List CertifiedSellerRecord)
      → IsSound sign rows
      → total_bonds (slashes calls rows).0 + (slashes calls rows).1 ≡ total_bonds rows
  unfolding slashes
  slashes_conserve [] rows s = omega arith
  slashes_conserve ((now, host, amount) ∷ earlier) rows s =
      let before = (slashes earlier rows).0 in
      let bounded = (slashes-IsSound earlier rows s).bounded in
      let step = total-run_bond_slash now host amount before bounded in
      let rest = slashes_conserve earlier rows s in omega (arith, step, rest)
