-- ===== src/CertifiedSellers/Store.antt =====
-- src/lib/certified-sellers.ts: what holds of the store after any calls.
use x402_agent_suite.Base.{
  ℕ, zero, suc, ◌-◌, ◌≤◌, ◌≡◌, refl, inl, inr, Bool, false, not, List, [], ◌∷◌, ◌++◌, Option, none,
  some, Text, text_eq_iff, lower, find, keep, drop, length, All, All-imp, All-keep, All-keep_self,
  All-drop, All-append, length-drop, Bool-cases, arith,
}
use x402_agent_suite.CertifiedSellers.{
  CertifiedSellerRecord, Canonical, canonical, Certification, amount_or_zero, last_rows, save_store,
  has_host, certified, upsert_certification, get_certified_host, slash_record, slash_first,
  slash_found, slash_seller_bond, is_bonded, slash_bonded, run_bond_slash,
}

-- No two rows have one host.
abbrev pub OneEach : List CertifiedSellerRecord → Type 0
OneEach [] = Unit
OneEach (r ∷ rows) = All (λ x. has_host r.host x ≡ false) rows × OneEach rows

OneEach-keep :
    (p : CertifiedSellerRecord → Bool) (rows : List CertifiedSellerRecord)
    → OneEach rows
    → OneEach (keep p rows)
OneEach-keep p [] o = tt
OneEach-keep p (r ∷ rows) o = elim (Bool-cases (p r)) [
  | inl good ↦
      rw good (All-keep (λ x. has_host r.host x ≡ false) p rows o.0, OneEach-keep p rows o.1)
  | inr bad ↦ rw bad (OneEach-keep p rows o.1)
]

OneEach-drop : (n : ℕ) (rows : List CertifiedSellerRecord) → OneEach rows → OneEach (drop n rows)
OneEach-drop zero rows o = o
OneEach-drop (suc n) [] o = tt
OneEach-drop (suc n) (r ∷ rows) o = OneEach-drop n rows o.1

OneEach-add :
    (rows : List CertifiedSellerRecord) (r : CertifiedSellerRecord)
    → All (λ x. has_host r.host x ≡ false) rows
    → OneEach rows
    → OneEach (rows ++ r ∷ [])
OneEach-add [] r fresh o = (tt, tt)
OneEach-add (x ∷ rows) r fresh o = (
  All-append (λ y. has_host x.host y ≡ false) rows (r ∷ []) o.0
      (ground (arith, text_eq_iff x.host r.host, text_eq_iff r.host x.host, fresh.0), tt),
  OneEach-add rows r fresh.1 o.1,
)

module _ (sign : Canonical → Text) where
  -- A row that is signed, and whose remaining bond is within the bond.
  pub record IsSoundRow (r : CertifiedSellerRecord) : Type 0 where
    pub genuine : sign (canonical r) ≡ r.signature
    pub within : amount_or_zero r.bond_remaining_usdc ≤ amount_or_zero r.bond_usdc

  pub record IsSound (rows : List CertifiedSellerRecord) : Type 0 where
    pub bounded : length rows ≤ 200
    pub one_each : OneEach rows
    pub sound : All IsSoundRow rows

  certified-IsSoundRow :
      (badge_id : Text) (now : ℕ) (input : Certification)
      → IsSoundRow (certified sign badge_id now input)
  certified-IsSoundRow badge_id now input = record { genuine = refl; within = omega arith }

  slash_record-IsSoundRow :
      (amount : ℕ) (r : CertifiedSellerRecord)
      → IsSoundRow r
      → IsSoundRow (slash_record sign amount r)
  slash_record-IsSoundRow amount r s =
      let w = s.within in record { genuine = refl; within = omega (arith, w) }

  -- A slash keeps what each row has, when a slashed row has it too.
  All-slash_first :
      {P : CertifiedSellerRecord → Type 0} (h : Text) (amount : ℕ)
      (rows : List CertifiedSellerRecord)
      → ((r : CertifiedSellerRecord) → P r → P (slash_record sign amount r))
      → All P rows
      → All P (slash_first sign h amount rows)
  unfolding slash_first
  All-slash_first h amount [] f all = tt
  All-slash_first h amount (r ∷ rows) f all = elim (Bool-cases (has_host h r)) [
    | inl found ↦ rw found (f r all.0, all.1)
    | inr other ↦ rw other (all.0, All-slash_first h amount rows f all.1)
  ]

  OneEach-slash_first :
      (h : Text) (amount : ℕ) (rows : List CertifiedSellerRecord)
      → OneEach rows
      → OneEach (slash_first sign h amount rows)
  unfolding slash_first
  OneEach-slash_first h amount [] o = tt
  OneEach-slash_first h amount (r ∷ rows) o = elim (Bool-cases (has_host h r)) [
    | inl found ↦ rw found (o.0, o.1)
    | inr other ↦
        rw other
          (All-slash_first h amount rows (λ x e. e) o.0, OneEach-slash_first h amount rows o.1)
  ]

  save_store-IsSound :
      (rows : List CertifiedSellerRecord)
      → OneEach rows
      → All IsSoundRow rows
      → IsSound (save_store rows)
  unfolding last_rows
  save_store-IsSound rows o all = record {
    bounded = omega (arith, length-drop (length rows - 200) rows);
    one_each = OneEach-drop (length rows - 200) rows o;
    sound = All-drop IsSoundRow (length rows - 200) rows all;
  }

  upsert-IsSound :
      (badge_id : Text) (now : ℕ) (input : Certification) (rows : List CertifiedSellerRecord)
      → IsSound rows
      → IsSound (upsert_certification sign badge_id now input rows).0
  unfolding upsert_certification
  upsert-IsSound badge_id now input rows s =
      let r = certified sign badge_id now input in
      let p : CertifiedSellerRecord → Bool = λ x. not (has_host r.host x) in
      let fresh : All (λ x. has_host r.host x ≡ false) (keep p rows) =
        All-imp (λ x e. ground (arith, e)) (keep p rows) (All-keep_self p rows) in
      save_store-IsSound (keep p rows ++ r ∷ [])
        (OneEach-add (keep p rows) r fresh (OneEach-keep p rows s.one_each))
        (All-append IsSoundRow (keep p rows) (r ∷ []) (All-keep IsSoundRow p rows s.sound)
          (certified-IsSoundRow badge_id now input, tt))

  slash-IsSound :
      (h : Text) (amount : ℕ) (rows : List CertifiedSellerRecord) (o : Option CertifiedSellerRecord)
      → IsSound rows
      → IsSound (slash_found sign h amount o rows).0
  slash-IsSound h amount rows none s = s
  slash-IsSound h amount rows (some r) s =
      save_store-IsSound (slash_first sign h amount rows)
        (OneEach-slash_first h amount rows s.one_each)
        (All-slash_first h amount rows (slash_record-IsSoundRow amount) s.sound)

  pub run_bond_slash-IsSound :
      (now : ℕ) (host : Text) (amount : ℕ) (rows : List CertifiedSellerRecord)
      → IsSound rows
      → IsSound (run_bond_slash sign now host amount rows).0
  unfolding run_bond_slash slash_seller_bond
  run_bond_slash-IsSound now host amount rows s =
      by_cert (get_certified_host sign now (lower host) rows)
    where
      by_cert :
          (o : Option CertifiedSellerRecord)
          → IsSound (slash_bonded sign (lower host) amount o rows).0
      by_cert none = s
      by_cert (some cert) = elim (Bool-cases (is_bonded cert.bond_remaining_usdc)) [
        | inl bonded ↦ rw bonded (
            slash-IsSound (lower (lower host)) amount rows
              (find (has_host (lower (lower host))) rows) s)
        | inr bare ↦ rw bare s
      ]

pub data Call : Type 0 where
  -- `upsertCertification` with its badge id and clock, and `runBondSlash`.
  certify : Text → ℕ → Certification → Call
  slash : ℕ → Text → ℕ → Call

module _ (sign : Canonical → Text) where
  abbrev pub handle : Call → List CertifiedSellerRecord → List CertifiedSellerRecord
  handle (certify badge_id now input) rows = (upsert_certification sign badge_id now input rows).0
  handle (slash now host amount) rows = (run_bond_slash sign now host amount rows).0

  -- The store after calls, the latest first.
  unfoldable pub store_after : List Call → List CertifiedSellerRecord
  unfolding upsert_certification run_bond_slash
  store_after [] = []
  store_after (call ∷ earlier) = handle call (store_after earlier)

  -- After any certifications and slashes the store has at most 200 rows, one for each host; every row is signed,
  -- and what remains of its bond is at most the bond.
  pub store_after-IsSound : (calls : List Call) → IsSound sign (store_after calls)
  unfolding store_after
  store_after-IsSound [] = record { bounded = omega arith; one_each = tt; sound = tt }
  store_after-IsSound (certify badge_id now input ∷ earlier) =
      upsert-IsSound sign badge_id now input (store_after earlier) (store_after-IsSound earlier)
  store_after-IsSound (slash now host amount ∷ earlier) =
      run_bond_slash-IsSound sign now host amount (store_after earlier)
        (store_after-IsSound earlier)
