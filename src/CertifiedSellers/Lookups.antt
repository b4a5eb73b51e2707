-- ===== src/CertifiedSellers/Lookups.antt =====
-- src/lib/certified-sellers.ts: which certifications are found again, and which are lost.
use x402_agent_suite.Base.{
  ℕ, suc, ◌+◌, ◌-◌, ◌*◌, ◌≤◌, ◌≡◌, refl, ap, ◌∙◌, Bool, true, false, not, List, [], ◌∷◌, ◌++◌,
  Option, none, some, Text, text_eq_iff, text_eq_refl, lower, find, keep, drop, drop-append, length,
  length-append, All, All-append, All-imp, All-keep_self, All-drop, le→ltb, arith,
}
use x402_agent_suite.CertifiedSellers.{
  CertifiedSellerRecord, Canonical, canonical, Certification, days_or_thirty, last_rows, has_host,
  certified, upsert_certification, verified, get_certified_host,
}
use x402_agent_suite.CertifiedSellers.Store.{OneEach}

find_last :
    (p : CertifiedSellerRecord → Bool) (rows : List CertifiedSellerRecord)
    (r : CertifiedSellerRecord)
    → All (λ x. p x ≡ false) rows
    → p r ≡ true
    → find p (rows ++ r ∷ []) ≡ some r
find_last p [] r h e = rw e refl
find_last p (x ∷ rows) r h e = let first = h.0 in rw first (find_last p rows r h.1 e)

find-none :
    (p : CertifiedSellerRecord → Bool) (rows : List CertifiedSellerRecord)
    → All (λ x. p x ≡ false) rows
    → find p rows ≡ none
find-none p [] h = refl
find-none p (x ∷ rows) h = let first = h.0 in rw first (find-none p rows h.1)

keep_all :
    (p : CertifiedSellerRecord → Bool) (rows : List CertifiedSellerRecord)
    → All (λ x. p x ≡ true) rows
    → keep p rows ≡ rows
keep_all p [] h = refl
keep_all p (x ∷ rows) h = let first = h.0 in rw first (ap (λ xs. x ∷ xs) (keep_all p rows h.1))

-- A full store with one more row loses its first.
last_rows_full :
    (o : CertifiedSellerRecord) (rest : List CertifiedSellerRecord) (r : CertifiedSellerRecord)
    → length rest ≡ 199
    → last_rows 200 (o ∷ (rest ++ r ∷ [])) ≡ rest ++ r ∷ []
unfolding last_rows
last_rows_full o rest r full =
    let one : suc (length (rest ++ r ∷ [])) - 200 ≡ 1 =
      omega (arith, length-append rest (r ∷ []), full) in
    ap (λ n. drop n (o ∷ (rest ++ r ∷ []))) one

module _ (sign : Canonical → Text) (badge_id : Text) (now : ℕ) (input : Certification) where
  -- The row of the certification.
  abbrev pub issued : CertifiedSellerRecord
  issued = certified sign badge_id now input

  abbrev other_hosts : List CertifiedSellerRecord → List CertifiedSellerRecord
  other_hosts rows = keep (λ x. not (has_host issued.host x)) rows

  abbrev by_row : ℕ → Option CertifiedSellerRecord → Option CertifiedSellerRecord
  by_row later o = elim o [ none ↦ none | some r ↦ verified sign later r ]

  found_again :
      (rows : List CertifiedSellerRecord)
      → find (has_host (lower input.host)) (upsert_certification sign badge_id now input rows).0
        ≡ some issued
  unfolding upsert_certification last_rows
  found_again rows =
      let kept = other_hosts rows in
      let n = length (kept ++ issued ∷ []) - 200 in
      let within : n ≤ length kept = omega (arith, length-append kept (issued ∷ [])) in
      let fresh : All (λ x. has_host issued.host x ≡ false) kept =
        All-imp (λ x e. ground (arith, e)) kept
          (All-keep_self (λ x. not (has_host issued.host x)) rows) in
      ap (find (has_host (lower input.host))) (drop-append n kept (issued ∷ []) within)
      ∙ find_last (has_host (lower input.host)) (drop n kept) issued
          (All-drop (λ x. has_host issued.host x ≡ false) n kept fresh)
          (text_eq_refl (lower input.host))

  -- After a certification the host, in any spelling of it, is found with the record issued, whatever the
  -- store held, until the certification has expired, 30 days later where no other time is given.
  pub get-upsert :
      (rows : List CertifiedSellerRecord) (later : ℕ) (host : Text)
      → lower host ≡ lower input.host
      → later ≤ now + days_or_thirty input.ttl_days * 86_400_000
      → get_certified_host sign later host (upsert_certification sign badge_id now input rows).0
        ≡ some issued
  unfolding get_certified_host
  get-upsert rows later host spelled early =
      let same =
        ap (λ h. find (has_host h) (upsert_certification sign badge_id now input rows).0) spelled
        ∙ found_again rows in
      ap (by_row later) same
      ∙ rw (le→ltb later issued.expires_at early, text_eq_refl (sign (canonical issued))) refl

  -- Over a store with 200 rows, one for each host, the certification of a further host takes the oldest row out:
  -- that host is not certified any more, however long its certification was meant to last.
  pub full_store_evicts :
      (o : CertifiedSellerRecord) (rest : List CertifiedSellerRecord) (later : ℕ)
      → length rest ≡ 199
      → OneEach (o ∷ rest)
      → All (λ x. has_host (lower input.host) x ≡ false) (o ∷ rest)
      → lower o.host ≡ o.host
      → get_certified_host sign later o.host
          (upsert_certification sign badge_id now input (o ∷ rest)).0
        ≡ none
  unfolding get_certified_host upsert_certification
  full_store_evicts o rest later full one fresh lowered =
      let stays =
        keep_all (λ x. not (has_host issued.host x)) (o ∷ rest)
          (All-imp (λ x e. ground (arith, e)) (o ∷ rest) fresh) in
      let saved =
        ap (λ xs. last_rows 200 (xs ++ issued ∷ [])) stays ∙ last_rows_full o rest issued full in
      let new_other : has_host o.host issued ≡ false =
        ground (arith, text_eq_iff o.host issued.host, text_eq_iff issued.host o.host, fresh.0) in
      let gone =
        find-none (has_host o.host) (rest ++ issued ∷ [])
          (All-append (λ x. has_host o.host x ≡ false) rest (issued ∷ []) one.0 (new_other, tt)) in
      ap (by_row later) (
        ap (λ h. find (has_host h) (last_rows 200 (other_hosts (o ∷ rest) ++ issued ∷ []))) lowered
        ∙ (ap (find (has_host o.host)) saved ∙ gone))
