-- ===== src/Mandate/Signing.antt =====
-- src/lib/mandate.ts: what the signature of a mandate protects.
use mathlib.Core.Path.{subst}
use x402_agent_suite.Base.{
  ℕ, ◌≡◌, refl, sym, ap, ◌∙◌, inl, inr, false, List, [], ◌∷◌, Option, none, some, Text, text_eq,
  text_eq_iff, text_eq_refl, Dict, lookup, insert, lookup-insert_self, Bool-cases, arith,
}
use x402_agent_suite.Mandate.{
  MandateRecord, MandateCrypto, Canonical, Issue, MandateCheck, Violation, VerifyResult,
  mandate_not_found, checked, signature_mismatch, mandate_expired, canonical, probe_id, signed,
  signatures_equal, issue_mandate, ensure_verifier_probe_mandate, migrate_legacy_json_once, is_past,
  violations_of, verify_record, verify_mandate,
}

abbrev violations : VerifyResult → List Violation
violations (checked r vs) = vs
violations mandate_not_found = []
violations (signature_mismatch r) = []
violations (mandate_expired r) = []

module _ (k : MandateCrypto) (legacy : Option (List MandateRecord)) (version : Text) where
  migrate-stored :
      (id : Text) (r : MandateRecord) (table : Dict MandateRecord)
      → lookup id table ≡ some r
      → migrate_legacy_json_once legacy table ≡ table
  unfolding migrate_legacy_json_once lookup
  migrate-stored id r [] h = absurd (ground (arith, h))
  migrate-stored id r (row ∷ table) h = filled legacy row table
    where
      filled :
          (legacy : Option (List MandateRecord)) (row : Text × MandateRecord)
          (table : Dict MandateRecord)
          → migrate_legacy_json_once legacy (row ∷ table) ≡ row ∷ table
      filled none row table = refl
      filled (some records) row table = refl

  ensure-stored :
      (now : ℕ) (r : MandateRecord) (table : Dict MandateRecord)
      → lookup probe_id table ≡ some r
      → ensure_verifier_probe_mandate k now version table ≡ table
  unfolding ensure_verifier_probe_mandate
  ensure-stored now r table h = rw (ensure_verifier_probe_mandate, h) refl

  -- A mandate that is stored is what is verified.
  verify-stored :
      (now : ℕ) (id : Text) (proposed : Option MandateCheck) (r : MandateRecord)
      (table : Dict MandateRecord)
      → lookup id table ≡ some r
      → verify_mandate k legacy now version id proposed table
        ≡ (table, verify_record k now proposed (some r))
  unfolding verify_mandate
  verify-stored now id proposed r table h = elim (Bool-cases (text_eq id probe_id)) [
    | inr other ↦ rw other (rw (migrate-stored id r table h) (rw h refl))
    | inl probe ↦
        let here = subst (λ i. lookup i table ≡ some r) ((text_eq_iff id probe_id).0 probe) h in
        rw probe
          (rw (ensure-stored now r table here) (rw (migrate-stored id r table h) (rw h refl)))
  ]

  -- An issued mandate, verified before it expires, has a good signature: the answer is its record with
  -- the violations of the proposed payment.
  pub verify-issue :
      (issued now : ℕ) (id : Text) (input : Issue) (proposed : Option MandateCheck)
      (table : Dict MandateRecord)
      → is_past now input.scope.expires_at ≡ false
      → let (table', r) = issue_mandate k id issued version input table in
        verify_mandate k legacy now version id proposed table'
        ≡ (table', checked r (violations_of input.scope proposed))
  unfolding issue_mandate
  verify-issue issued now id input proposed table live =
      let r = signed k id issued version input in
      verify-stored now id proposed r (insert id r table) (lookup-insert_self id r table)
      ∙ rw (verify_record, text_eq_refl (k.from_hex r.signature), live) refl

  same-verdict :
      (now date : ℕ) (intent other_version : Text) (proposed : Option MandateCheck)
      (r : MandateRecord) (vs : List Violation)
      → verify_record k now proposed (some r) ≡ checked r vs
      → let r' = record r { intent = intent; issued_at = date; suite_version = other_version } in
        verify_record k now proposed (some r') ≡ checked r' vs
  same-verdict now date intent other_version proposed r vs was =
      elim (Bool-cases (signatures_equal k (k.sign (canonical r)) r.signature)) [
        | inr bad ↦
            let f : verify_record k now proposed (some r) ≡ signature_mismatch r =
              rw (verify_record, bad) refl in
            absurd (ground (arith, f, was))
        | inl fine ↦ elim (Bool-cases (is_past now r.scope.expires_at)) [
          | inl late ↦
              let f : verify_record k now proposed (some r) ≡ mandate_expired r =
                rw (verify_record, fine, late) refl in
              absurd (ground (arith, f, was))
          | inr live ↦
              let f : verify_record k now proposed (some r)
                  ≡ checked r (violations_of r.scope proposed) =
                rw (verify_record, fine, live) refl in
              rw (verify_record, fine, live)
                (ap
                  (checked
                    (record r { intent = intent; issued_at = date; suite_version = other_version }))
                  (ap violations (sym f ∙ was)))
        ]
      ]

  -- The signature does not cover the text of the intent: when the stored intent, its date and its
  -- version are replaced by any others, a mandate that verified still does, with the same violations.
  pub intent_unsigned :
      (now date : ℕ) (id intent other_version : Text) (proposed : Option MandateCheck)
      (r : MandateRecord) (vs : List Violation) (table : Dict MandateRecord)
      → lookup id table ≡ some r
      → (verify_mandate k legacy now version id proposed table).1 ≡ checked r vs
      → let r' = record r { intent = intent; issued_at = date; suite_version = other_version } in
        (verify_mandate k legacy now version id proposed (insert id r' table)).1 ≡ checked r' vs
  intent_unsigned now date id intent other_version proposed r vs table h good =
      let r' : MandateRecord = record r {
        intent = intent;
        issued_at = date;
        suite_version = other_version;
      } in
      let was = sym (ap (λ x. x.1) (verify-stored now id proposed r table h)) ∙ good in
      ap (λ x. x.1)
        (verify-stored now id proposed r' (insert id r' table) (lookup-insert_self id r' table))
      ∙ same-verdict now date intent other_version proposed r vs was

  -- A stored record with the terms of `r`: who, for whom, under which id, for which hash of an intent and
  -- within which scope.
  abbrev pub HasTerms : MandateRecord → MandateRecord → Type 0
  HasTerms r r' =
      (r'.mandate_id ≡ r.mandate_id)
      × (r'.principal ≡ r.principal)
      × (r'.agent_id ≡ r.agent_id)
      × (r'.intent_hash ≡ r.intent_hash)
      × (r'.scope ≡ r.scope)

  -- A stored record that bears the signature of an issued mandate, but another mandate id, principal, agent,
  -- hash of the intent or scope, is refused as tampered, whatever is proposed, if the HMAC does not collide on
  -- the two canonical texts. (The text of the intent is not protected.)
  pub tampered_refused :
      (now issued : ℕ) (id : Text) (input : Issue) (proposed : Option MandateCheck)
      (r' : MandateRecord) (table : Dict MandateRecord)
      → let r = signed k id issued version input in
        (k.from_hex (k.sign (canonical r')) ≡ k.from_hex (k.sign (canonical r))
          → canonical r' ≡ canonical r)
        → lookup id table ≡ some r'
        → r'.signature ≡ r.signature
        → ¬ HasTerms r r'
        → verify_mandate k legacy now version id proposed table ≡ (table, signature_mismatch r')
  tampered_refused now issued id input proposed r' table distinct h signature differ =
      let r = signed k id issued version input in
      let bad : signatures_equal k (k.sign (canonical r')) r'.signature ≡ false =
        elim (Bool-cases (signatures_equal k (k.sign (canonical r')) r'.signature)) [
          | inr bad ↦ bad
          | inl fine ↦
              let same = distinct (
                (text_eq_iff (k.from_hex (k.sign (canonical r'))) (k.from_hex r'.signature)).0 fine
                ∙ ap k.from_hex signature) in
              absurd (
                differ (
                  ap (λ (c : Canonical). c.mandate_id) same,
                  ap (λ (c : Canonical). c.principal) same,
                  ap (λ (c : Canonical). c.agent_id) same,
                  ap (λ (c : Canonical). c.intent_hash) same,
                  ap (λ (c : Canonical). c.scope) same,
                ))
        ] in
      verify-stored now id proposed r' table h ∙ rw (verify_record, bad) refl
