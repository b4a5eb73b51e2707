-- ===== src/HostPolicy/Matching.antt =====
-- src/lib/host-policy.ts: what a pattern matches.
use x402_agent_suite.Base.{
  ◌≡◌, refl, ◌⊎◌, inl, inr, ◌↔◌, true, false, ◌∷◌, ◌++◌, Text, text_eq, text_eq_iff, is_empty,
  Bool-cases, arith,
}
use x402_agent_suite.Base.{ends_with_iff}
use x402_agent_suite.HostPolicy.{normalized, host_matches_pattern}

-- A host matches a pattern exactly when, both in small letters and trimmed, neither is empty and the
-- host is the pattern or ends in a dot and the pattern: `evilallowed.com` does not match `allowed.com`.
pub host_matches_pattern_iff :
    (host pattern : Text)
    → let h = normalized host in
      let p = normalized pattern in
      (host_matches_pattern host pattern ≡ true) ↔ (
        (is_empty h ≡ false)
        × (is_empty p ≡ false)
        × ((h ≡ p) ⊎ ((u : Text) × (h ≡ u ++ (b'.' ∷ p)))))
unfolding host_matches_pattern
host_matches_pattern_iff host pattern =
    let h = normalized host in
    let p = normalized pattern in
    elim (Bool-cases (is_empty h)) [
      | inl empty ↦
          rw empty (λ e. absurd (ground (arith, e)), λ c. let f = c.0 in absurd (ground (arith, f)))
      | inr filled ↦ elim (Bool-cases (is_empty p)) [
        | inl empty ↦
            rw (filled, empty)
              (λ e. absurd (ground (arith, e)), λ c. let f = c.1 in absurd (ground (arith, f)))
        | inr named ↦ elim (Bool-cases (text_eq h p)) [
          | inl same ↦
              rw (filled, named, same)
                (λ e. (refl, refl, inl ((text_eq_iff h p).0 same)), λ c. refl)
          | inr other ↦
              rw (filled, named, other)
                (
                  λ e. (refl, refl, inr ((ends_with_iff h (b'.' ∷ p)).0 e)),
                  λ c. elim c.2 [
                    | inl same ↦
                        absurd (let f = (text_eq_iff h p).1 same in ground (arith, f, other))
                    | inr suffix ↦ (ends_with_iff h (b'.' ∷ p)).1 suffix
                  ],
                )
        ]
      ]
    ]
