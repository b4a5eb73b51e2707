-- ===== src/Base/Affixes.antt =====
-- What `startsWith`, `endsWith` and `includes` find.
use Prim.Native.Nat.{ℕ}
use mathlib.Core.Path.{◌≡◌, refl, sym, ap, ◌∙◌, subst}
use mathlib.Core.Logic.{◌↔◌, inl, inr}
use mathlib.Core.Bool.{true, ◌||◌}
use mathlib.Core.List.{[], ◌∷◌, ◌++◌, reverse, reverse-append, reverse-reverse}
use native.Mathlib.Omega.{arith}
use x402_agent_suite.Base.Tests.{Bool-cases}
use x402_agent_suite.Base.Texts.{Text, starts_with, ends_with, includes}

pub starts_with_sound : (s t : Text) → starts_with s t ≡ true → (u : Text) × (s ≡ t ++ u)
unfolding starts_with
starts_with_sound s [] h = (s, refl)
starts_with_sound [] (b ∷ t) h = absurd (ground (arith, h))
starts_with_sound (a ∷ s) (b ∷ t) h =
    let same : a ≡ b = ground (arith, h) in
    let (u, e) = starts_with_sound s t (ground (arith, h)) in (u, cc (same, e))

pub starts_with-append : (t u : Text) → starts_with (t ++ u) t ≡ true
unfolding starts_with
starts_with-append [] [] = refl
starts_with-append [] (a ∷ u) = refl
starts_with-append (b ∷ t) u = ground (arith, starts_with-append t u)

-- A suffix is what `endsWith` finds.
pub ends_with_iff : (s t : Text) → (ends_with s t ≡ true) ↔ ((u : Text) × (s ≡ u ++ t))
unfolding ends_with
ends_with_iff s t = (
  λ h.
      let (u, e) = starts_with_sound (reverse s) (reverse t) h in
      (
        reverse u,
        sym (reverse-reverse s)
            ∙ (ap reverse e
                ∙ (reverse-append (reverse t) u ∙ ap (λ x. reverse u ++ x) (reverse-reverse t))),
      ),
  λ (u, e).
      subst (λ x. starts_with x (reverse t) ≡ true) (sym (ap reverse e ∙ reverse-append u t))
        (starts_with-append (reverse t) (reverse u)),
)

starts_with_nothing : (t u v : Text) → [] ≡ u ++ (t ++ v) → starts_with [] t ≡ true
unfolding starts_with
starts_with_nothing [] u v e = refl
starts_with_nothing (b ∷ t) [] v e = absurd (ground (arith, e))
starts_with_nothing (b ∷ t) (a ∷ u) v e = absurd (ground (arith, e))

includes-later :
    (a : ℕ) (s t u v : Text)
    → (((u : Text) × (v : Text) × (s ≡ u ++ (t ++ v))) → includes s t ≡ true)
    → a ∷ s ≡ u ++ (t ++ v)
    → (starts_with (a ∷ s) t || includes s t) ≡ true
includes-later a s t [] v find e =
    let here = subst (λ x. starts_with x t ≡ true) (sym e) (starts_with-append t v) in rw here refl
includes-later a s t (b ∷ u) v find e =
    let rest : s ≡ u ++ (t ++ v) = cc e in let later = find (u, v, rest) in ground (arith, later)

-- A part is what `includes` finds.
pub includes_iff :
    (s t : Text) → (includes s t ≡ true) ↔ ((u : Text) × (v : Text) × (s ≡ u ++ (t ++ v)))
unfolding includes
includes_iff [] t = (
  λ h. let (v, e) = starts_with_sound [] t h in ([], v, e),
  λ (u, v, e). starts_with_nothing t u v e,
)
includes_iff (a ∷ s) t = (
  λ h. elim (Bool-cases (starts_with (a ∷ s) t)) [
    | inl here ↦ let (v, e) = starts_with_sound (a ∷ s) t here in ([], v, e)
    | inr later ↦
        let (u, v, e) = (includes_iff s t).0 (rw later at h) in (a ∷ u, v, ap (λ x. a ∷ x) e)
  ],
  λ (u, v, e). includes-later a s t u v (includes_iff s t).1 e,
)
