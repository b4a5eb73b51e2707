-- ===== src/Base/Dots.antt =====
-- `s.split(".")`.
use mathlib.Core.Path.{◌≡◌, ap, ◌∙◌}
use mathlib.Core.Logic.{◌≢◌, inl, inr}
use mathlib.Core.List.{List, [], ◌∷◌, ◌++◌, append-nil, append_assoc}
use x402_agent_suite.Base.Tests.{◌==◌, ==_iff, if◌then◌else◌, Bool-cases}
use x402_agent_suite.Base.Lists.{All}
use x402_agent_suite.Base.Texts.{Text}

-- The parts between the dots; `cur` is what has been read of the first.
unfoldable pub split_dots : Text → Text → List Text
split_dots cur [] = cur ∷ []
split_dots cur (c ∷ s) =
    let closed = cur ∷ split_dots [] s in
    let longer = split_dots (cur ++ c ∷ []) s in if c == b'.' then closed else longer

abbrev pub NoDot : Text → Type 0
NoDot s = All (λ c. c ≢ b'.') s

pub split_dots-NoDot : (cur s : Text) → NoDot s → split_dots cur s ≡ (cur ++ s) ∷ []
unfolding split_dots
split_dots-NoDot cur [] h = rw append-nil
split_dots-NoDot cur (c ∷ s) h = elim (Bool-cases (c == b'.')) [
  | inl hit ↦ absurd (h.0 ((==_iff c b'.').0 hit))
  | inr miss ↦
      rw miss
        (split_dots-NoDot (cur ++ c ∷ []) s h.1 ∙ ap (λ x. x ∷ []) (append_assoc cur (c ∷ []) s))
]

-- A part with no dot in front of a dot.
pub split_dots-part :
    (cur s t : Text) → NoDot s → split_dots cur (s ++ (b'.' ∷ t)) ≡ (cur ++ s) ∷ split_dots [] t
unfolding split_dots
split_dots-part cur [] t h = rw append-nil
split_dots-part cur (c ∷ s) t h = elim (Bool-cases (c == b'.')) [
  | inl hit ↦ absurd (h.0 ((==_iff c b'.').0 hit))
  | inr miss ↦ rw miss (
      split_dots-part (cur ++ c ∷ []) s t h.1
      ∙ ap (λ x. x ∷ split_dots [] t) (append_assoc cur (c ∷ []) s))
]
