-- ===== src/Base/Texts.antt =====
-- JavaScript texts as lists of character codes, with the string methods that the sources call.
-- `lower` and `trim` treat the ASCII letters and the ASCII white space; other codes stay.
use Prim.Native.Nat.{ℕ, ◌+◌}
use Prim.Native.Char.{code}
use Prim.Native.String.{String}
use mathlib.Core.Path.{◌≡◌, refl}
use mathlib.Core.Logic.{◌↔◌}
use mathlib.Core.Bool.{Bool, true, false, ◌&&◌, ◌||◌}
use mathlib.Core.List.{List, [], ◌∷◌, ◌++◌, map, reverse, reverse_aux, reverse-reverse}
use native.Mathlib.Omega.{arith}
use x402_agent_suite.Base.Tests.{leb, ◌==◌, if◌then◌else◌}

abbrev pub Text : Type 0
Text = List ℕ

-- A literal, by its codes.
abbrev pub text : String → Text
text String.[] = []
text (String.◌∷◌ c s) = code c ∷ text s

unfoldable pub text_eq : Text → Text → Bool
text_eq [] [] = true
text_eq (a ∷ s) (b ∷ t) = a == b && text_eq s t
text_eq _ _ = false

pub text_eq_iff : (s t : Text) → (text_eq s t ≡ true) ↔ (s ≡ t)
unfolding text_eq
text_eq_iff [] [] = ground arith
text_eq_iff [] (b ∷ t) = ground arith
text_eq_iff (a ∷ s) [] = ground arith
text_eq_iff (a ∷ s) (b ∷ t) = ground (arith, text_eq_iff s t)

pub text_eq_refl : (s : Text) → text_eq s s ≡ true
text_eq_refl s = (text_eq_iff s s).1 refl

abbrev pub is_empty : Text → Bool
is_empty [] = true
is_empty (_ ∷ _) = false

-- `s.toLowerCase()`.
unfoldable pub lower_code : ℕ → ℕ
lower_code c = if leb b'A' c && leb c b'Z' then c + 32 else c

unfoldable pub lower : Text → Text
unfolding lower_code
lower s = map lower_code s

pub lower_code_idem : (c : ℕ) → lower_code (lower_code c) ≡ lower_code c
unfolding lower_code
lower_code_idem c = ground arith

pub lower_idem : (s : Text) → lower (lower s) ≡ lower s
unfolding lower
lower_idem [] = refl
lower_idem (c ∷ s) = cc (lower_code_idem c, lower_idem s)

unfoldable pub is_space : ℕ → Bool
is_space c = c == 32 || (leb 9 c && leb c 13)

unfoldable pub trim_start : Text → Text
unfolding is_space
trim_start [] = []
trim_start (c ∷ s) = if is_space c then trim_start s else c ∷ s

-- `s.trim()`.
unfoldable pub trim : Text → Text
unfolding trim_start
trim s = reverse (trim_start (reverse (trim_start s)))

-- No character of the text is white space.
abbrev pub IsSolid : Text → Type 0
IsSolid [] = Unit
IsSolid (c ∷ s) = (is_space c ≡ false) × IsSolid s

IsSolid-reverse_aux : (s acc : Text) → IsSolid s → IsSolid acc → IsSolid (reverse_aux s acc)
IsSolid-reverse_aux [] acc h k = k
IsSolid-reverse_aux (c ∷ s) acc h k = IsSolid-reverse_aux s (c ∷ acc) h.1 (h.0, k)

trim_start_solid : (s : Text) → IsSolid s → trim_start s ≡ s
unfolding trim_start
trim_start_solid [] h = refl
trim_start_solid (c ∷ s) h = rw h.0 refl

pub trim_solid : (s : Text) → IsSolid s → trim s ≡ s
unfolding trim
trim_solid s h =
    rw (trim_start_solid s h, trim_start_solid (reverse s) (IsSolid-reverse_aux s [] h tt))
      (reverse-reverse s)

unfoldable pub starts_with : Text → Text → Bool
starts_with s [] = true
starts_with [] (b ∷ t) = false
starts_with (a ∷ s) (b ∷ t) = a == b && starts_with s t

-- `s.endsWith(t)`.
unfoldable pub ends_with : Text → Text → Bool
unfolding starts_with
ends_with s t = starts_with (reverse s) (reverse t)

-- `s.includes(t)`.
unfoldable pub includes : Text → Text → Bool
unfolding starts_with
includes [] t = starts_with [] t
includes (a ∷ s) t = starts_with (a ∷ s) t || includes s t

-- `xs.includes(x)` on a list of texts.
unfoldable pub contains : List Text → Text → Bool
contains [] x = false
contains (y ∷ ys) x = text_eq y x || contains ys x

pub contains-append :
    (xs : List Text) (t u : Text) → contains (xs ++ (u ∷ [])) t ≡ (contains xs t || text_eq u t)
unfolding contains
contains-append [] t u = ground arith
contains-append (x ∷ xs) t u = ground (arith, contains-append xs t u)
