-- ===== src/Base/Numbers.antt =====
-- Whole numbers as texts: `String(n)`, and `Number(s)` of decimal digits.
use Prim.Native.Nat.{ℕ, zero, suc, ◌+◌, ◌*◌, ◌-◌, ◌/◌, ◌%◌}
use mathlib.Core.Bool.{Bool, ◌&&◌}
use mathlib.Core.List.{[], ◌∷◌}
use mathlib.Core.Option.{Option, none, some}
use x402_agent_suite.Base.Tests.{ltb, leb, if◌then◌else◌}
use x402_agent_suite.Base.Texts.{Text}

abbrev pub is_digit : ℕ → Bool
is_digit c = leb b'0' c && leb c b'9'

-- The value of the digits, from that of those in front; `none` is NaN.
unfoldable pub number_from : ℕ → Text → Option ℕ
number_from value [] = some value
number_from value (c ∷ s) =
    let rest = number_from (10 * value + (c - b'0')) s in if is_digit c then rest else none

-- "" is 0; a text that is not digits only is taken as NaN.
abbrev pub number : Text → Option ℕ
number t = number_from 0 t

-- The digits of `n` in front of a text; there are at most `n` of them, and one of 0.
unfoldable pub show_from : ℕ → ℕ → Text → Text
show_from zero n s = s
show_from (suc fuel) n s =
    let more = show_from fuel (n / 10) ((b'0' + n % 10) ∷ s) in
    if ltb n 10 then (b'0' + n) ∷ s else more

abbrev pub show : ℕ → Text
show n = show_from (n + 1) n []
