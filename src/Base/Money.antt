-- ===== src/Base/Money.antt =====
-- USDC amounts as whole numbers of micro-USDC (10^-6).
use Prim.Native.Nat.{ℕ, ◌+◌, ◌*◌, ◌/◌, ◌≤◌, ◌<◌}
use mathlib.Core.Path.{◌≡◌}
use native.Mathlib.Omega.{arith}

-- `Number(x.toFixed(4))`: to the nearest multiple of 10^-4 USDC, a tie upwards.
unfoldable pub to_fixed4 : ℕ → ℕ
to_fixed4 x = (x + 50) / 100 * 100

-- An amount that `toFixed(4)` leaves alone.
abbrev pub IsFixed4 : ℕ → Type 0
IsFixed4 x = to_fixed4 x ≡ x

pub to_fixed4_idem : (x : ℕ) → IsFixed4 (to_fixed4 x)
unfolding to_fixed4
to_fixed4_idem x = omega arith

pub to_fixed4_mono : (x y : ℕ) → x ≤ y → to_fixed4 x ≤ to_fixed4 y
unfolding to_fixed4
to_fixed4_mono x y h = omega arith

pub to_fixed4_near : (x : ℕ) → (x ≤ to_fixed4 x + 49) × (to_fixed4 x ≤ x + 50)
unfolding to_fixed4
to_fixed4_near x = omega arith

pub IsFixed4-add : (x y : ℕ) → IsFixed4 x → IsFixed4 y → IsFixed4 (x + y)
unfolding to_fixed4
IsFixed4-add x y h k = omega arith

-- Adding less than half a unit to such an amount changes nothing.
pub fixed4_add_dust : (x y : ℕ) → IsFixed4 x → y < 50 → to_fixed4 (x + y) ≡ x
unfolding to_fixed4
fixed4_add_dust x y h k = omega arith
