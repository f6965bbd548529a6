-- ===== src/Common/Or.antt =====
-- `bit_or` at variables.
use Prim.Native.Nat.{ℕ, zero, suc, ◌+◌, ◌*◌, ◌/◌, ◌%◌, ◌≤◌, max, bit_or, bit_or-bitwise}
use mathlib.Core.Path.{◌≡◌}
use native.Mathlib.Omega.{arith}
use linux_programs.Common.Digits.{first_digit}

zero-bit_or : (b : ℕ) → bit_or 0 b ≡ b
zero-bit_or b = bit_or-bitwise 0 b

bit_or_step : (a b : ℕ) → bit_or a b ≡ bit_or (a / 2) (b / 2) * 2 + max (a % 2) (b % 2)
bit_or_step zero b = omega (arith, zero-bit_or b, zero-bit_or (b / 2))
bit_or_step (suc a) b = simp bit_or-bitwise (first_digit max a b)

le-bit_or_fuel : (n a b : ℕ) → a + b ≤ n → b ≤ bit_or a b
le-bit_or_fuel zero a b h = omega arith
le-bit_or_fuel (suc n) zero b h = omega (arith, zero-bit_or b)
le-bit_or_fuel (suc n) (suc a) b h =
    omega (arith, bit_or_step (suc a) b, le-bit_or_fuel n (suc a / 2) (b / 2) (omega arith))

-- A word contains what is set in it.
pub le-bit_or : (a b : ℕ) → b ≤ bit_or a b
le-bit_or a b = le-bit_or_fuel (a + b) a b (omega arith)
