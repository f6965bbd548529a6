-- ===== src/Common/Digits.antt =====
-- The recursion on binary digits that the bit operations of the native numbers compute by.
use Prim.Native.Nat.{ℕ, zero, suc, ◌+◌, ◌-◌, ◌*◌, ◌/◌, ◌%◌, ◌≤◌, digits}
use mathlib.Core.Path.{◌≡◌, refl, ◌∙◌}
use native.Mathlib.Omega.{arith}

-- `op` combines two digits; the fuel is the first number.
module _ (op : ℕ → ℕ → ℕ) where
  abbrev pub by_digits : (fuel a b : ℕ) → ℕ
  by_digits fuel a b = digits (λ low. low) op fuel a b

  one_more : (k a b : ℕ) → a ≤ k → by_digits (suc k) a b ≡ by_digits k a b
  one_more zero zero b fits = refl
  one_more zero (suc a) b fits = elim fits [ ]
  one_more (suc k) zero b fits = refl
  one_more (suc k) (suc a) b fits = rw (one_more k (suc a / 2) (b / 2) (omega arith))

  spare_fuel : (extra k m a b : ℕ) → k + extra ≡ m → a ≤ k → by_digits m a b ≡ by_digits k a b
  spare_fuel zero k m a b e fits = let same : m ≡ k = omega arith in rw same
  spare_fuel (suc extra) k m a b e fits =
      spare_fuel extra (suc k) m a b (omega arith) (omega arith) ∙ one_more k a b fits

  pub first_digit :
      (a b : ℕ)
      → by_digits (suc a) (suc a) b
        ≡ by_digits (suc a / 2) (suc a / 2) (b / 2) * 2 + op (suc a % 2) (b % 2)
  first_digit a b =
      let h = suc a / 2 in
      omega (arith, spare_fuel (a - h) h a h (b / 2) (omega arith) (omega arith))
