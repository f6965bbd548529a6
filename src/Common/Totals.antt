-- ===== src/Common/Totals.antt =====
-- The sum of a measure over a list, and what a write changes of it.
use Prim.Native.Nat.{ℕ, zero, suc, ◌+◌, ◌*◌, ◌≤◌, ◌<◌}
use mathlib.Core.Path.{◌≡◌}
use mathlib.Core.List.{List, [], ◌∷◌}
use mathlib.Core.Option.{some}
use native.Mathlib.Omega.{arith}
use linux_programs.Common.Lists.{get_elem?, get_or, set, length, replicate, get_elem?-get_or}

module _ {ℓ} {A : Type ℓ} where
  unfoldable pub total : (A → ℕ) → List A → ℕ
  total f [] = 0
  total f (x ∷ xs) = f x + total f xs

module _ {ℓ} {A : Type ℓ} where
  pub total-set :
      (f : A → ℕ) (xs : List A) (i : ℕ) (x y : A)
      → get_elem? xs i ≡ some x
      → total f (set xs i y) + f x ≡ total f xs + f y
  unfolding total
  total-set f [] i x y e = absurd (cc e)
  total-set f (z ∷ xs) zero x y e = let same : z ≡ x = cc e in rw same (omega arith)
  total-set f (z ∷ xs) (suc i) x y e = omega (arith, total-set f xs i x y e)

  pub total-set_or :
      (f : A → ℕ) (xs : List A) (i : ℕ) (y d : A)
      → i < length xs
      → total f (set xs i y) + f (get_or xs i d) ≡ total f xs + f y
  total-set_or f xs i y d inside =
      total-set f xs i (get_or xs i d) y (get_elem?-get_or xs i d inside)

  pub total-replicate : (f : A → ℕ) (n k : ℕ) (a : A) → f a ≡ k → total f (replicate n a) ≡ n * k
  unfolding total
  total-replicate f zero k a e = omega arith
  total-replicate f (suc n) k a e = omega (arith, total-replicate f n k a e)

  pub total-le-length : (f : A → ℕ) → ((a : A) → f a ≤ 1) → (xs : List A) → total f xs ≤ length xs
  unfolding total
  total-le-length f small [] = omega arith
  total-le-length f small (x ∷ xs) = omega (arith, small x, total-le-length f small xs)

  pub le-total :
      (f : A → ℕ) (xs : List A) (i : ℕ) (d : A) → i < length xs → f (get_or xs i d) ≤ total f xs
  unfolding total
  le-total f [] i d inside = absurd (omega arith)
  le-total f (x ∷ xs) zero d inside = omega arith
  le-total f (x ∷ xs) (suc i) d inside = omega (arith, le-total f xs i d (omega arith))
