-- ===== src/Common/Bits.antt =====
-- `bit_xor` at variables: the law for the lowest digit, and the group laws that follow from it.
use Prim.Native.Nat.{
  ℕ, zero, suc, ◌+◌, ◌*◌, ◌/◌, ◌%◌, ◌^◌, ◌≤◌, ◌<◌, bit_xor, bit_xor-bitwise, differ,
}
use mathlib.Core.Path.{◌≡◌, refl, sym, ◌∙◌, ap}
use native.Mathlib.Nat.{le_refl, pow-suc}
use native.Mathlib.Omega.{arith}
use linux_programs.Common.Digits.{first_digit}

differ-mod : (a b : ℕ) → differ (a % 2) (b % 2) ≡ (a + b) % 2
differ-mod a b = grind arith

pub zero-bit_xor : (b : ℕ) → bit_xor 0 b ≡ b
zero-bit_xor b = bit_xor-bitwise 0 b

pub bit_xor_step : (a b : ℕ) → bit_xor a b ≡ bit_xor (a / 2) (b / 2) * 2 + (a + b) % 2
bit_xor_step zero b = omega (arith, zero-bit_xor b, zero-bit_xor (b / 2))
bit_xor_step (suc a) b = rw (← differ-mod (suc a) b) (simp bit_xor-bitwise (first_digit differ a b))

pub half-bit_xor : (a b : ℕ) → bit_xor a b / 2 ≡ bit_xor (a / 2) (b / 2)
half-bit_xor a b = omega (arith, bit_xor_step a b)

pub parity-bit_xor : (a b : ℕ) → bit_xor a b % 2 ≡ (a + b) % 2
parity-bit_xor a b = omega (arith, bit_xor_step a b)

-- Two numbers with one half and one parity are equal; the laws below go by it, with fuel.
eq_of_halves : (a b : ℕ) → a / 2 ≡ b / 2 → a % 2 ≡ b % 2 → a ≡ b
eq_of_halves a b p q = omega arith

comm_fuel : (n a b : ℕ) → a ≤ n → b ≤ n → bit_xor a b ≡ bit_xor b a
comm_fuel zero a b p q = let e : a ≡ b = omega arith in rw e refl
comm_fuel (suc n) a b p q = omega (
  arith,
  bit_xor_step a b,
  bit_xor_step b a,
  comm_fuel n (a / 2) (b / 2) (omega arith) (omega arith),
)

pub bit_xor_comm : (a b : ℕ) → bit_xor a b ≡ bit_xor b a
bit_xor_comm a b = comm_fuel (a + b) a b (omega arith) (omega arith)

pub bit_xor-zero : (a : ℕ) → bit_xor a 0 ≡ a
bit_xor-zero a = bit_xor_comm a 0 ∙ zero-bit_xor a

assoc_fuel :
    (n a b c : ℕ) → a ≤ n → b ≤ n → c ≤ n → bit_xor (bit_xor a b) c ≡ bit_xor a (bit_xor b c)
assoc_fuel zero zero b c p q r = rw (zero-bit_xor b, zero-bit_xor (bit_xor b c))
assoc_fuel zero (suc a) b c p q r = absurd (omega arith)
assoc_fuel (suc n) a b c p q r =
    eq_of_halves _ _
      (rw (half-bit_xor, half-bit_xor, half-bit_xor, half-bit_xor)
        (assoc_fuel n (a / 2) (b / 2) (c / 2) (omega arith) (omega arith) (omega arith)))
      (omega (
        arith,
        parity-bit_xor (bit_xor a b) c,
        parity-bit_xor a b,
        parity-bit_xor a (bit_xor b c),
        parity-bit_xor b c,
      ))

pub bit_xor_assoc : (a b c : ℕ) → bit_xor (bit_xor a b) c ≡ bit_xor a (bit_xor b c)
bit_xor_assoc a b c = assoc_fuel (a + b + c) a b c (omega arith) (omega arith) (omega arith)

self_fuel : (n a : ℕ) → a ≤ n → bit_xor a a ≡ 0
self_fuel zero a h = let e : a ≡ 0 = omega arith in rw e (zero-bit_xor 0)
self_fuel (suc n) a h = omega (arith, bit_xor_step a a, self_fuel n (a / 2) (omega arith))

pub bit_xor_self : (a : ℕ) → bit_xor a a ≡ 0
bit_xor_self a = self_fuel a a (le_refl _)

-- Twice the same mask changes nothing.
pub bit_xor_cancel : (a m : ℕ) → bit_xor (bit_xor a m) m ≡ a
bit_xor_cancel a m = rw (bit_xor_assoc a m m, bit_xor_self m) (bit_xor-zero a)

pub cancel_bit_xor : (m a : ℕ) → bit_xor m (bit_xor m a) ≡ a
cancel_bit_xor m a = rw (← bit_xor_assoc m m a, bit_xor_self m) (zero-bit_xor a)

pub bit_xor-injective : (m : ℕ) {a b : ℕ} → bit_xor m a ≡ bit_xor m b → a ≡ b
bit_xor-injective m {a} {b} e = rw (← cancel_bit_xor m a, ← cancel_bit_xor m b, e)

pub eq_of_bit_xor-zero : (a b : ℕ) → bit_xor a b ≡ 0 → a ≡ b
eq_of_bit_xor-zero a b e = sym (bit_xor_cancel a b) ∙ (ap (λ t. bit_xor t b) e ∙ zero-bit_xor b)

-- The result fits the width of the operands.
pub bit_xor-lt-pow : (k a b : ℕ) → a < 2 ^ k → b < 2 ^ k → bit_xor a b < 2 ^ k
bit_xor-lt-pow zero a b p q = let e : a ≡ 0 = omega arith in rw (e, zero-bit_xor b) q
bit_xor-lt-pow (suc k) a b p q = omega (
  arith,
  pow-suc 2 k,
  bit_xor_step a b,
  bit_xor-lt-pow k (a / 2) (b / 2) (omega (arith, pow-suc 2 k)) (omega (arith, pow-suc 2 k)),
)

doubled : (k q : ℕ) → q * 2 ^ suc k ≡ q * 2 ^ k + q * 2 ^ k
doubled k q = ap (λ (t : ℕ). q * t) (pow-suc 2 k) ∙ omega arith

-- A number is the exclusive or of its high part and its low `k` bits.
pub bit_xor_fields : (k q r : ℕ) → r < 2 ^ k → bit_xor (q * 2 ^ k) r ≡ q * 2 ^ k + r
bit_xor_fields zero q r h =
    let e : r ≡ 0 = omega arith in rw e (bit_xor-zero (q * 2 ^ 0) ∙ omega arith)
bit_xor_fields (suc k) q r h = ground (
  arith,
  bit_xor_step (q * 2 ^ suc k) r,
  doubled k q,
  bit_xor_fields k q (r / 2) (omega (arith, pow-suc 2 k)),
)

-- An operand that fits `k` bits leaves the other bits of the first one alone.
pub bit_xor_low :
    (k q r b : ℕ) → r < 2 ^ k → b < 2 ^ k → bit_xor (q * 2 ^ k + r) b ≡ q * 2 ^ k + bit_xor r b
bit_xor_low k q r b h p =
    rw (← bit_xor_fields k q r h, bit_xor_assoc (q * 2 ^ k) r b)
      (bit_xor_fields k q (bit_xor r b) (bit_xor-lt-pow k r b h p))
