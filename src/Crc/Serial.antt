-- ===== src/Crc/Serial.antt =====
-- The bit-serial register that a table-driven checksum speeds up, and its linearity.
pub mod Injective
use native.Mathlib.Nat.{pow-suc}
use linux_programs.Common.{
  sym, ℕ, zero, suc, ◌+◌, ◌*◌, ◌/◌, ◌%◌, ◌^◌, ◌<◌, ◌≡◌, refl, ap, ◌∙◌, ◌≤◌, arith, ◌==◌,
  if◌then◌else◌, bit_xor, List, [], ◌∷◌, Bool-cases, inl, inr, true, false, ◌⊎◌,
}
use linux_programs.Common.Bits.{
  half-bit_xor, parity-bit_xor, bit_xor_assoc, bit_xor_comm, bit_xor_cancel, bit_xor_fields,
  zero-bit_xor, bit_xor-lt-pow, bit_xor_low, bit_xor_self, eq_of_bit_xor-zero, bit_xor-injective,
}
use linux_programs.Common.Tables.{All}

module _ (poly : ℕ) where
  -- Shift one bit out; if it is set, the polynomial is taken off.
  unfoldable pub shift_bit : ℕ → ℕ
  shift_bit c = if c % 2 == 1 then bit_xor (c / 2) poly else c / 2

  unfoldable pub shift_bits : ℕ → ℕ → ℕ
  shift_bits zero c = c
  shift_bits (suc k) c = shift_bits k (shift_bit c)

  -- A byte enters at the low end, and eight bits are shifted out.
  unfoldable pub feed : ℕ → ℕ → ℕ
  feed c byte = shift_bits 8 (bit_xor c byte)

  unfoldable pub feed_all : ℕ → List ℕ → ℕ
  feed_all c [] = c
  feed_all c (b ∷ bytes) = feed_all (feed c b) bytes

  pub shift_bit-even : (c : ℕ) → c % 2 ≡ 0 → shift_bit c ≡ c / 2
  unfolding shift_bit
  shift_bit-even c h = rw h

  pub shift_bit-odd : (c : ℕ) → c % 2 ≡ 1 → shift_bit c ≡ bit_xor (c / 2) poly
  unfolding shift_bit
  shift_bit-odd c h = rw h

pub parity : (c : ℕ) → (c % 2 ≡ 0) ⊎ (c % 2 ≡ 1)
parity c = elim (Bool-cases (c % 2 == 1)) [
  | inl e ↦ inr (ground arith)
  | inr e ↦ inl (ground arith)
]

xor_swap : (a p b : ℕ) → bit_xor (bit_xor a p) b ≡ bit_xor (bit_xor a b) p
xor_swap a p b = rw (bit_xor_assoc a p b, bit_xor_comm p b, ← bit_xor_assoc a b p)

xor_drop : (a b p : ℕ) → bit_xor (bit_xor a p) (bit_xor b p) ≡ bit_xor a b
xor_drop a b p = rw (bit_xor_comm b p, ← bit_xor_assoc (bit_xor a p) p b, bit_xor_cancel a p)

module _ (poly : ℕ) where
  shift_bit-bit_xor :
      (a b : ℕ) → shift_bit poly (bit_xor a b) ≡ bit_xor (shift_bit poly a) (shift_bit poly b)
  shift_bit-bit_xor a b = elim (parity a) [
    | inl p ↦ elim (parity b) [
      | inl q ↦
          rw
            (
              shift_bit-even poly (bit_xor a b) (omega (arith, parity-bit_xor a b)),
              shift_bit-even poly a p,
              shift_bit-even poly b q,
            )
            (half-bit_xor a b)
      | inr q ↦
          rw
            (
              shift_bit-odd poly (bit_xor a b) (omega (arith, parity-bit_xor a b)),
              shift_bit-even poly a p,
              shift_bit-odd poly b q,
              half-bit_xor a b,
            )
            (bit_xor_assoc (a / 2) (b / 2) poly)
    ]
    | inr p ↦ elim (parity b) [
      | inl q ↦
          rw
            (
              shift_bit-odd poly (bit_xor a b) (omega (arith, parity-bit_xor a b)),
              shift_bit-odd poly a p,
              shift_bit-even poly b q,
              half-bit_xor a b,
            )
            (sym (xor_swap (a / 2) poly (b / 2)))
      | inr q ↦
          rw
            (
              shift_bit-even poly (bit_xor a b) (omega (arith, parity-bit_xor a b)),
              shift_bit-odd poly a p,
              shift_bit-odd poly b q,
              half-bit_xor a b,
            )
            (sym (xor_drop (a / 2) (b / 2) poly))
    ]
  ]

  -- Shifting is linear over the exclusive or.
  pub shift_bits-bit_xor :
      (k a b : ℕ)
      → shift_bits poly k (bit_xor a b) ≡ bit_xor (shift_bits poly k a) (shift_bits poly k b)
  unfolding shift_bits
  shift_bits-bit_xor zero a b = refl
  shift_bits-bit_xor (suc k) a b =
      rw (shift_bit-bit_xor a b) (shift_bits-bit_xor k (shift_bit poly a) (shift_bit poly b))

  shift_bits-mul-pow : (k q : ℕ) → shift_bits poly k (q * 2 ^ k) ≡ q
  unfolding shift_bits
  shift_bits-mul-pow zero q = omega arith
  shift_bits-mul-pow (suc k) q =
      let e : q * 2 ^ suc k ≡ 2 * (q * 2 ^ k) =
        omega (arith, ap (λ (t : ℕ). q * t) (pow-suc 2 k)) in
      rw (shift_bit-even poly (q * 2 ^ suc k) (omega (arith, e)))
        (rw (div_two q k e) (shift_bits-mul-pow k q))
    where
      div_two : (q k : ℕ) → q * 2 ^ suc k ≡ 2 * (q * 2 ^ k) → q * 2 ^ suc k / 2 ≡ q * 2 ^ k
      div_two q k e = omega (arith, e)

  -- The high part comes out unchanged, the low `k` bits are shifted on their own.
  pub shift_bits-fields :
      (k q r : ℕ) → r < 2 ^ k → shift_bits poly k (q * 2 ^ k + r) ≡ bit_xor q (shift_bits poly k r)
  shift_bits-fields k q r h =
      rw (← bit_xor_fields k q r h, shift_bits-bit_xor k (q * 2 ^ k) r, shift_bits-mul-pow k q)

  pub shift_bit-lt : (w c : ℕ) → poly < 2 ^ w → c < 2 ^ w → shift_bit poly c < 2 ^ w
  shift_bit-lt w c hp hc = elim (parity c) [
    | inl p ↦ rw (shift_bit-even poly c p) (omega arith)
    | inr p ↦ rw (shift_bit-odd poly c p) (bit_xor-lt-pow w (c / 2) poly (omega arith) hp)
  ]

  -- A register of `w` bits stays one.
  pub shift_bits-lt : (w k c : ℕ) → poly < 2 ^ w → c < 2 ^ w → shift_bits poly k c < 2 ^ w
  unfolding shift_bits
  shift_bits-lt w zero c hp hc = hc
  shift_bits-lt w (suc k) c hp hc = shift_bits-lt w k (shift_bit poly c) hp (shift_bit-lt w c hp hc)

  byte_split : (c b : ℕ) → b < 256 → bit_xor c b ≡ c / 256 * 2 ^ 8 + bit_xor (c % 256) b
  byte_split c b h =
      let e : c ≡ c / 256 * 2 ^ 8 + c % 256 = omega arith in
      ap (λ t. bit_xor t b) e ∙ bit_xor_low 8 (c / 256) (c % 256) b (omega arith) h

  -- A byte step, from the table of the steps of all bytes.
  pub feed-table :
      (c b : ℕ)
      → b < 256
      → feed poly c b ≡ bit_xor (c / 256) (shift_bits poly 8 (bit_xor c b % 256))
  unfolding feed
  feed-table c b h =
      let s = bit_xor (c % 256) b in
      let small : s < 256 = bit_xor-lt-pow 8 (c % 256) b (omega arith) h in
      let low : bit_xor c b % 256 ≡ s = omega (arith, byte_split c b h) in
      rw (low, byte_split c b h) (shift_bits-fields 8 (c / 256) s small)

  pub feed-lt : (w c b : ℕ) → poly < 2 ^ w → c < 2 ^ w → b < 2 ^ w → feed poly c b < 2 ^ w
  unfolding feed
  feed-lt w c b hp hc hb = shift_bits-lt w 8 (bit_xor c b) hp (bit_xor-lt-pow w c b hc hb)
