-- ===== src/Crc/Serial/Injective.antt =====
-- Shifting loses nothing, so a difference in the register or in a byte survives every later byte.
use native.Mathlib.Nat.{pow-suc}
use linux_programs.Common.{
  ℕ, zero, suc, ◌/◌, ◌^◌, ◌≤◌, ◌<◌, ◌≡◌, ap, sym, ◌∙◌, arith, bit_xor, List, [], ◌∷◌, inl, inr,
}
use linux_programs.Common.Bits.{
  bit_xor_self, eq_of_bit_xor-zero, bit_xor-injective, bit_xor-lt-pow, bit_xor_comm,
}
use linux_programs.Common.Tables.{All}
use linux_programs.Crc.Serial.{
  shift_bit, shift_bits, feed, feed_all, parity, shift_bit-even, shift_bit-odd, shift_bit-lt,
  shift_bits-bit_xor, feed-lt,
}

module _ (poly : ℕ) where
  -- With the top bit in the polynomial no register but 0 is shifted out to 0.
  module _ (w : ℕ) (top : 2 ^ w ≤ poly) (fits : poly < 2 ^ suc w) where
    shift_bit-zero : (a : ℕ) → a < 2 ^ suc w → shift_bit poly a ≡ 0 → a ≡ 0
    shift_bit-zero a p e = elim (parity a) [
      | inl even ↦ omega (arith, shift_bit-even poly a even)
      | inr odd ↦
          let half : a / 2 ≡ poly =
            eq_of_bit_xor-zero (a / 2) poly (sym (shift_bit-odd poly a odd) ∙ e) in
          absurd (omega (arith, half, pow-suc 2 w))
    ]

    shift_bits-zero : (k a : ℕ) → a < 2 ^ suc w → shift_bits poly k a ≡ 0 → a ≡ 0
    unfolding shift_bits
    shift_bits-zero zero a p e = e
    shift_bits-zero (suc k) a p e =
        shift_bit-zero a p
          (shift_bits-zero k (shift_bit poly a) (shift_bit-lt poly (suc w) a fits p) e)

    -- So shifting loses nothing: two registers that come out equal went in equal.
    pub shift_bits-injective :
        (k a b : ℕ)
        → a < 2 ^ suc w
        → b < 2 ^ suc w
        → shift_bits poly k a ≡ shift_bits poly k b
        → a ≡ b
    shift_bits-injective k a b p q e = eq_of_bit_xor-zero a b (
        shift_bits-zero k (bit_xor a b) (bit_xor-lt-pow (suc w) a b p q) (
          shift_bits-bit_xor poly k a b
          ∙ (ap (λ t. bit_xor t (shift_bits poly k b)) e ∙ bit_xor_self (shift_bits poly k b))))

    feed-injective :
        (b c d : ℕ)
        → b < 2 ^ suc w
        → c < 2 ^ suc w
        → d < 2 ^ suc w
        → feed poly c b ≡ feed poly d b
        → c ≡ d
    unfolding feed
    feed-injective b c d hb p q e =
        let same =
          shift_bits-injective 8 (bit_xor c b) (bit_xor d b) (bit_xor-lt-pow (suc w) c b p hb)
            (bit_xor-lt-pow (suc w) d b q hb) e in
        bit_xor-injective b (bit_xor_comm b c ∙ (same ∙ bit_xor_comm d b))

    pub feed-injective_byte :
        (c a b : ℕ)
        → c < 2 ^ suc w
        → a < 2 ^ suc w
        → b < 2 ^ suc w
        → feed poly c a ≡ feed poly c b
        → a ≡ b
    unfolding feed
    feed-injective_byte c a b h p q e = bit_xor-injective c (
        shift_bits-injective 8 (bit_xor c a) (bit_xor c b) (bit_xor-lt-pow (suc w) c a h p)
          (bit_xor-lt-pow (suc w) c b h q) e)

    -- The bytes that follow keep two registers apart.
    pub feed_all-injective :
        (bytes : List ℕ) (c d : ℕ)
        → All (λ b. b < 2 ^ suc w) bytes
        → c < 2 ^ suc w
        → d < 2 ^ suc w
        → feed_all poly c bytes ≡ feed_all poly d bytes
        → c ≡ d
    unfolding feed_all
    feed_all-injective [] c d h p q e = e
    feed_all-injective (b ∷ bytes) c d h p q e = feed-injective b c d h.0 p q (
        feed_all-injective bytes (feed poly c b) (feed poly d b) h.1
          (feed-lt poly (suc w) c b fits p h.0) (feed-lt poly (suc w) d b fits q h.0) e)
