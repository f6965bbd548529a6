-- ===== src/Crc/Crc32.antt =====
-- `CRC32` of crc/crc32.c against the bit-serial register with the polynomial 0xEDB88320.
use linux_programs.Common.{
  ℕ, ◌/◌, ◌%◌, ◌^◌, ◌<◌, ◌≡◌, refl, sym, ap, ◌∙◌, arith, ◌==◌, ==_iff, true, List, [], ◌∷◌, ◌++◌,
  get_or, bit_xor,
}
use linux_programs.Common.Bits.{bit_xor-lt-pow, bit_xor_comm, bit_xor_cancel}
use linux_programs.Common.Tables.{every_entry, entry_of_every, All}
use linux_programs.Crc.Serial.{shift_bit, shift_bits, feed, feed_all, feed-table, feed-lt}
use linux_programs.Crc.Serial.Injective.{feed_all-injective, feed-injective_byte}
use linux_programs.Crc.Table.{crc32_tab}
use linux_programs.Crc.{round32, loop32, crc32}

abbrev pub poly32 : ℕ
poly32 = 0xedb88320

abbrev pub IsBytes : List ℕ → Type 0
IsBytes = All (λ b. b < 256)

table_check : every_entry (λ i. get_or crc32_tab i 0 == shift_bits poly32 8 i) 256 ≡ true
unfolding every_entry shift_bits shift_bit
table_check = refl

table_lem : (i : ℕ) → i < 256 → get_or crc32_tab i 0 ≡ shift_bits poly32 8 i
table_lem i h =
    (==_iff _ _).0
      (entry_of_every (λ i. get_or crc32_tab i 0 == shift_bits poly32 8 i) 256 i h table_check)

round32-feed : (c b : ℕ) → c < 2 ^ 32 → b < 256 → round32 c b ≡ feed poly32 c b
unfolding round32
round32-feed c b hc hb =
    let high : c / 2 ^ 8 % 2 ^ 24 ≡ c / 256 = omega arith in
    rw (table_lem (bit_xor c b % 2 ^ 8) (omega arith), high)
      (bit_xor_comm (shift_bits poly32 8 (bit_xor c b % 256)) (c / 256)
        ∙ sym (feed-table poly32 c b hb))

byte_fits : (b : ℕ) → b < 256 → b < 2 ^ 32
byte_fits b h = omega arith

loop32-feed_all :
    (bytes : List ℕ) (c : ℕ)
    → IsBytes bytes
    → c < 2 ^ 32
    → (loop32 c bytes ≡ feed_all poly32 c bytes) × (loop32 c bytes < 2 ^ 32)
unfolding loop32 feed_all
loop32-feed_all [] c h hc = (refl, hc)
loop32-feed_all (b ∷ bytes) c h hc = rw (round32-feed c b hc h.0) (
    loop32-feed_all bytes (feed poly32 c b) h.1
      (feed-lt poly32 32 c b (omega arith) hc (byte_fits b h.0)))

-- For bytes and a 32-bit start value `CRC32` returns the result of the bit-serial register with
-- the reflected polynomial 0xEDB88320, complemented before and after, and it fits 32 bits.
pub crc32-eq-feed_all :
    (bytes : List ℕ) (crc : ℕ)
    → IsBytes bytes
    → crc < 2 ^ 32
    → (crc32 bytes crc ≡ bit_xor (feed_all poly32 (bit_xor crc 0xffffffff) bytes) 0xffffffff)
      × (crc32 bytes crc < 2 ^ 32)
unfolding crc32
crc32-eq-feed_all bytes crc h hc =
    let start = bit_xor-lt-pow 32 crc 0xffffffff hc (omega arith) in
    let both = loop32-feed_all bytes (bit_xor crc 0xffffffff) h start in
    (
      ap (λ t. bit_xor t 0xffffffff) both.0,
      bit_xor-lt-pow 32 (loop32 (bit_xor crc 0xffffffff) bytes) 0xffffffff both.1 (omega arith),
    )

loop32-append : (xs ys : List ℕ) (c : ℕ) → loop32 c (xs ++ ys) ≡ loop32 (loop32 c xs) ys
unfolding loop32
loop32-append [] ys c = refl
loop32-append (x ∷ xs) ys c = loop32-append xs ys (round32 c x)

-- The checksum of a message in two parts is that of the second part, started from the result of
-- the first: the third argument carries a checksum on over successive buffers.
pub crc32-append : (xs ys : List ℕ) (crc : ℕ) → crc32 (xs ++ ys) crc ≡ crc32 ys (crc32 xs crc)
unfolding crc32
crc32-append xs ys crc =
    rw (bit_xor_cancel (loop32 (bit_xor crc 0xffffffff) xs) 0xffffffff)
      (ap (λ t. bit_xor t 0xffffffff) (loop32-append xs ys (bit_xor crc 0xffffffff)))

All-middle :
    (xs : List ℕ) (a : ℕ) (ys : List ℕ)
    → IsBytes (xs ++ (a ∷ ys))
    → IsBytes xs × (a < 256) × IsBytes ys
All-middle [] a ys h = (tt, h.0, h.1)
All-middle (x ∷ xs) a ys h = let rest = All-middle xs a ys h.1 in ((h.0, rest.0), rest.1, rest.2)

All-wide : (xs : List ℕ) → IsBytes xs → All (λ b. b < 2 ^ 32) xs
All-wide [] h = tt
All-wide (x ∷ xs) h = (byte_fits x h.0, All-wide xs h.1)

loop32-detects :
    (a b : ℕ) (post : List ℕ) (c : ℕ)
    → c < 2 ^ 32
    → a < 256
    → b < 256
    → IsBytes post
    → loop32 c (a ∷ post) ≡ loop32 c (b ∷ post)
    → a ≡ b
loop32-detects a b post c hc ha hb hp e =
    let fa = loop32-feed_all (a ∷ post) c (ha, hp) hc in
    let fb = loop32-feed_all (b ∷ post) c (hb, hp) hc in
    let steps : feed_all poly32 (feed poly32 c a) post ≡ feed_all poly32 (feed poly32 c b) post =
      unfold feed_all in sym fa.0 ∙ (e ∙ fb.0) in
    feed-injective_byte poly32 31 (omega arith) (omega arith) c a b hc (byte_fits a ha)
      (byte_fits b hb)
      (feed_all-injective poly32 31 (omega arith) (omega arith) post (feed poly32 c a)
        (feed poly32 c b) (All-wide post hp)
        (feed-lt poly32 32 c a (omega arith) hc (byte_fits a ha))
        (feed-lt poly32 32 c b (omega arith) hc (byte_fits b hb)) steps)

-- Two messages of bytes that differ in one place only have different checksums: a corruption of
-- one byte is always seen.
pub crc32-detects :
    (pre : List ℕ) (a b : ℕ) (post : List ℕ) (crc : ℕ)
    → IsBytes (pre ++ (a ∷ post))
    → b < 256
    → crc < 2 ^ 32
    → crc32 (pre ++ (a ∷ post)) crc ≡ crc32 (pre ++ (b ∷ post)) crc
    → a ≡ b
unfolding crc32
crc32-detects pre a b post crc h hb hc e =
    let parts = All-middle pre a post h in
    let start = bit_xor-lt-pow 32 crc 0xffffffff hc (omega arith) in
    let c = loop32 (bit_xor crc 0xffffffff) pre in
    let before = loop32-feed_all pre (bit_xor crc 0xffffffff) parts.0 start in
    loop32-detects a b post c before.1 parts.1 hb parts.2 (
      sym (loop32-append pre (a ∷ post) (bit_xor crc 0xffffffff))
      ∙ (sym (bit_xor_cancel _ 0xffffffff)
          ∙ (ap (λ t. bit_xor t 0xffffffff) e
              ∙ (bit_xor_cancel _ 0xffffffff
                  ∙ loop32-append pre (b ∷ post) (bit_xor crc 0xffffffff)))))
