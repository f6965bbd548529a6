-- ===== src/Crc/Crc16.antt =====
-- `CRC16` of crc/crc16.c against the bit-serial register with the polynomial 0xA001.
use linux_programs.Common.{
  ℕ, ◌+◌, ◌*◌, ◌/◌, ◌%◌, ◌^◌, ◌<◌, ◌≡◌, refl, sym, ap, ◌∙◌, arith, ◌==◌, ==_iff, true, Bool, List,
  [], ◌∷◌, ◌++◌, get_or, bit_xor, ltb, ltb→lt,
}
use linux_programs.Common.Bits.{
  bit_xor-lt-pow, bit_xor_comm, bit_xor_low, bit_xor_self, bit_xor-zero,
}
use linux_programs.Common.Tables.{every_entry, entry_of_every}
use linux_programs.Crc.Serial.{shift_bit, shift_bits, feed, feed_all, feed-table, shift_bits-lt}
use linux_programs.Crc.Table.{arr_crc_hi, arr_crc_lo}
use linux_programs.Crc.{Regs, round16, loop16, crc16}
use linux_programs.Crc.Crc32.{IsBytes}

abbrev pub poly16 : ℕ
poly16 = 0xa001

-- Despite their names, `arr_crc_lo` holds the high bytes of the steps, `arr_crc_hi` the low ones.
abbrev entry_ok : ℕ → Bool
entry_ok i = get_or arr_crc_lo i 0 * 2 ^ 8 + get_or arr_crc_hi i 0 == shift_bits poly16 8 i

table_check : every_entry entry_ok 256 ≡ true
unfolding every_entry shift_bits shift_bit
table_check = refl

small_check : every_entry (λ i. ltb (get_or arr_crc_hi i 0) (2 ^ 8)) 256 ≡ true
unfolding every_entry
small_check = refl

table_lem :
    (i : ℕ)
    → i < 256
    → get_or arr_crc_lo i 0 * 2 ^ 8 + get_or arr_crc_hi i 0 ≡ shift_bits poly16 8 i
table_lem i h = (==_iff _ _).0 (entry_of_every entry_ok 256 i h table_check)

table_small : (i : ℕ) → i < 256 → get_or arr_crc_hi i 0 < 2 ^ 8
table_small i h =
    ltb→lt _ _ (entry_of_every (λ i. ltb (get_or arr_crc_hi i 0) (2 ^ 8)) 256 i h small_check)

-- The register that the two bytes make up.
abbrev value : Regs → ℕ
value r = r.crc_hi * 2 ^ 8 + r.crc_lo

record IsRegs (r : Regs) : Type 0 where
  hi_byte : r.crc_hi < 256
  lo_byte : r.crc_lo < 256

round16-feed :
    (r : Regs) (b : ℕ) → IsRegs r → b < 256 → value (round16 r b) ≡ feed poly16 (value r) b
unfolding round16
round16-feed r b v hb =
    let i = bit_xor r.crc_lo b in
    let small : i < 256 = bit_xor-lt-pow 8 r.crc_lo b v.lo_byte hb in
    let th = table_small i small in
    let mixed = bit_xor-lt-pow 8 r.crc_hi (get_or arr_crc_hi i 0) v.hi_byte th in
    let whole : bit_xor (value r) b ≡ r.crc_hi * 2 ^ 8 + i =
      bit_xor_low 8 r.crc_hi r.crc_lo b v.lo_byte hb in
    let index : bit_xor (value r) b % 256 ≡ i = omega (arith, whole) in
    let high : value r / 256 ≡ r.crc_hi = omega (arith, v.lo_byte) in
    let cut : bit_xor r.crc_hi (get_or arr_crc_hi i 0) % 2 ^ 8
        ≡ bit_xor r.crc_hi (get_or arr_crc_hi i 0) =
      omega (arith, mixed) in
    rw (feed-table poly16 (value r) b hb, index, high, ← table_lem i small, cut)
      (ap (λ t. get_or arr_crc_lo i 0 * 2 ^ 8 + t) (bit_xor_comm r.crc_hi (get_or arr_crc_hi i 0))
        ∙ (sym (bit_xor_low 8 (get_or arr_crc_lo i 0) (get_or arr_crc_hi i 0) r.crc_hi th v.hi_byte)
            ∙ bit_xor_comm _ r.crc_hi))

round16-IsRegs : (r : Regs) (b : ℕ) → IsRegs r → b < 256 → IsRegs (round16 r b)
unfolding round16
round16-IsRegs r b v hb =
    let i = bit_xor r.crc_lo b in
    let small : i < 256 = bit_xor-lt-pow 8 r.crc_lo b v.lo_byte hb in
    let entry = shift_bits-lt poly16 16 8 i (omega arith) (omega arith) in
    record { hi_byte = omega (arith, table_lem i small, entry); lo_byte = omega arith }

loop16-feed_all :
    (frame : List ℕ) (r : Regs)
    → IsRegs r
    → IsBytes frame
    → (value (loop16 r frame) ≡ feed_all poly16 (value r) frame) × IsRegs (loop16 r frame)
unfolding loop16 feed_all
loop16-feed_all [] r v h = (refl, v)
loop16-feed_all (b ∷ frame) r v h =
    rw (← round16-feed r b v h.0)
      (loop16-feed_all frame (round16 r b) (round16-IsRegs r b v h.0) h.1)

-- For a frame of bytes `CRC16` returns what the bit-serial register with the reflected polynomial
-- 0xA001 holds after the frame when it starts at 0xFFFF, and the result fits 16 bits.
pub crc16-eq-feed_all :
    (frame : List ℕ)
    → IsBytes frame
    → (crc16 frame ≡ feed_all poly16 0xffff frame) × (crc16 frame < 2 ^ 16)
unfolding crc16
crc16-eq-feed_all frame h =
    let start : IsRegs (record { crc_hi = 0xff; crc_lo = 0xff }) = omega arith in
    let both = loop16-feed_all frame (record { crc_hi = 0xff; crc_lo = 0xff }) start h in
    let r = loop16 (record { crc_hi = 0xff; crc_lo = 0xff }) frame in
    let fits : value r % 2 ^ 16 ≡ value r = omega (arith, both.1.hi_byte, both.1.lo_byte) in
    (fits ∙ both.0, omega arith)

feed_all-append :
    (xs ys : List ℕ) (c : ℕ)
    → feed_all poly16 c (xs ++ ys) ≡ feed_all poly16 (feed_all poly16 c xs) ys
unfolding feed_all
feed_all-append [] ys c = refl
feed_all-append (x ∷ xs) ys c = feed_all-append xs ys (feed poly16 c x)

shift_bits-zero : shift_bits poly16 8 0 ≡ 0
unfolding shift_bits shift_bit
shift_bits-zero = refl

cleared : (c : ℕ) → c / 256 * 2 ^ 8 % 256 ≡ 0
cleared c = omega arith

-- The register fed with its own low byte keeps the high byte only.
feed_own_byte : (c : ℕ) → feed poly16 c (c % 256) ≡ c / 256
feed_own_byte c =
    let r = c % 256 in
    let whole : bit_xor c r ≡ c / 256 * 2 ^ 8 =
      ap (λ t. bit_xor t r) (let e : c ≡ c / 256 * 2 ^ 8 + r = omega arith in e)
      ∙ (bit_xor_low 8 (c / 256) r r (omega arith) (omega arith) ∙ omega (arith, bit_xor_self r)) in
    rw (feed-table poly16 c r (omega arith), whole)
      (ap (λ t. bit_xor (c / 256) (shift_bits poly16 8 t)) (cleared c)
        ∙ (ap (λ t. bit_xor (c / 256) t) shift_bits-zero ∙ bit_xor-zero (c / 256)))

feed_own_bytes : (c : ℕ) → c < 2 ^ 16 → feed_all poly16 c (c % 256 ∷ c / 256 ∷ []) ≡ 0
unfolding feed_all
feed_own_bytes c h =
    let small : c / 256 % 256 ≡ c / 256 = omega arith in
    let over : c / 256 / 256 ≡ 0 = omega arith in
    ap (λ t. feed poly16 t (c / 256)) (feed_own_byte c)
    ∙ (ap (λ t. feed poly16 (c / 256) t) (sym small) ∙ (feed_own_byte (c / 256) ∙ over))

IsBytes-append : (xs ys : List ℕ) → IsBytes xs → IsBytes ys → IsBytes (xs ++ ys)
IsBytes-append [] ys h k = k
IsBytes-append (x ∷ xs) ys h k = (h.0, IsBytes-append xs ys h.1 k)

-- A frame of bytes with its checksum behind it, low byte first, has checksum 0: what a receiver
-- that runs `CRC16` over the whole telegram tests.
pub crc16-residue :
    (frame : List ℕ)
    → IsBytes frame
    → crc16 (frame ++ (crc16 frame % 256 ∷ crc16 frame / 256 ∷ [])) ≡ 0
crc16-residue frame h =
    let c = crc16 frame in
    let whole = crc16-eq-feed_all frame h in
    let tail : IsBytes (c % 256 ∷ c / 256 ∷ []) = (omega arith, (omega (arith, whole.1), tt)) in
    (crc16-eq-feed_all (frame ++ (c % 256 ∷ c / 256 ∷ [])) (IsBytes-append frame _ h tail)).0
    ∙ (feed_all-append frame (c % 256 ∷ c / 256 ∷ []) 0xffff
        ∙ (ap (λ t. feed_all poly16 t (c % 256 ∷ c / 256 ∷ [])) (sym whole.0)
            ∙ feed_own_bytes c whole.1))
