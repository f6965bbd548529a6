-- ===== src/Crc/Tests.antt =====
-- The checksums of the usual check message "123456789", and the theorems at concrete frames.
use linux_programs.Common.{ℕ, ◌%◌, ◌/◌, ◌^◌, ◌<◌, ◌≡◌, refl, List, [], ◌∷◌, ◌++◌, arith, bit_xor}
use linux_programs.Crc.Serial.{feed_all}
use linux_programs.Crc.Crc32.{poly32, crc32-eq-feed_all, crc32-append, crc32-detects}
use linux_programs.Crc.Crc16.{poly16, crc16-eq-feed_all, crc16-residue}
use linux_programs.Crc.{round16, loop16, crc16, round32, loop32, crc32}

abbrev digits : List ℕ
digits = 0x31 ∷ 0x32 ∷ 0x33 ∷ 0x34 ∷ 0x35 ∷ 0x36 ∷ 0x37 ∷ 0x38 ∷ 0x39 ∷ []

crc32-digits : crc32 digits 0 ≡ 0xcbf43926
unfolding crc32 loop32 round32
crc32-digits = refl

crc16-digits : crc16 digits ≡ 0x4b37
unfolding crc16 loop16 round16
crc16-digits = refl

crc32-eq-feed_all_example :
    (crc32 digits 0 ≡ bit_xor (feed_all poly32 0xffffffff digits) 0xffffffff)
    × (crc32 digits 0 < 2 ^ 32)
crc32-eq-feed_all_example = crc32-eq-feed_all digits 0 (omega arith) (omega arith)

crc32-append_example : crc32 (digits ++ digits) 0 ≡ crc32 digits (crc32 digits 0)
crc32-append_example = crc32-append digits digits 0

crc32-detects_example : ◌≡◌ {A = ℕ} 0x35 0x35
crc32-detects_example =
    crc32-detects (0x33 ∷ 0x34 ∷ []) 0x35 0x35 (0x36 ∷ []) 0 (omega arith) (omega arith)
      (omega arith) refl

crc16-eq-feed_all_example : (crc16 digits ≡ feed_all poly16 0xffff digits) × (crc16 digits < 2 ^ 16)
crc16-eq-feed_all_example = crc16-eq-feed_all digits (omega arith)

crc16-residue_example : crc16 (digits ++ (crc16 digits % 256 ∷ crc16 digits / 256 ∷ [])) ≡ 0
crc16-residue_example = crc16-residue digits (omega arith)
