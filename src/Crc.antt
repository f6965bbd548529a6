-- ===== src/Crc.antt =====
-- The checksums of the repository: `CRC16` of crc/crc16.c and `CRC32` of crc/crc32.c. A frame is the
-- list of the bytes that the pointer and the length stand for, so a length that is not positive is
-- the empty list.
mod Table
pub mod Serial
pub mod Crc16
pub mod Crc32
mod Tests
use linux_programs.Common.{ℕ, ◌+◌, ◌*◌, ◌/◌, ◌%◌, ◌^◌, List, [], ◌∷◌, get_or, bit_xor}
use Table.{arr_crc_hi, arr_crc_lo, crc32_tab}

-- The two `uint8_t` locals of `CRC16`.
pub record Regs : Type 0 where
  pub crc_hi : ℕ
  pub crc_lo : ℕ

-- One round of the loop of `CRC16`.
pub round16 : Regs → ℕ → Regs
round16 r byte =
    let index = bit_xor r.crc_lo byte in
    record {
      crc_lo = bit_xor r.crc_hi (get_or arr_crc_hi index 0) % 2 ^ 8;
      crc_hi = get_or arr_crc_lo index 0;
    }

pub loop16 : Regs → List ℕ → Regs
loop16 r [] = r
loop16 r (b ∷ frame) = loop16 (round16 r b) frame

-- `( uint16_t )( crc_hi << 8 | crc_lo )`: `crc_lo` is a byte, so the fields do not meet.
pub crc16 : List ℕ → ℕ
crc16 frame =
    let r = loop16 (record { crc_hi = 0xff; crc_lo = 0xff }) frame in
    (r.crc_hi * 2 ^ 8 + r.crc_lo) % 2 ^ 16

-- One round of the loop of `CRC32`; `& 0xFF` is `% 2 ^ 8`, `& 0x00FFFFFF` is `% 2 ^ 24`.
pub round32 : ℕ → ℕ → ℕ
round32 crc byte = bit_xor (get_or crc32_tab (bit_xor crc byte % 2 ^ 8) 0) (crc / 2 ^ 8 % 2 ^ 24)

pub loop32 : ℕ → List ℕ → ℕ
loop32 crc [] = crc
loop32 crc (b ∷ bytes) = loop32 (round32 crc b) bytes

pub crc32 : List ℕ → ℕ → ℕ
crc32 bytes crc = bit_xor (loop32 (bit_xor crc 0xffffffff) bytes) 0xffffffff
