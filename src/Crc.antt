-- ===== src/Crc.antt =====
-- src/crc16.cpp: CRC-16/CCITT, bit by bit.
pub mod Laws
pub mod Errors
use new_mavlink.Common.{
  ℕ, zero, suc, ◌+◌, ◌*◌, ◌^◌, bit_and, bit_xor, none, some, Buffer, Pointer, Zeros, u16, ◌!=◌,
  if◌then◌else◌,
}

-- One round of the inner loop.
unfoldable pub crc_bit : ℕ → ℕ
crc_bit crc =
    if bit_and crc 0x8000 != 0 then u16 (bit_xor (crc * 2 ^ 1) 0x1021) else u16 (crc * 2 ^ 1)

unfoldable pub crc_bits : ℕ → ℕ → ℕ
unfolding crc_bit
crc_bits zero crc = crc
crc_bits (suc left) crc = crc_bits left (crc_bit crc)

-- One round of the outer loop: `crc ^= byte << 8`, then eight bits.
unfoldable pub crc_byte : ℕ → ℕ → ℕ
unfolding crc_bits
crc_byte crc byte = crc_bits 8 (u16 (bit_xor crc (byte * 2 ^ 8)))

unfoldable pub crc_loop : ℕ → ℕ → Buffer → ℕ → ℕ
unfolding crc_byte
crc_loop zero i bytes crc = crc
crc_loop (suc left) i bytes crc = crc_loop left (i + 1) bytes (crc_byte crc (bytes i))

unfoldable pub crc16_ccitt : Pointer → ℕ → ℕ
unfolding crc_loop
crc16_ccitt none length = if length != 0 then 0 else crc_loop length 0 Zeros 0xffff
crc16_ccitt (some bytes) length = crc_loop length 0 bytes 0xffff
