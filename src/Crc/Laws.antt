-- ===== src/Crc/Laws.antt =====
-- src/crc16.cpp: the check value's width, and what it depends on.
use new_mavlink.Common.{ℕ, zero, suc, ◌+◌, ◌^◌, ◌<◌, ◌≡◌, refl, some, Buffer, arith}
use new_mavlink.Crc.{crc_bit, crc_bits, crc_byte, crc_loop, crc16_ccitt}

pub crc_bit-lt : (crc : ℕ) → crc_bit crc < 2 ^ 16
unfolding crc_bit
crc_bit-lt crc = ground arith

crc_bits-lt : (left crc : ℕ) → crc < 2 ^ 16 → crc_bits left crc < 2 ^ 16
unfolding crc_bits
crc_bits-lt zero crc h = h
crc_bits-lt (suc left) crc h = crc_bits-lt left (crc_bit crc) (crc_bit-lt crc)

pub crc_byte-lt : (crc byte : ℕ) → crc_byte crc byte < 2 ^ 16
unfolding crc_byte
crc_byte-lt crc byte = crc_bits-lt 8 _ (omega arith)

crc_loop-lt : (left i : ℕ) (m : Buffer) (crc : ℕ) → crc < 2 ^ 16 → crc_loop left i m crc < 2 ^ 16
unfolding crc_loop
crc_loop-lt zero i m crc h = h
crc_loop-lt (suc left) i m crc h = crc_loop-lt left (i + 1) m _ (crc_byte-lt crc (m i))

pub crc16_ccitt-lt : (m : Buffer) (n : ℕ) → crc16_ccitt (some m) n < 2 ^ 16
unfolding crc16_ccitt
crc16_ccitt-lt m n = crc_loop-lt n 0 m 0xffff (omega arith)

crc_loop_ext :
    (left i : ℕ) (m m' : Buffer) (crc : ℕ)
    → ((j : ℕ) → j < i + left → m j ≡ m' j)
    → crc_loop left i m crc ≡ crc_loop left i m' crc
unfolding crc_loop
crc_loop_ext zero i m m' crc h = refl
crc_loop_ext (suc left) i m m' crc h =
    rw (h i (omega arith)) (crc_loop_ext left (i + 1) m m' _ (λ j p. h j (omega arith)))

-- The check value depends on the bytes in range alone.
pub crc16_ccitt_ext :
    (m m' : Buffer) (n : ℕ)
    → ((j : ℕ) → j < n → m j ≡ m' j)
    → crc16_ccitt (some m) n ≡ crc16_ccitt (some m') n
unfolding crc16_ccitt
crc16_ccitt_ext m m' n h = crc_loop_ext n 0 m m' 0xffff (λ j p. h j (omega arith))
