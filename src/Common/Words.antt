-- ===== src/Common/Words.antt =====
-- Casts to the fixed widths, and the bit operations as arithmetic. The native operations are
-- defined by a recursion on binary digits; `Step` gives one equation for the lowest digit.
mod Step
mod Bit
mod Xor
pub use Xor.{bit_xor-lt, bit_xor_cancel, bit_xor_comm, bit_xor_self}
pub use Bit.{
  bit, bit-lt, zero_bit, bit-bit_or, bit-bit_xor, bit-pow, bit_and-pow, bit-shift, bit-mod_pow,
}
use Step.{bit_or_step, bit_and_step, bit_xor_step}
use Prim.Native.Nat.{ℕ, zero, suc, ◌+◌, ◌*◌, ◌/◌, ◌%◌, ◌^◌, ◌<◌, ◌≤◌, bit_or, bit_and, bit_xor}
use mathlib.Core.Path.{◌≡◌, refl, ap, ◌∙◌, sym}
use native.Mathlib.Nat.{pow-suc}
use native.Mathlib.Omega.{arith}

abbrev pub u8 : ℕ → ℕ
u8 n = n % 2 ^ 8

abbrev pub u16 : ℕ → ℕ
u16 n = n % 2 ^ 16

abbrev pub u32 : ℕ → ℕ
u32 n = n % 2 ^ 32

abbrev pub u64 : ℕ → ℕ
u64 n = n % 2 ^ 64

-- `++x` on a uint64_t.
abbrev pub incr64 : ℕ → ℕ
incr64 x = u64 (x + 1)

mul-pow-suc : (q k : ℕ) → q * 2 ^ suc k ≡ 2 * (q * 2 ^ k)
mul-pow-suc q k = omega (arith, ap (λ (t : ℕ). q * t) (pow-suc 2 k))

bit_or-zero_fuel : (n b : ℕ) → b ≤ n → bit_or 0 b ≡ b
bit_or-zero_fuel zero b h = let e : b ≡ 0 = omega arith in rw e
bit_or-zero_fuel (suc n) zero h = refl
bit_or-zero_fuel (suc n) (suc b) h =
    omega (arith, bit_or_step 0 (suc b), bit_or-zero_fuel n (suc b / 2) (omega arith))

zero-bit_or : (b : ℕ) → bit_or 0 b ≡ b
zero-bit_or b = bit_or-zero_fuel b b (omega arith)

-- `a | (b << k)` is a sum when `a` fits `k` bits.
pub bit_or_shift : (k a b : ℕ) → a < 2 ^ k → bit_or a (b * 2 ^ k) ≡ a + b * 2 ^ k
bit_or_shift zero a b h =
    let e : a ≡ 0 = omega arith in rw e (omega (arith, zero-bit_or (b * 2 ^ 0)))
bit_or_shift (suc k) a b h = omega (
  arith,
  bit_or_step a (b * 2 ^ suc k),
  mul-pow-suc b k,
  pow-suc 2 k,
  ap (bit_or (a / 2)) (halved b k),
  bit_or_shift k (a / 2) b (omega (arith, pow-suc 2 k)),
)
  where
    halved : (b k : ℕ) → b * 2 ^ suc k / 2 ≡ b * 2 ^ k
    halved b k = omega (arith, mul-pow-suc b k)
