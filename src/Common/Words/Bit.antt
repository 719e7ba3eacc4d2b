-- ===== src/Common/Words/Bit.antt =====
-- Single bits of a number, and how the word operations act on them.
use Prim.Native.Nat.{
  ℕ, zero, suc, ◌+◌, ◌-◌, ◌*◌, ◌/◌, ◌%◌, ◌^◌, ◌<◌, ◌≤◌, max, bit_or, bit_and, bit_xor,
}
use mathlib.Core.Path.{◌≡◌, refl, ap, sym}
use native.Mathlib.Nat.{pow-suc, one-le-pow, div-add-mod', mod-lt}
use native.Mathlib.Omega.{arith}
use new_mavlink.Common.Tests.{ltb, ◌==◌, if◌then◌else◌}
use new_mavlink.Common.Words.Step.{bit_or_step, bit_and_step, bit_xor_step}

-- Bit `j` of `a`, 0 or 1.
abbrev pub bit : ℕ → ℕ → ℕ
bit a zero = a % 2
bit a (suc j) = bit (a / 2) j

pub bit-lt : (a j : ℕ) → bit a j < 2
bit-lt a zero = omega arith
bit-lt a (suc j) = bit-lt (a / 2) j

pub zero_bit : (j : ℕ) → bit 0 j ≡ 0
zero_bit zero = refl
zero_bit (suc j) = zero_bit j

pub bit-bit_or : (a b j : ℕ) → bit (bit_or a b) j ≡ max (bit a j) (bit b j)
bit-bit_or a b zero = omega (arith, bit_or_step a b)
bit-bit_or a b (suc j) =
    let half : bit_or a b / 2 ≡ bit_or (a / 2) (b / 2) = omega (arith, bit_or_step a b) in
    rw half (bit-bit_or (a / 2) (b / 2) j)

pub bit-bit_xor : (a b j : ℕ) → bit (bit_xor a b) j ≡ (bit a j + bit b j) % 2
bit-bit_xor a b zero = omega (arith, bit_xor_step a b)
bit-bit_xor a b (suc j) =
    let half : bit_xor a b / 2 ≡ bit_xor (a / 2) (b / 2) = omega (arith, bit_xor_step a b) in
    rw half (bit-bit_xor (a / 2) (b / 2) j)

half_pow : (d : ℕ) → 2 ^ suc d / 2 ≡ 2 ^ d
half_pow d = omega (arith, pow-suc 2 d)

pub bit-pow : (d j : ℕ) → bit (2 ^ d) j ≡ (if j == d then 1 else 0)
bit-pow zero zero = refl
bit-pow zero (suc j) = ground (arith, zero_bit j)
bit-pow (suc d) zero = ground (arith, pow-suc 2 d)
bit-pow (suc d) (suc j) = rw (half_pow d) (ground (arith, bit-pow d j))

and_nothing : (bound x : ℕ) → x ≤ bound → bit_and x 0 ≡ 0
and_nothing zero x le = let none_left : x ≡ 0 = omega arith in rw none_left refl
and_nothing (suc bound) x le =
    omega (arith, bit_and_step x 0, and_nothing bound (x / 2) (omega (arith, le)))

bit_and-zero : (x : ℕ) → bit_and x 0 ≡ 0
bit_and-zero x = and_nothing x x (omega arith)

-- `a & (1 << d)` is bit `d` at its place.
pub bit_and-pow : (a d : ℕ) → bit_and a (2 ^ d) ≡ bit a d * 2 ^ d
bit_and-pow a zero = omega (arith, bit_and_step a 1, bit_and-zero (a / 2))
bit_and-pow a (suc d) = omega (
  arith,
  bit_and_step a (2 ^ suc d),
  ap (bit_and (a / 2)) (half_pow d),
  pow-suc 2 d,
  ap (λ (t : ℕ). bit (a / 2) d * t) (pow-suc 2 d),
  bit_and-pow (a / 2) d,
)

half_shift : (a s : ℕ) → a * 2 ^ suc s / 2 ≡ a * 2 ^ s
half_shift a s = omega (arith, ap (λ (t : ℕ). a * t) (pow-suc 2 s))

pub bit-shift : (a s j : ℕ) → bit (a * 2 ^ s) j ≡ (if ltb j s then 0 else bit a (j - s))
bit-shift a zero j =
    let e : a * 2 ^ 0 ≡ a = omega arith in
    let f : j - 0 ≡ j = omega arith in rw (e, f) (ground arith)
bit-shift a (suc s) zero = ground (arith, ap (λ (t : ℕ). a * t) (pow-suc 2 s))
bit-shift a (suc s) (suc j) =
    let f : suc j - suc s ≡ j - s = omega arith in
    rw (half_shift a s, f) (ground (arith, bit-shift a s j))

quotient_rest : (q p t : ℕ) → t < p → (q * p + t) % p ≡ t
quotient_rest q p t h = grind arith

half_mod : (a p : ℕ) → 0 < p → a % (p * 2) / 2 ≡ a / 2 % p
half_mod a p h =
    let q = a / (p * 2) in
    let r = a % (p * 2) in
    let whole : q * (p * 2) + r ≡ a = div-add-mod' a (p * 2) in
    let small : r / 2 < p = omega (arith, mod-lt a {m = p * 2} (omega arith)) in
    let halves : a / 2 ≡ q * p + r / 2 = omega (arith, whole) in
    rw halves (sym (quotient_rest q p (r / 2) small))

-- Cutting a word to `k` bits leaves the bits below.
pub bit-mod_pow : (a k j : ℕ) → j < k → bit (a % 2 ^ k) j ≡ bit a j
bit-mod_pow a zero j h = absurd (omega arith)
bit-mod_pow a (suc k) zero h = rw (pow-suc 2 k) (ground arith)
bit-mod_pow a (suc k) (suc j) h =
    rw (pow-suc 2 k) (
      rw (half_mod a (2 ^ k) (one-le-pow k 2 (omega arith)))
        (bit-mod_pow (a / 2) k j (omega arith)))
