-- ===== src/Adapter/Scale.antt =====
-- src/mavlink2_adapter.cpp, lines 79 to 83: `static_cast<std::int32_t>(x * 1000000.0F)` on the pattern of an
-- IEEE single. The product is rounded to 24 bits, ties to even, and truncated towards 0.
use new_mavlink.Common.{
  ℕ, zero, suc, ◌+◌, ◌-◌, ◌*◌, ◌/◌, ◌%◌, ◌^◌, ℤ, pos, negsuc, Bool, true, false, ◌&&◌, ◌||◌, Option,
  none, some, ltb, leb, ◌==◌, if◌then◌else◌,
}

-- The significand of a finite single, and 150 more than the exponent of its last bit.
unfoldable pub significand : ℕ → ℕ
significand bits = if bits / 2 ^ 23 % 256 == 0 then bits % 2 ^ 23 else 2 ^ 23 + bits % 2 ^ 23

unfoldable pub biased_exponent : ℕ → ℕ
biased_exponent bits = if bits / 2 ^ 23 % 256 == 0 then 1 else bits / 2 ^ 23 % 256

-- By how many bits a number is longer than 24, if by no more than the fuel.
unfoldable pub excess : ℕ → ℕ → ℕ
excess zero p = 0
excess (suc fuel) p = let rest = excess fuel (p / 2) in if ltb p (2 ^ 24) then 0 else 1 + rest

-- `p / 2 ^ k` rounded to the nearest, to even in the middle.
unfoldable pub nearest : ℕ → ℕ → ℕ
nearest p zero = p
nearest p (suc k) =
    let q = p / 2 ^ (suc k) in
    let r = p % 2 ^ (suc k) in if ltb (2 ^ k) r || r == 2 ^ k && q % 2 == 1 then q + 1 else q

-- A product of a significand and 1000000 has at most 44 bits.
unfoldable pub rounded : ℕ → ℕ
rounded p = let k = excess 20 p in nearest p k * 2 ^ k

-- The magnitude of the product, truncated.
unfoldable pub scaled_magnitude : ℕ → ℕ
scaled_magnitude bits =
    let e = biased_exponent bits in
    let r = rounded (significand bits * 1000000) in
    if leb 150 e then r * 2 ^ (e - 150) else r / 2 ^ (150 - e)

abbrev pub signed : Bool → ℕ → ℤ
signed true zero = pos 0
signed true (suc n) = negsuc n
signed false n = pos n

-- The conversion, which is undefined out of the range of an int32_t.
unfoldable pub to_urad : ℕ → Option ℤ
to_urad bits =
    let negative = leb (2 ^ 31) bits in
    let n = scaled_magnitude bits in
    if ltb n (2 ^ 31) || negative && n == 2 ^ 31 then some (signed negative n) else none
