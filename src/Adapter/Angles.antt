-- ===== src/Adapter/Angles.antt =====
-- src/mavlink2_adapter.cpp, lines 79 to 83: which angles the conversion to an int32_t can take.
use native.Mathlib.Nat.{
  mul-le-mul_left, div-add-mod', mod-lt, div-mul-le_self, div-lt_iff_lt-mul, pow-le-pow_right,
}
use new_mavlink.Common.{
  ℕ, zero, suc, ◌+◌, ◌-◌, ◌*◌, ◌/◌, ◌%◌, ◌^◌, ◌<◌, ◌≤◌, ◌≡◌, inl, inr, subst, refl, ℤ, pos, negsuc,
  Bool, true, false, some, Bool-cases, ltb, leb, arith,
}
use new_mavlink.Adapter.Scale.{
  significand, biased_exponent, excess, nearest, rounded, scaled_magnitude, to_urad, signed,
}

pow_mono : (i j : ℕ) → i ≤ j → 2 ^ i ≤ 2 ^ j
pow_mono i j h = pow-le-pow_right (omega arith) h

below : (r d : ℕ) → 0 < d → r < 2 ^ 31 * d → r / d < 2 ^ 31
below r d positive h = (div-lt_iff_lt-mul positive).1 h

round_up : (q b p : ℕ) → q * b ≤ p → (q + 1) * b ≤ p + b
round_up q b p h = omega arith

nearest_bound : (p k : ℕ) → nearest p k * 2 ^ k ≤ p + 2 ^ k
unfolding nearest
nearest_bound p zero = omega arith
nearest_bound p (suc k) =
    let lo = div-mul-le_self p (2 ^ (suc k)) in
    ground (arith, lo, round_up (p / 2 ^ suc k) (2 ^ suc k) p lo)

excess_bound : (fuel p : ℕ) → excess fuel p ≤ fuel
unfolding excess
excess_bound zero p = omega arith
excess_bound (suc fuel) p = ground (arith, excess_bound fuel (p / 2))

rounded_bound : (p : ℕ) → rounded p ≤ p + 2 ^ 20
unfolding rounded
rounded_bound p =
    let k = excess 20 p in
    let b = pow_mono k 20 (excess_bound 20 p) in omega (arith, nearest_bound p k, b)

-- An angle of less than 2048 radians, by its exponent.
abbrev pub IsSmall : ℕ → Type 0
IsSmall bits = bits / 2 ^ 23 % 256 < 138

magnitude_bound : (bits : ℕ) → IsSmall bits → scaled_magnitude bits < 2 ^ 31
unfolding scaled_magnitude biased_exponent significand
magnitude_bound bits small =
    let e = biased_exponent bits in
    let r = rounded (significand bits * 1000000) in
    let r_lt : r < 2 ^ 44 = ground (arith, rounded_bound (significand bits * 1000000)) in
    let e_lt : e < 138 = ground arith in
    let d = pow_mono 13 (150 - e) (omega arith) in
    let positive : 0 < 2 ^ (150 - e) = omega (arith, d) in
    let quotient : r / 2 ^ (150 - e) < 2 ^ 31 =
      below r (2 ^ (150 - e)) positive (omega (arith, d)) in
    ground (arith, quotient, e_lt)

-- The conversion of an angle of less than 2048 radians is defined.
pub to_urad-defined : (bits : ℕ) → IsSmall bits → (n : ℤ) × (to_urad bits ≡ some n)
unfolding to_urad
to_urad-defined bits small =
    (signed (leb (2 ^ 31) bits) (scaled_magnitude bits), ground (arith, magnitude_bound bits small))

-- The number of microradians of a result, without its sign.
abbrev pub magnitude : ℤ → ℕ
magnitude (pos n) = n
magnitude (negsuc n) = suc n

-- A result has the sign of the angle, and its distance from the exact product, a significand times
-- a million over a power of 2, is at most the truncation's unit and the rounding's.
pub record IsNear (bits : ℕ) (n : ℤ) : Type 0 where
  pub narrow : biased_exponent bits < 150
  pub above : magnitude n * 2 ^ (150 - biased_exponent bits) ≤ significand bits * 1000000 + 2 ^ 20
  pub below :
      significand bits * 1000000 < (magnitude n + 1) * 2 ^ (150 - biased_exponent bits) + 2 ^ 20
  pub sign : n ≡ signed (leb (2 ^ 31) bits) (magnitude n)

nearest_below : (p k : ℕ) → p ≤ nearest p k * 2 ^ k + 2 ^ k
unfolding nearest
nearest_below p zero = omega arith
nearest_below p (suc k) =
    let rest : p % 2 ^ suc k < 2 ^ suc k =
      mod-lt p {m = 2 ^ suc k} (pow_mono 0 (suc k) (omega arith)) in
    let whole = div-add-mod' p (2 ^ suc k) in
    let up = round_up (p / 2 ^ suc k) (2 ^ suc k) (p / 2 ^ suc k * 2 ^ suc k) (omega arith) in
    ground (arith, rest, whole, up)

rounded_below : (p : ℕ) → p ≤ rounded p + 2 ^ 20
unfolding rounded
rounded_below p =
    let k = excess 20 p in
    let b = pow_mono k 20 (excess_bound 20 p) in omega (arith, nearest_below p k, b)

magnitude-signed : (negative : Bool) (n : ℕ) → magnitude (signed negative n) ≡ n
magnitude-signed true zero = refl
magnitude-signed true (suc n) = refl
magnitude-signed false n = refl

-- From an exponent of 150 on, the angle is far out of the range.
wide_magnitude : (bits : ℕ) → 150 ≤ biased_exponent bits → 2 ^ 32 ≤ scaled_magnitude bits
unfolding scaled_magnitude biased_exponent significand
wide_magnitude bits wide =
    let e = biased_exponent bits in
    let r = rounded (significand bits * 1000000) in
    let shift = pow_mono 0 (e - 150) (omega arith) in
    let product : r * 1 ≤ r * 2 ^ (e - 150) = mul-le-mul_left r shift in
    ground (arith, rounded_below (significand bits * 1000000), product, wide)

narrow_magnitude :
    (bits : ℕ)
    → biased_exponent bits < 150
    → (scaled_magnitude bits * 2 ^ (150 - biased_exponent bits)
        ≤ significand bits * 1000000 + 2 ^ 20)
      × (significand bits * 1000000
          < (scaled_magnitude bits + 1) * 2 ^ (150 - biased_exponent bits) + 2 ^ 20)
unfolding scaled_magnitude
narrow_magnitude bits narrow =
    let p = significand bits * 1000000 in
    let d = 2 ^ (150 - biased_exponent bits) in
    let r = rounded p in
    let it : scaled_magnitude bits ≡ r / d = ground (arith, narrow) in
    let rest : r % d < d =
      mod-lt r {m = d} (pow_mono 0 (150 - biased_exponent bits) (omega arith)) in
    let up = round_up (r / d) d (r / d * d) (omega arith) in
    rw it (
      omega (arith, div-mul-le_self r d, rounded_bound p),
      omega (arith, div-add-mod' r d, rest, rounded_below p),
    )

pub to_urad-IsNear : (bits : ℕ) (n : ℤ) → to_urad bits ≡ some n → IsNear bits n
unfolding to_urad
to_urad-IsNear bits n e =
    let negative = leb (2 ^ 31) bits in
    let m = scaled_magnitude bits in
    let small : m ≤ 2 ^ 31 = ground (arith, e) in
    let it : signed negative m ≡ n = ground (arith, e) in
    let narrow : biased_exponent bits < 150 = elim (Bool-cases (ltb (biased_exponent bits) 150)) [
      | inl below_150 ↦ ground (arith, below_150)
      | inr from_150 ↦ absurd (omega (arith, wide_magnitude bits (ground (arith, from_150)), small))
    ] in
    let (above, below) = narrow_magnitude bits narrow in
    subst (IsNear bits) it (record {
      narrow = narrow;
      above = rw (magnitude-signed negative m) above;
      below = rw (magnitude-signed negative m) below;
      sign = rw (magnitude-signed negative m) refl;
    })
