-- ===== src/Record/Types.antt =====
-- include/new_mavlink/record.hpp: errors, opened records, and the result of a method that returns
-- false with an error.
use new_mavlink.Common.{ℕ, ◌≡◌, ◌⊎◌, inl, inr, refl, Buffer, Bool, true, false}
use new_mavlink.Wire.{RecordHeader}

pub data RecordError : Type 0 where
  none invalid_header invalid_keys invalid_length authentication_failed : RecordError
  replay expired sequence_exhausted invalid_payload timeout : RecordError

pub record OpenRecord : Type 0 where
  pub header : RecordHeader
  pub payload : Buffer
  pub length : ℕ

pub data Result {ℓ} (A : Type ℓ) : Type ℓ where
  ok : A → Result A
  err : RecordError → Result A

-- `if (…) { error = e; return false; }`
abbrev pub fail_if {ℓ} : {A : Type ℓ} → Bool → RecordError → Result A → Result A
fail_if true e rest = err e
fail_if false e rest = rest

-- To split on a computed result and keep the equation.
pub Result-cases {ℓ} :
    {A : Type ℓ} (r : Result A) → ((a : A) × (r ≡ ok a)) ⊎ ((e : RecordError) × (r ≡ err e))
Result-cases (ok a) = inl (a, refl)
Result-cases (err e) = inr (e, refl)
