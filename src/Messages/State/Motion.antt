-- ===== src/Messages/State/Motion.antt =====
-- src/messages.cpp, lines 91 to 107: round trips of positions and attitudes.
use new_mavlink.Common.{
  ℕ, ◌≤◌, ◌≡◌, refl, ℤ, to_u32, of_u32, of_u32-to_u32, to_u32-lt, true, inl, inr, none, some,
  if◌then◌else◌, Option-cases, put32, set_at, get32, IsInt32, ap, ◌∙◌, Buffer, Holds32, get32_lem,
  arith,
}
use new_mavlink.Messages.{StateMeta, Position, Attitude, position_bytes, attitude_bytes}
use new_mavlink.Messages.State.{
  encode_state_meta, decode_state_meta, encode_position, in_range, decode_position, encode_attitude,
  decode_attitude, FitsMeta, FitsPosition, FitsAttitude,
}
use new_mavlink.Messages.State.Meta.{
  HoldsMeta, decode_held_meta, write_state_meta-HoldsMeta, encode_state_meta_inv, valid_encoded,
}

encode_position_inv :
    (value : Position) (out bytes : Buffer) (capacity : ℕ)
    → encode_position value (some out) capacity ≡ some bytes
    → (meta : Buffer) × (encode_state_meta value.meta (some out) capacity ≡ some meta)
      × (put32
            (put32 (put32 meta 16 (to_u32 value.latitude_e7)) 20 (to_u32 value.longitude_e7))
            24
            (to_u32 value.altitude_mm)
          ≡ bytes)
      × (value.meta.snapshot ≤ 1)
      × (value.meta.reserved ≡ 0)
      × (in_range value ≡ true)
unfolding encode_position in_range
encode_position_inv value out bytes capacity e =
    elim (Option-cases (encode_state_meta value.meta (some out) capacity)) [
      | inl no_meta ↦ absurd (ground arith)
      | inr (meta, written) ↦
          (meta, written, ground arith, ground arith, ground arith, ground arith)
    ]

-- The signed field at offset `p` of a buffer that holds its bit pattern.
get_int32 :
    (m : Buffer) (p : ℕ) (a : ℤ) → IsInt32 a → Holds32 m p (to_u32 a) → of_u32 (get32 m p) ≡ a
get_int32 m p a fits held =
    ap of_u32 (get32_lem m p (to_u32 a) (to_u32-lt a) held) ∙ of_u32-to_u32 a fits

accept_in_range :
    (v w : Position) → v ≡ w → in_range w ≡ true → (if in_range v then some v else none) ≡ some w
accept_in_range v w e valid = rw e (rw valid)

-- Three more words leave the metadata below them.
HoldsMeta-put32 :
    (m : Buffer) (value : StateMeta) (a b c : ℕ)
    → HoldsMeta m value
    → HoldsMeta (put32 (put32 (put32 m 16 a) 20 b) 24 c) value
unfolding put32 set_at
HoldsMeta-put32 m value a b c held = record {
  resource_id = held.resource_id;
  generation = held.generation;
  base_generation = held.base_generation;
  source_id = held.source_id;
  snapshot = held.snapshot;
  reserved = held.reserved;
}

module _ (m : Buffer) (a b c : ℤ) (fa : IsInt32 a) (fb : IsInt32 b) (fc : IsInt32 c) where
  abbrev three_words : Buffer
  three_words = put32 (put32 (put32 m 16 (to_u32 a)) 20 (to_u32 b)) 24 (to_u32 c)

  first_word : of_u32 (get32 three_words 16) ≡ a
  first_word = get_int32 three_words 16 a fa (unfold put32 in (refl, refl, refl, refl))

  second_word : of_u32 (get32 three_words 20) ≡ b
  second_word = get_int32 three_words 20 b fb (unfold put32 in (refl, refl, refl, refl))

  third_word : of_u32 (get32 three_words 24) ≡ c
  third_word = get_int32 three_words 24 c fc (unfold put32 in (refl, refl, refl, refl))

-- The metadata at the front of a longer message, behind which three words were written.
decode_meta_below :
    (value : StateMeta) (out meta : Buffer) (capacity a b c : ℕ)
    → FitsMeta value
    → value.snapshot ≤ 1
    → value.reserved ≡ 0
    → encode_state_meta value (some out) capacity ≡ some meta
    → decode_state_meta (some (put32 (put32 (put32 meta 16 a) 20 b) 24 c)) 16 ≡ some value
decode_meta_below value out meta capacity a b c fits s r e =
    let (written, _, _, _) = encode_state_meta_inv value out meta capacity e in
    decode_held_meta _ value fits
      (HoldsMeta-put32 meta value a b c (rw (← written) (write_state_meta-HoldsMeta out value)))
      (valid_encoded value out meta capacity s r e)

-- A position with numbers of their widths that `encode_position` accepts decodes to the same
-- position.
pub decode_position-encode_position :
    (value : Position) (out bytes : Buffer) (capacity : ℕ)
    → FitsPosition value
    → encode_position value (some out) capacity ≡ some bytes
    → decode_position (some bytes) position_bytes ≡ some value
unfolding decode_position
decode_position-encode_position value out bytes capacity fits e =
    let (meta, em, written, s, r, ok) = encode_position_inv value out bytes capacity e in
    rw (← written) (
      rw (decode_meta_below value.meta out meta capacity _ _ _ fits.meta s r em) (
        accept_in_range _ value
          (λ i. record {
            meta = value.meta;
            latitude_e7 =
                first_word meta _ _ _ fits.latitude_e7 fits.longitude_e7 fits.altitude_mm i;
            longitude_e7 =
                second_word meta _ _ _ fits.latitude_e7 fits.longitude_e7 fits.altitude_mm i;
            altitude_mm =
                third_word meta _ _ _ fits.latitude_e7 fits.longitude_e7 fits.altitude_mm i;
          })
          ok))

encode_attitude_inv :
    (value : Attitude) (out bytes : Buffer) (capacity : ℕ)
    → encode_attitude value (some out) capacity ≡ some bytes
    → (meta : Buffer) × (encode_state_meta value.meta (some out) capacity ≡ some meta)
      × (put32
            (put32 (put32 meta 16 (to_u32 value.roll_urad)) 20 (to_u32 value.pitch_urad))
            24
            (to_u32 value.yaw_urad)
          ≡ bytes)
      × (value.meta.snapshot ≤ 1)
      × (value.meta.reserved ≡ 0)
unfolding encode_attitude
encode_attitude_inv value out bytes capacity e =
    elim (Option-cases (encode_state_meta value.meta (some out) capacity)) [
      | inl no_meta ↦ absurd (ground arith)
      | inr (meta, written) ↦ (meta, written, ground arith, ground arith, ground arith)
    ]

-- An attitude with numbers of their widths that `encode_attitude` accepts decodes to the same
-- attitude.
pub decode_attitude-encode_attitude :
    (value : Attitude) (out bytes : Buffer) (capacity : ℕ)
    → FitsAttitude value
    → encode_attitude value (some out) capacity ≡ some bytes
    → decode_attitude (some bytes) attitude_bytes ≡ some value
unfolding decode_attitude
decode_attitude-encode_attitude value out bytes capacity fits e =
    let (meta, em, written, s, r) = encode_attitude_inv value out bytes capacity e in
    rw (← written) (
      rw (decode_meta_below value.meta out meta capacity _ _ _ fits.meta s r em) (λ i.
        some (record {
          meta = value.meta;
          roll_urad = first_word meta _ _ _ fits.roll_urad fits.pitch_urad fits.yaw_urad i;
          pitch_urad = second_word meta _ _ _ fits.roll_urad fits.pitch_urad fits.yaw_urad i;
          yaw_urad = third_word meta _ _ _ fits.roll_urad fits.pitch_urad fits.yaw_urad i;
        })))
