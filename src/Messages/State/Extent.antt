-- ===== src/Messages/State/Extent.antt =====
-- src/messages.cpp: the decoders of the state messages read the bytes of the message and no others.
use new_mavlink.Common.{
  ℕ, ◌<◌, ◌≡◌, refl, some, Buffer, get16_ext, get32_ext, Bool-cases, inl, inr, ◌==◌, arith,
}
use new_mavlink.Messages.{position_bytes, attitude_bytes, battery_bytes}
use new_mavlink.Messages.State.{
  read_state_meta, decode_state_meta, decode_position, decode_attitude, decode_battery,
}

module _ (m m' : Buffer) where
  decode_state_meta_ext :
      ((i : ℕ) → i < 16 → m i ≡ m' i)
      → decode_state_meta (some m) 16 ≡ decode_state_meta (some m') 16
  unfolding decode_state_meta read_state_meta
  decode_state_meta_ext same =
      rw
        (
          get32_ext m m' 0 (λ j lo hi. same j (omega arith)),
          get32_ext m m' 4 (λ j lo hi. same j (omega arith)),
          get32_ext m m' 8 (λ j lo hi. same j (omega arith)),
          get16_ext m m' 12 (λ j lo hi. same j (omega arith)),
          same 14 (omega arith),
          same 15 (omega arith),
        )
        refl

  module _ (size : ℕ) (same : (i : ℕ) → i < size → m i ≡ m' i) where
    pub decode_position_ext : decode_position (some m) size ≡ decode_position (some m') size
    unfolding decode_position
    decode_position_ext = elim (Bool-cases (size == position_bytes)) [
      | inl fits ↦
          let lo : size ≡ 28 = ground arith in
          rw
            (
              decode_state_meta_ext (λ i lt. same i (omega arith)),
              get32_ext m m' 16 (λ j _ hi. same j (omega arith)),
              get32_ext m m' 20 (λ j _ hi. same j (omega arith)),
              get32_ext m m' 24 (λ j _ hi. same j (omega arith)),
            )
            refl
      | inr other ↦ ground (arith, other)
    ]

    pub decode_attitude_ext : decode_attitude (some m) size ≡ decode_attitude (some m') size
    unfolding decode_attitude
    decode_attitude_ext = elim (Bool-cases (size == attitude_bytes)) [
      | inl fits ↦
          let lo : size ≡ 28 = ground arith in
          rw
            (
              decode_state_meta_ext (λ i lt. same i (omega arith)),
              get32_ext m m' 16 (λ j _ hi. same j (omega arith)),
              get32_ext m m' 20 (λ j _ hi. same j (omega arith)),
              get32_ext m m' 24 (λ j _ hi. same j (omega arith)),
            )
            refl
      | inr other ↦ ground (arith, other)
    ]

    pub decode_battery_ext : decode_battery (some m) size ≡ decode_battery (some m') size
    unfolding decode_battery
    decode_battery_ext = elim (Bool-cases (size == battery_bytes)) [
      | inl fits ↦
          let lo : size ≡ 24 = ground arith in
          rw
            (
              decode_state_meta_ext (λ i lt. same i (omega arith)),
              get16_ext m m' 16 (λ j _ hi. same j (omega arith)),
              get16_ext m m' 18 (λ j _ hi. same j (omega arith)),
              get16_ext m m' 20 (λ j _ hi. same j (omega arith)),
              get16_ext m m' 22 (λ j _ hi. same j (omega arith)),
            )
            refl
      | inr other ↦ ground (arith, other)
    ]
