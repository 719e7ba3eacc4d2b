-- ===== src/Adapter/Decoders.antt =====
-- src/mavlink2_adapter.cpp, lines 54 to 83: the telemetry that the adapter passes on.
use new_mavlink.Common.{
  ℕ, ◌-◌, ◌*◌, ◌^◌, ◌≤◌, ◌≡◌, ◌≢◌, inl, inr, ◌⊎◌, true, false, ℤ, pos, negsuc, ◌||◌, Option, none,
  some, Pointer, Option-cases, ltb, ◌==◌, arith,
}
use new_mavlink.Crypto.{is_null, pointed}
use new_mavlink.Adapter.{
  Mavlink, BatteryTelemetry, Attempt, parse_message, battery_of, permille, decode_battery_status,
  finite_angles, frame_bytes,
}
use new_mavlink.Adapter.Parser.{IsFound, parse_message-IsFound}
use new_mavlink.Adapter.Angles.{IsSmall, IsNear}

module _ {C M : Type 0} (mav : Mavlink C M) where
  -- What a telemetry value says of the message that it was made of.
  pub record TellsBattery (m : M) (t : BatteryTelemetry) : Type 0 where
    pub source : t.source_system ≡ mav.sysid m
    pub known_source : t.source_system ≢ 0
    pub voltage : t.voltage_mv ≡ (mav.battery_status_decode m).first_voltage
    pub known_voltage : t.voltage_mv ≢ 2 ^ 16 - 1
    pub bounded : t.remaining_permille ≤ 1000
    pub percent :
        (n : ℕ)
        → (mav.battery_status_decode m).battery_remaining ≡ pos n
        → n ≤ 100
        → t.remaining_permille ≡ 10 * n

  permille_bound : (r : ℤ) → permille r ≤ 1000
  unfolding permille
  permille_bound (pos n) = ground arith
  permille_bound (negsuc n) = omega arith

  permille_percent : (r : ℤ) (n : ℕ) → r ≡ pos n → n ≤ 100 → permille r ≡ 10 * n
  unfolding permille
  permille_percent r n e h = rw e (ground arith)

  battery_of_inv : (m : M) (t : BatteryTelemetry) → battery_of mav m ≡ some t → TellsBattery m t
  unfolding battery_of
  battery_of_inv m t e =
      let raw = mav.battery_status_decode m in
      record {
        source = ground (arith, e);
        known_source = ground (arith, e);
        voltage = ground (arith, e);
        known_voltage = ground (arith, e);
        bounded = ground (arith, e, permille_bound raw.battery_remaining);
        percent = λ n r h. ground (arith, e, permille_percent raw.battery_remaining n r h);
      }

  -- If `decode_battery_status` returns a value, it is one of a message of that type which the
  -- parser completes with one of the bytes after it was given those before it, from a system
  -- other than 0, with its first voltage, which is not the one for an unknown voltage, and the
  -- remaining charge is at most 1000, and ten times the percentage where the message gives one up
  -- to 100.
  pub decode_battery_status_inv :
      (c : C) (bytes : Pointer) (size : ℕ) (t : BatteryTelemetry)
      → (decode_battery_status mav c bytes size).1 ≡ some t
      → (m : M) × IsFound mav c (pointed bytes size) mav.battery_status_id m × TellsBattery m t
  unfolding decode_battery_status
  decode_battery_status_inv c bytes size t e =
      elim (Option-cases (parse_message mav c bytes size mav.battery_status_id).1) [
        | inl failed ↦ absurd (ground (arith, e, failed))
        | inr (m, found) ↦ (
          m,
          parse_message-IsFound mav c bytes size mav.battery_status_id m found,
          battery_of_inv m t (ground (arith, e, found)),
        )
      ]

  abbrev pub HasSmallAngles : M → Type 0
  HasSmallAngles m =
      let raw = mav.attitude_decode m in IsSmall raw.roll × IsSmall raw.pitch × IsSmall raw.yaw

  abbrev pub HasFiniteAngles : M → Type 0
  HasFiniteAngles m = finite_angles (mav.attitude_decode m) ≡ true

  -- What an attempt to decode an attitude says of the message that was found: it is refused if
  -- there is none, or it has no system or an angle that is not finite; it is undefined only for
  -- finite angles that are not all small; what it returns is near the angles.
  abbrev pub Tells : Option M → Attempt → Type 0
  Tells none result = result ≡ Attempt.refused
  Tells (some m) Attempt.refused =
      (mav.sysid m ≡ 0) ⊎ (finite_angles (mav.attitude_decode m) ≡ false)
  Tells (some m) Attempt.undefined = (mav.sysid m ≢ 0) × HasFiniteAngles m × (HasSmallAngles m → ⊥)
  Tells (some m) (Attempt.decoded t) =
      let raw = mav.attitude_decode m in
      (t.source_system ≡ mav.sysid m)
      × (mav.sysid m ≢ 0)
      × HasFiniteAngles m
      × IsNear raw.roll t.roll_urad
      × IsNear raw.pitch t.pitch_urad
      × IsNear raw.yaw t.yaw_urad

  -- What stands for the message that was found is one that the bytes hold; there is none only if
  -- the arguments are refused or the bytes hold none.
  abbrev pub Holds : C → Pointer → ℕ → Option M → Type 0
  Holds c bytes size none =
      ((is_null bytes || size == 0 || ltb frame_bytes size) ≡ true)
      ⊎ ((m : M) → IsFound mav c (pointed bytes size) mav.attitude_id m → ⊥)
  Holds c bytes size (some m) = IsFound mav c (pointed bytes size) mav.attitude_id m
