-- ===== src/Messages/State/Power.antt =====
-- src/messages.cpp, lines 109 to 116: the round trip of a battery state.
use new_mavlink.Common.{
  ℕ, ◌≤◌, ◌≡◌, refl, inl, inr, none, some, if◌then◌else◌, Option-cases, leb, ◌==◌, ◌&&◌, put16,
  set_at, Buffer, get16_lem, arith,
}
use new_mavlink.Messages.{StateMeta, Battery, battery_bytes}
use new_mavlink.Messages.State.{encode_state_meta, encode_battery, decode_battery, FitsBattery}
use new_mavlink.Messages.State.Meta.{
  HoldsMeta, decode_held_meta, write_state_meta-HoldsMeta, encode_state_meta_inv, valid_encoded,
}

encode_battery_inv :
    (value : Battery) (out bytes : Buffer) (capacity : ℕ)
    → encode_battery value (some out) capacity ≡ some bytes
    → (meta : Buffer) × (encode_state_meta value.meta (some out) capacity ≡ some meta)
      × (put16
            (put16
              (put16 (put16 meta 16 value.voltage_mv) 18 value.current_ma)
              20
              value.remaining_permille)
            22
            value.reserved
          ≡ bytes)
      × (value.meta.snapshot ≤ 1)
      × (value.meta.reserved ≡ 0)
      × (value.remaining_permille ≤ 1000)
      × (value.reserved ≡ 0)
unfolding encode_battery
encode_battery_inv value out bytes capacity e =
    elim (Option-cases (encode_state_meta value.meta (some out) capacity)) [
      | inl no_meta ↦ absurd (ground arith)
      | inr (meta, written) ↦
          (meta, written, ground arith, ground arith, ground arith, ground arith, ground arith)
    ]

HoldsMeta-put16 :
    (m : Buffer) (value : StateMeta) (a b c d : ℕ)
    → HoldsMeta m value
    → HoldsMeta (put16 (put16 (put16 (put16 m 16 a) 18 b) 20 c) 22 d) value
unfolding put16 set_at
HoldsMeta-put16 m value a b c d held = record {
  resource_id = held.resource_id;
  generation = held.generation;
  base_generation = held.base_generation;
  source_id = held.source_id;
  snapshot = held.snapshot;
  reserved = held.reserved;
}

accept_charge :
    (v w : Battery)
    → v ≡ w
    → w.remaining_permille ≤ 1000
    → w.reserved ≡ 0
    → (if leb v.remaining_permille 1000 && v.reserved == 0 then some v else none) ≡ some w
accept_charge v w e charge reserved = rw e (ground arith)

-- The four fields behind the metadata.
abbrev with_fields : Buffer → Battery → Buffer
with_fields meta value =
    put16
      (put16 (put16 (put16 meta 16 value.voltage_mv) 18 value.current_ma) 20
        value.remaining_permille)
      22 value.reserved

-- A battery state with numbers of their widths that `encode_battery` accepts decodes to the same
-- state.
pub decode_battery-encode_battery :
    (value : Battery) (out bytes : Buffer) (capacity : ℕ)
    → FitsBattery value
    → encode_battery value (some out) capacity ≡ some bytes
    → decode_battery (some bytes) battery_bytes ≡ some value
unfolding decode_battery put16
decode_battery-encode_battery value out bytes capacity fits e =
    let (meta, em, written, s, r, charge, res) = encode_battery_inv value out bytes capacity e in
    let (wm, _, _, _) = encode_state_meta_inv value.meta out meta capacity em in
    let held =
      HoldsMeta-put16 meta value.meta value.voltage_mv value.current_ma value.remaining_permille
        value.reserved (rw (← wm) (write_state_meta-HoldsMeta out value.meta)) in
    rw (← written) (
      rw
        (decode_held_meta _ value.meta fits.meta held
          (valid_encoded value.meta out meta capacity s r em))
        (accept_charge _ value
          (λ i. record {
            meta = value.meta;
            voltage_mv =
                get16_lem (with_fields meta value) 16 value.voltage_mv fits.voltage_mv (refl, refl)
                  i;
            current_ma =
                get16_lem (with_fields meta value) 18 value.current_ma fits.current_ma (refl, refl)
                  i;
            remaining_permille =
                get16_lem (with_fields meta value) 20 value.remaining_permille (omega arith)
                  (refl, refl) i;
            reserved =
                get16_lem (with_fields meta value) 22 value.reserved (omega arith) (refl, refl) i;
          })
          charge res))
