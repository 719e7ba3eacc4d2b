-- ===== src/Messages/State.antt =====
-- src/messages.cpp: the codecs of the state messages. An encoder checks everything before it
-- writes, so its result is the buffer after the writes, or `none` with nothing written. A decoder
-- that returns false leaves a value that no caller reads: it is `none`.
pub mod Meta
pub mod Motion
pub mod Power
pub mod Extent
use new_mavlink.Common.{
  ℕ, ◌+◌, ◌<◌, ◌≤◌, ◌≡◌, ◌^◌, ℤ, pos, negsuc, ltb_ℤ, leb_ℤ, to_u32, of_u32, IsInt32, Bool, ◌&&◌,
  ◌||◌, Option, none, some, Buffer, Pointer, set_at, put16, put32, get16, get32, ltb, leb, ◌==◌,
  ◌!=◌, if◌then◌else◌, reject_if,
}
use new_mavlink.Messages.{
  StateMeta, Position, Attitude, Battery, position_bytes, attitude_bytes, battery_bytes,
}

unfoldable pub write_state_meta : StateMeta → Buffer → Buffer
unfolding put16 put32 set_at
write_state_meta value out =
    let out = put32 out 0 value.resource_id in
    let out = put32 out 4 value.generation in
    let out = put32 out 8 value.base_generation in
    let out = put16 out 12 value.source_id in
    let out = set_at out 14 value.snapshot in set_at out 15 value.reserved

unfoldable pub encode_state_meta : StateMeta → Pointer → ℕ → Option Buffer
unfolding write_state_meta
encode_state_meta value none capacity = none
encode_state_meta value (some out) capacity =
    reject_if
      (ltb capacity 16 || value.resource_id == 0 || value.generation == 0 || value.source_id == 0)
      (some (write_state_meta value out))

unfoldable pub read_state_meta : Buffer → StateMeta
unfolding get16 get32
read_state_meta bytes = record {
  resource_id = get32 bytes 0;
  generation = get32 bytes 4;
  base_generation = get32 bytes 8;
  source_id = get16 bytes 12;
  snapshot = bytes 14;
  reserved = bytes 15;
}

unfoldable pub valid_state_meta : StateMeta → Bool
valid_state_meta value =
    value.resource_id != 0
    && value.generation != 0
    && value.source_id != 0
    && leb value.snapshot 1
    && value.reserved == 0

unfoldable pub decode_state_meta : Pointer → ℕ → Option StateMeta
unfolding read_state_meta valid_state_meta
decode_state_meta none length = none
decode_state_meta (some bytes) length =
    reject_if (length != 16)
      (let value = read_state_meta bytes in if valid_state_meta value then some value else none)

infixl 5 ◌>>=◌
abbrev ◌>>=◌ : {A B : Type 0} → Option A → (A → Option B) → Option B
none >>= f = none
some a >>= f = f a

abbrev position_of : StateMeta → ℤ → ℤ → ℤ → Position
position_of meta lat lon alt = record {
  meta = meta;
  latitude_e7 = lat;
  longitude_e7 = lon;
  altitude_mm = alt;
}

abbrev battery_of : StateMeta → ℕ → ℕ → ℕ → ℕ → Battery
battery_of meta voltage current remaining reserved = record {
  meta = meta;
  voltage_mv = voltage;
  current_ma = current;
  remaining_permille = remaining;
  reserved = reserved;
}

-- Latitude and longitude within 90 and 180 degrees, in units of 1e-7 degree.
unfoldable pub in_range : Position → Bool
in_range value =
    leb_ℤ (negsuc 899999999) value.latitude_e7
    && leb_ℤ value.latitude_e7 (pos 900000000)
    && leb_ℤ (negsuc 1799999999) value.longitude_e7
    && leb_ℤ value.longitude_e7 (pos 1800000000)

unfoldable pub encode_position : Position → Pointer → ℕ → Option Buffer
encode_position value none capacity = none
encode_position value (some out) capacity =
    reject_if
      (ltb capacity position_bytes
        || ltb 1 value.meta.snapshot
        || value.meta.reserved != 0
        || ltb_ℤ value.latitude_e7 (negsuc 899999999)
        || ltb_ℤ (pos 900000000) value.latitude_e7
        || ltb_ℤ value.longitude_e7 (negsuc 1799999999)
        || ltb_ℤ (pos 1800000000) value.longitude_e7)
      do
        out ← encode_state_meta value.meta (some out) capacity
        let out = put32 out 16 (to_u32 value.latitude_e7)
        let out = put32 out 20 (to_u32 value.longitude_e7)
        some (put32 out 24 (to_u32 value.altitude_mm))

unfoldable pub decode_position : Pointer → ℕ → Option Position
unfolding in_range
decode_position none length = none
decode_position (some bytes) length = reject_if (length != position_bytes) do
  meta ← decode_state_meta (some bytes) 16
  let value =
      position_of meta (of_u32 (get32 bytes 16)) (of_u32 (get32 bytes 20)) (of_u32 (get32 bytes 24))
  if in_range value then some value else none

unfoldable pub encode_attitude : Attitude → Pointer → ℕ → Option Buffer
encode_attitude value none capacity = none
encode_attitude value (some out) capacity =
    reject_if (ltb capacity attitude_bytes || ltb 1 value.meta.snapshot || value.meta.reserved != 0)
      do
        out ← encode_state_meta value.meta (some out) capacity
        let out = put32 out 16 (to_u32 value.roll_urad)
        let out = put32 out 20 (to_u32 value.pitch_urad)
        some (put32 out 24 (to_u32 value.yaw_urad))

unfoldable pub decode_attitude : Pointer → ℕ → Option Attitude
decode_attitude none length = none
decode_attitude (some bytes) length = reject_if (length != attitude_bytes) do
  meta ← decode_state_meta (some bytes) 16
  some (record {
    meta = meta;
    roll_urad = of_u32 (get32 bytes 16);
    pitch_urad = of_u32 (get32 bytes 20);
    yaw_urad = of_u32 (get32 bytes 24);
  })

unfoldable pub encode_battery : Battery → Pointer → ℕ → Option Buffer
encode_battery value none capacity = none
encode_battery value (some out) capacity =
    reject_if
      (ltb capacity battery_bytes
        || ltb 1 value.meta.snapshot
        || value.meta.reserved != 0
        || ltb 1000 value.remaining_permille
        || value.reserved != 0)
      do
        out ← encode_state_meta value.meta (some out) capacity
        let out = put16 out 16 value.voltage_mv
        let out = put16 out 18 value.current_ma
        let out = put16 out 20 value.remaining_permille
        some (put16 out 22 value.reserved)

unfoldable pub decode_battery : Pointer → ℕ → Option Battery
decode_battery none length = none
decode_battery (some bytes) length = reject_if (length != battery_bytes) do
  meta ← decode_state_meta (some bytes) 16
  let value = battery_of meta (get16 bytes 16) (get16 bytes 18) (get16 bytes 20) (get16 bytes 22)
  if leb value.remaining_permille 1000 && value.reserved == 0 then some value else none

-- The widths of the fields.
pub record FitsMeta (value : StateMeta) : Type 0 where
  pub resource_id : value.resource_id < 2 ^ 32
  pub generation : value.generation < 2 ^ 32
  pub base_generation : value.base_generation < 2 ^ 32
  pub source_id : value.source_id < 2 ^ 16

pub record FitsPosition (value : Position) : Type 0 where
  pub meta : FitsMeta value.meta
  pub latitude_e7 : IsInt32 value.latitude_e7
  pub longitude_e7 : IsInt32 value.longitude_e7
  pub altitude_mm : IsInt32 value.altitude_mm

pub record FitsAttitude (value : Attitude) : Type 0 where
  pub meta : FitsMeta value.meta
  pub roll_urad : IsInt32 value.roll_urad
  pub pitch_urad : IsInt32 value.pitch_urad
  pub yaw_urad : IsInt32 value.yaw_urad

pub record FitsBattery (value : Battery) : Type 0 where
  pub meta : FitsMeta value.meta
  pub voltage_mv : value.voltage_mv < 2 ^ 16
  pub current_ma : value.current_ma < 2 ^ 16
