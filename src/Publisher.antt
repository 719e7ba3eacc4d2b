-- ===== src/Publisher.antt =====
-- include/new_mavlink/publisher.hpp and src/publisher.cpp: what a vehicle sends of its state, on
-- change and in periodic snapshots.
pub mod Poll
pub mod Update
use new_mavlink.Common.{
  ℕ, ◌+◌, ◌-◌, ◌^◌, ℤ, pos, Bool, true, false, not, ◌&&◌, ◌||◌, List, [], ◌∷◌, ◌++◌, Option, none,
  some, Zeros, length, u64, ltb, leb, ◌==◌, ◌!=◌, eq_ℤ, if◌then◌else◌,
}
use new_mavlink.Wire.{MessageType, Qos, RecordHeader, default_header}
use new_mavlink.Messages.{
  StateMeta, Position, Attitude, Battery, NativeMessage, default_message, position_bytes,
  attitude_bytes, battery_bytes,
}
use new_mavlink.Messages.State.{encode_position, encode_attitude, encode_battery}

abbrev pub helpful_snapshot_period_ms : ℕ
helpful_snapshot_period_ms = 10000

pub data PublishKind : Type 0 where
  on_change helpful_snapshot : PublishKind

pub record PublishedMessage : Type 0 where
  pub message : NativeMessage
  pub kind : PublishKind

-- A position, attitude or battery with its `has_` flag, its generation and its dirty flag, which
-- the class keeps in members of their own.
pub record HelpfulState : Type 0 where
  pub has_position : Bool
  pub has_attitude : Bool
  pub has_battery : Bool
  pub position : Position
  pub attitude : Attitude
  pub battery : Battery

pub record StatePublisher : Type 0 where
  pub source_id : ℕ
  pub destination_id : ℕ
  pub snapshot_period_ms : ℕ
  pub next_snapshot_ms : ℕ
  pub state : HelpfulState
  pub position_generation : ℕ
  pub attitude_generation : ℕ
  pub battery_generation : ℕ
  pub position_dirty : Bool
  pub attitude_dirty : Bool
  pub battery_dirty : Bool

-- `StateMeta{}` and `HelpfulState{}`
abbrev pub no_meta : StateMeta
no_meta = record {
  resource_id = 0;
  generation = 0;
  base_generation = 0;
  source_id = 0;
  snapshot = 0;
  reserved = 0;
}

abbrev pub no_state : HelpfulState
no_state = record {
  has_position = false;
  has_attitude = false;
  has_battery = false;
  position = record {
    meta = no_meta;
    latitude_e7 = pos 0;
    longitude_e7 = pos 0;
    altitude_mm = pos 0;
  };
  attitude = record { meta = no_meta; roll_urad = pos 0; pitch_urad = pos 0; yaw_urad = pos 0 };
  battery = record {
    meta = no_meta;
    voltage_mv = 0;
    current_ma = 0;
    remaining_permille = 0;
    reserved = 0;
  };
}

unfoldable pub new_publisher : ℕ → ℕ → ℕ → StatePublisher
new_publisher source_id destination_id snapshot_period_ms = record {
  source_id = source_id;
  destination_id = destination_id;
  snapshot_period_ms =
      if snapshot_period_ms == 0 then helpful_snapshot_period_ms else snapshot_period_ms;
  next_snapshot_ms = 0;
  state = no_state;
  position_generation = 0;
  attitude_generation = 0;
  battery_generation = 0;
  position_dirty = false;
  attitude_dirty = false;
  battery_dirty = false;
}

unfoldable pub next_generation : ℕ → ℕ
next_generation current = if current == 2 ^ 32 - 1 then current else current + 1

-- `old.meta.resource_id != value.meta.resource_id || old.meta.source_id != value.meta.source_id`
unfoldable pub other_stream : StateMeta → StateMeta → Bool
other_stream old value = old.resource_id != value.resource_id || old.source_id != value.source_id

unfoldable pub changed_position : StatePublisher → Position → Bool
changed_position p value =
    if not p.state.has_position
    then true
    else let old = p.state.position in
      other_stream old.meta value.meta
      || not (eq_ℤ old.latitude_e7 value.latitude_e7)
      || not (eq_ℤ old.longitude_e7 value.longitude_e7)
      || not (eq_ℤ old.altitude_mm value.altitude_mm)

unfoldable pub changed_attitude : StatePublisher → Attitude → Bool
changed_attitude p value =
    if not p.state.has_attitude
    then true
    else let old = p.state.attitude in
      other_stream old.meta value.meta
      || not (eq_ℤ old.roll_urad value.roll_urad)
      || not (eq_ℤ old.pitch_urad value.pitch_urad)
      || not (eq_ℤ old.yaw_urad value.yaw_urad)

unfoldable pub changed_battery : StatePublisher → Battery → Bool
changed_battery p value =
    if not p.state.has_battery
    then true
    else let old = p.state.battery in
      other_stream old.meta value.meta
      || old.voltage_mv != value.voltage_mv
      || old.current_ma != value.current_ma
      || old.remaining_permille != value.remaining_permille

-- The metadata that an update stores.
unfoldable pub stored_meta : StatePublisher → StateMeta → Bool → ℕ → StateMeta
stored_meta p value has generation = record value {
  source_id = if value.source_id == 0 then p.source_id else value.source_id;
  generation = next_generation generation;
  base_generation = if has then generation else 0;
  snapshot = 0;
}

-- `if (next_snapshot_ms_ == 0U) next_snapshot_ms_ = now_ms + snapshot_period_ms_;`
unfoldable pub first_snapshot : StatePublisher → ℕ → ℕ
first_snapshot p now_ms =
    if p.next_snapshot_ms == 0 then u64 (now_ms + p.snapshot_period_ms) else p.next_snapshot_ms

unfoldable pub update_position : StatePublisher → Position → ℕ → StatePublisher × Bool
update_position p value now_ms = if not (changed_position p value) then (p, false) else (
  record p {
    state = record p.state {
      position = record value {
        meta = stored_meta p value.meta p.state.has_position p.position_generation;
      };
      has_position = true;
    };
    position_generation = next_generation p.position_generation;
    position_dirty = true;
    next_snapshot_ms = first_snapshot p now_ms;
  },
  true,
)

unfoldable pub update_attitude : StatePublisher → Attitude → ℕ → StatePublisher × Bool
update_attitude p value now_ms = if not (changed_attitude p value) then (p, false) else (
  record p {
    state = record p.state {
      attitude = record value {
        meta = stored_meta p value.meta p.state.has_attitude p.attitude_generation;
      };
      has_attitude = true;
    };
    attitude_generation = next_generation p.attitude_generation;
    attitude_dirty = true;
    next_snapshot_ms = first_snapshot p now_ms;
  },
  true,
)

unfoldable pub update_battery : StatePublisher → Battery → ℕ → StatePublisher × Bool
update_battery p value now_ms = if not (changed_battery p value) then (p, false) else (
  record p {
    state = record p.state {
      battery = record value {
        meta = stored_meta p value.meta p.state.has_battery p.battery_generation;
      };
      has_battery = true;
    };
    battery_generation = next_generation p.battery_generation;
    battery_dirty = true;
    next_snapshot_ms = first_snapshot p now_ms;
  },
  true,
)
