-- ===== src/Programs/Schema.antt =====
-- apps/: what the programs decide on a record depends on its type and the bytes of its payload.
use new_mavlink.Common.{
  ℕ, ◌≡◌, ◌≢◌, ◌&&◌, ◌==◌, ◌!=◌, Bool-cases, refl, ap, true, none, some, Buffer, read_bytes,
  read_bytes_inj, Option-cases, inl, inr, arith,
}
use new_mavlink.Wire.{MessageType, known_type}
use new_mavlink.Messages.State.{decode_position, decode_attitude, decode_battery}
use new_mavlink.Messages.State.Extent.{decode_position_ext, decode_attitude_ext, decode_battery_ext}
use new_mavlink.Record.Types.{OpenRecord, ok}
use new_mavlink.Record.Replay.{accepted}
use new_mavlink.Record.Replay.Window.{commit-accepted}
use new_mavlink.Record.Session.{commit_replay}
use new_mavlink.Transport.{NativeEndpoint}
use new_mavlink.Transport.{commit as commit_endpoint}
use new_mavlink.Programs.{VehicleState, read_state, some_state}
use new_mavlink.Programs.ProxyService.{decodes, fits_schema}

pub read_state_ext :
    (type : MessageType) (m m' : Buffer) (size : ℕ)
    → read_bytes m 0 size ≡ read_bytes m' 0 size
    → read_state type (some m) size ≡ read_state type (some m') size
unfolding read_state
read_state_ext MessageType.position m m' size e = ap (some_state VehicleState.position) (
    decode_position_ext m m' size
      (λ i lt. read_bytes_inj m m' 0 size e i (omega arith) (omega arith)))
read_state_ext MessageType.attitude m m' size e = ap (some_state VehicleState.attitude) (
    decode_attitude_ext m m' size
      (λ i lt. read_bytes_inj m m' 0 size e i (omega arith) (omega arith)))
read_state_ext MessageType.battery m m' size e = ap (some_state VehicleState.battery) (
    decode_battery_ext m m' size
      (λ i lt. read_bytes_inj m m' 0 size e i (omega arith) (omega arith)))
read_state_ext _ m m' size e = refl

position_size : (m : Buffer) (size : ℕ) → decode_position (some m) size ≢ none → size ≡ 28
unfolding decode_position
position_size m size h = elim (Bool-cases (size == 28)) [
  | inl fits ↦ ground arith
  | inr other ↦ absurd (h (ground (arith, other)))
]

attitude_size : (m : Buffer) (size : ℕ) → decode_attitude (some m) size ≢ none → size ≡ 28
unfolding decode_attitude
attitude_size m size h = elim (Bool-cases (size == 28)) [
  | inl fits ↦ ground arith
  | inr other ↦ absurd (h (ground (arith, other)))
]

battery_size : (m : Buffer) (size : ℕ) → decode_battery (some m) size ≢ none → size ≡ 24
unfolding decode_battery
battery_size m size h = elim (Bool-cases (size == 24)) [
  | inl fits ↦ ground arith
  | inr other ↦ absurd (h (ground (arith, other)))
]

passes :
    (type : MessageType) (m : Buffer) (size : ℕ) (value : VehicleState)
    → read_state type (some m) size ≡ some value
    → (known_type type && size != 0 && decodes type (some m) size) ≡ true
unfolding read_state decodes known_type
passes MessageType.position m size value e = elim (Option-cases (decode_position (some m) size)) [
  | inl failed ↦ absurd (ground (arith, e, failed))
  | inr (v, done) ↦
      ground (arith, done, position_size m size (λ no. absurd (ground (arith, no, done))))
]
passes MessageType.attitude m size value e = elim (Option-cases (decode_attitude (some m) size)) [
  | inl failed ↦ absurd (ground (arith, e, failed))
  | inr (v, done) ↦
      ground (arith, done, attitude_size m size (λ no. absurd (ground (arith, no, done))))
]
passes MessageType.battery m size value e = elim (Option-cases (decode_battery (some m) size)) [
  | inl failed ↦ absurd (ground (arith, e, failed))
  | inr (v, done) ↦
      ground (arith, done, battery_size m size (λ no. absurd (ground (arith, no, done))))
]
passes _ m size value e = cc

-- A record in which the ground station reads a state is one that the proxy passes on.
pub read_state-fits_schema :
    (o : OpenRecord) (value : VehicleState)
    → read_state o.header.type (some o.payload) o.length ≡ some value
    → fits_schema o ≡ true
unfolding fits_schema
read_state-fits_schema o value e = passes o.header.type o.payload o.length value e

-- A record that the window admits is committed.
pub commit_admitted :
    (e : NativeEndpoint) (o : OpenRecord)
    → accepted e.session.replay o.header.sequence ≡ true
    → (commit_endpoint e o).1 ≡ ok tt
unfolding commit_endpoint commit_replay
commit_admitted e o h = rw (commit-accepted e.session.replay o.header.sequence, h) refl
