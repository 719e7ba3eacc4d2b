-- ===== src/Adapter.antt =====
-- include/new_mavlink/mavlink2_adapter.hpp and src/mavlink2_adapter.cpp: from and to the messages of
-- MAVLink 2. The functions of the generated C library are the record `Mavlink`; what they keep of a
-- channel between calls, the half-parsed message and the sequence number, is a state `C`.
pub mod Scale
pub mod Angles
pub mod Parser
pub mod Decoders
pub mod Commands
use new_mavlink.Common.{
  ℕ, zero, suc, ◌+◌, ◌*◌, ◌^◌, ◌-◌, ℤ, pos, negsuc, Bool, true, false, not, ◌&&◌, ◌||◌, List, [],
  ◌∷◌, Option, none, some, Buffer, Pointer, Zeros, read_bytes, write_bytes, length, ltb, leb, ◌==◌,
  ◌!=◌, if◌then◌else◌,
}
use new_mavlink.Crypto.{is_null, pointed}
use new_mavlink.Messages.{CommandRequest, CommandAck, max_args}
use new_mavlink.Messages.Requests.{is_finite, args_finite}
use new_mavlink.Adapter.Scale.{to_urad}

abbrev pub px4_system_id : ℕ
px4_system_id = 1

abbrev pub px4_component_id : ℕ
px4_component_id = 1

-- The size of `MavlinkFrame::bytes`.
abbrev pub frame_bytes : ℕ
frame_bytes = 280

pub record MavlinkFrame : Type 0 where
  pub bytes : Buffer
  pub length : ℕ

pub record BatteryTelemetry : Type 0 where
  pub source_system : ℕ
  pub voltage_mv : ℕ
  pub remaining_permille : ℕ

pub record PositionTelemetry : Type 0 where
  pub source_system : ℕ
  pub latitude_e7 : ℤ
  pub longitude_e7 : ℤ
  pub altitude_mm : ℤ

pub record AttitudeTelemetry : Type 0 where
  pub source_system : ℕ
  pub roll_urad : ℤ
  pub pitch_urad : ℤ
  pub yaw_urad : ℤ

-- The fields that the source reads of mavlink_command_ack_t and of the other messages.
pub record CommandAckFields : Type 0 where
  pub command : ℕ
  pub result : ℕ
  pub progress : ℕ

pub record BatteryStatusFields : Type 0 where
  pub first_voltage : ℕ
  pub battery_remaining : ℤ

pub record GlobalPositionFields : Type 0 where
  pub lat : ℤ
  pub lon : ℤ
  pub alt : ℤ

-- The angles as the patterns of their floats.
pub record AttitudeFields : Type 0 where
  pub roll : ℕ
  pub pitch : ℕ
  pub yaw : ℕ

-- mavlink_message_t is `M`.
pub record Mavlink (C M : Type 0) : Type 0 where
  -- mavlink_parse_char(MAVLINK_COMM_0, byte, …): the message, where it returns true
  pub parse_char : C → ℕ → C × Option M
  pub msgid : M → ℕ
  pub sysid : M → ℕ
  -- mavlink_msg_to_send_buffer: the bytes that it writes
  pub to_send_buffer : M → List ℕ
  -- mavlink_msg_command_long_pack: system, component, target system, target component, command,
  -- confirmation and the seven parameters
  pub command_long_pack : C → ℕ → ℕ → ℕ → ℕ → ℕ → ℕ → List ℕ → C × M
  -- MAVLINK_MSG_ID_COMMAND_ACK and the others
  pub command_ack_id : ℕ
  pub battery_status_id : ℕ
  pub global_position_id : ℕ
  pub attitude_id : ℕ
  -- mavlink_msg_command_ack_decode and the others
  pub command_ack_decode : M → CommandAckFields
  pub battery_status_decode : M → BatteryStatusFields
  pub global_position_decode : M → GlobalPositionFields
  pub attitude_decode : M → AttitudeFields

unfoldable pub command_allowed : ℕ → Bool
command_allowed command_id = command_id == 400 || command_id == 22 || command_id == 21

-- The condition of `encode_command_long` on its arguments.
unfoldable pub refuses_command : CommandRequest → ℕ → ℕ → ℕ → ℕ → Bool
refuses_command request source_system source_component target_system target_component =
    not (command_allowed request.command_id)
    || request.request_id == 0
    || request.deadline_ms == 0
    || ltb max_args request.arg_count
    || source_system == 0
    || source_component == 0
    || target_system == 0
    || target_component == 0
    || not (args_finite request.arg_count request.args)

-- `frame`, which was empty, after the message was written to it.
unfoldable pub framed : List ℕ → Option MavlinkFrame
framed bytes =
    if length bytes == 0 || ltb frame_bytes (length bytes)
    then none
    else some (record { bytes = write_bytes Zeros 0 bytes; length = length bytes })

unfoldable pub encode_command_long :
    {C M : Type 0} → Mavlink C M → C → CommandRequest → ℕ → ℕ → ℕ → ℕ → C × Option MavlinkFrame
encode_command_long mav c request source_system source_component target_system target_component =
    if refuses_command request source_system source_component target_system target_component
    then (c, none)
    else let (c1, message) =
        mav.command_long_pack c source_system source_component target_system target_component
          request.command_id 0 request.args in
      (c1, framed (mav.to_send_buffer message))

-- The loop over the bytes: the first message of the given type.
unfoldable pub parse_loop : {C M : Type 0} → Mavlink C M → C → List ℕ → ℕ → C × Option M
parse_loop mav c [] msgid = (c, none)
parse_loop mav c (byte ∷ bytes) msgid =
    let (c1, parsed) = mav.parse_char c byte in
    let rest = parse_loop mav c1 bytes msgid in
    elim parsed [
      | none ↦ rest
      | some message ↦ if mav.msgid message == msgid then (c1, some message) else rest
    ]

unfoldable pub parse_message : {C M : Type 0} → Mavlink C M → C → Pointer → ℕ → ℕ → C × Option M
parse_message mav c bytes size msgid =
    if is_null bytes || size == 0 || ltb frame_bytes size
    then (c, none)
    else parse_loop mav c (pointed bytes size) msgid

-- The decoders leave the channel as the parser left it.
abbrev pub decode_with :
    {C M A : Type 0} → Mavlink C M → C → Pointer → ℕ → ℕ → (M → Option A) → C × Option A
decode_with mav c bytes size msgid decode =
    let (c1, found) = parse_message mav c bytes size msgid in
    (c1, elim found [ none ↦ none | some message ↦ decode message ])

unfoldable pub ack_of : {C M : Type 0} → Mavlink C M → M → Option CommandAck
ack_of mav message =
    let value = mav.command_ack_decode message in
    if not (command_allowed value.command)
    then none
    else some (record {
      request_id = 1;
      status = value.result;
      detail = value.progress;
      reserved = 0;
      result_code = value.command;
    })

unfoldable pub decode_command_ack :
    {C M : Type 0} → Mavlink C M → C → Pointer → ℕ → C × Option CommandAck
decode_command_ack mav c bytes size = decode_with mav c bytes size mav.command_ack_id (ack_of mav)

-- A percentage as parts of a thousand; MAVLink gives -1 where it is unknown.
unfoldable pub permille : ℤ → ℕ
permille (negsuc n) = 0
permille (pos n) = if leb 100 n then 1000 else n * 10

unfoldable pub battery_of : {C M : Type 0} → Mavlink C M → M → Option BatteryTelemetry
battery_of mav message =
    let raw = mav.battery_status_decode message in
    if mav.sysid message == 0 || raw.first_voltage == 2 ^ 16 - 1
    then none
    else some (record {
      source_system = mav.sysid message;
      voltage_mv = raw.first_voltage;
      remaining_permille = permille raw.battery_remaining;
    })

unfoldable pub decode_battery_status :
    {C M : Type 0} → Mavlink C M → C → Pointer → ℕ → C × Option BatteryTelemetry
decode_battery_status mav c bytes size =
    decode_with mav c bytes size mav.battery_status_id (battery_of mav)

unfoldable pub position_of : {C M : Type 0} → Mavlink C M → M → Option PositionTelemetry
position_of mav message =
    let raw = mav.global_position_decode message in
    if mav.sysid message == 0
    then none
    else some (record {
      source_system = mav.sysid message;
      latitude_e7 = raw.lat;
      longitude_e7 = raw.lon;
      altitude_mm = raw.alt;
    })

unfoldable pub decode_global_position :
    {C M : Type 0} → Mavlink C M → C → Pointer → ℕ → C × Option PositionTelemetry
decode_global_position mav c bytes size =
    decode_with mav c bytes size mav.global_position_id (position_of mav)

-- What `decode_attitude` does: it returns false, or true with a value, or converts a float out of the
-- range of its target.
pub data Attempt : Type 0 where
  refused : Attempt
  undefined : Attempt
  decoded : AttitudeTelemetry → Attempt

-- `std::isfinite` of the three angles.
unfoldable pub finite_angles : AttitudeFields → Bool
finite_angles raw = is_finite raw.roll && is_finite raw.pitch && is_finite raw.yaw

unfoldable pub converted : ℕ → Option ℤ → Option ℤ → Option ℤ → Attempt
converted system (some roll) (some pitch) (some yaw) =
    Attempt.decoded
      (record { source_system = system; roll_urad = roll; pitch_urad = pitch; yaw_urad = yaw })
converted system _ _ _ = Attempt.undefined

unfoldable pub attitude_of : {C M : Type 0} → Mavlink C M → Option M → Attempt
attitude_of mav none = Attempt.refused
attitude_of mav (some message) =
    let raw = mav.attitude_decode message in
    if mav.sysid message == 0 || not (finite_angles raw)
    then Attempt.refused
    else converted (mav.sysid message) (to_urad raw.roll) (to_urad raw.pitch) (to_urad raw.yaw)

unfoldable pub decode_attitude : {C M : Type 0} → Mavlink C M → C → Pointer → ℕ → C × Attempt
decode_attitude mav c bytes size =
    let (c1, found) = parse_message mav c bytes size mav.attitude_id in (c1, attitude_of mav found)
