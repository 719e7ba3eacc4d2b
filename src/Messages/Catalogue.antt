-- ===== src/Messages/Catalogue.antt =====
-- src/messages.cpp: the eight codecs together.
use new_mavlink.Common.{ℕ, ◌≡◌, Option, some, Buffer, Pointer}
use new_mavlink.Wire.Classes.{IsNamed}
use new_mavlink.Messages.{
  CommandRequest, CommandAck, Subscription, ResyncRequest, Position, Attitude, Battery, Heartbeat,
  command_bytes, ack_bytes, subscribe_bytes, resync_bytes, position_bytes, attitude_bytes,
  battery_bytes, heartbeat_bytes,
}
use new_mavlink.Messages.State.{
  FitsPosition, FitsAttitude, FitsBattery, encode_position, decode_position, encode_attitude,
  decode_attitude, encode_battery, decode_battery,
}
use new_mavlink.Messages.State.Motion.{
  decode_position-encode_position, decode_attitude-encode_attitude,
}
use new_mavlink.Messages.State.Power.{decode_battery-encode_battery}
use new_mavlink.Messages.Requests.{
  encode_command, decode_command, encode_ack, decode_ack, encode_subscription, decode_subscription,
  encode_resync, decode_resync, encode_heartbeat, decode_heartbeat,
}
use new_mavlink.Messages.Requests.Commands.{FitsCommand, decode_command-encode_command}
use new_mavlink.Messages.Requests.Fixed.{
  FitsAck, FitsSubscription, FitsResync, FitsHeartbeat, decode_ack-encode_ack,
  decode_subscription-encode_subscription, decode_resync-encode_resync,
  decode_heartbeat-encode_heartbeat,
}

pub data Kind : Type 0 where
  command ack subscription resync position attitude battery heartbeat : Kind

abbrev pub Value : Kind → Type 0
Value Kind.command = CommandRequest
Value Kind.ack = CommandAck
Value Kind.subscription = Subscription
Value Kind.resync = ResyncRequest
Value Kind.position = Position
Value Kind.attitude = Attitude
Value Kind.battery = Battery
Value Kind.heartbeat = Heartbeat

-- Numbers of their widths, and enumerators that the source names.
abbrev pub Fits : (kind : Kind) → Value kind → Type 0
Fits Kind.command value = FitsCommand value
Fits Kind.ack value = FitsAck value
Fits Kind.subscription value = FitsSubscription value × IsNamed value.qos
Fits Kind.resync value = FitsResync value
Fits Kind.position value = FitsPosition value
Fits Kind.attitude value = FitsAttitude value
Fits Kind.battery value = FitsBattery value
Fits Kind.heartbeat value = FitsHeartbeat value

abbrev pub bytes_of : Kind → ℕ
bytes_of Kind.command = command_bytes
bytes_of Kind.ack = ack_bytes
bytes_of Kind.subscription = subscribe_bytes
bytes_of Kind.resync = resync_bytes
bytes_of Kind.position = position_bytes
bytes_of Kind.attitude = attitude_bytes
bytes_of Kind.battery = battery_bytes
bytes_of Kind.heartbeat = heartbeat_bytes

abbrev pub encode : (kind : Kind) → Value kind → Pointer → ℕ → Option Buffer
encode Kind.command = encode_command
encode Kind.ack = encode_ack
encode Kind.subscription = encode_subscription
encode Kind.resync = encode_resync
encode Kind.position = encode_position
encode Kind.attitude = encode_attitude
encode Kind.battery = encode_battery
encode Kind.heartbeat = encode_heartbeat

abbrev pub decode : (kind : Kind) → Pointer → ℕ → Option (Value kind)
decode Kind.command = decode_command
decode Kind.ack = decode_ack
decode Kind.subscription = decode_subscription
decode Kind.resync = decode_resync
decode Kind.position = decode_position
decode Kind.attitude = decode_attitude
decode Kind.battery = decode_battery
decode Kind.heartbeat = decode_heartbeat

-- For every one of the eight messages, a value with numbers of their widths and named enumerators
-- that its encoder accepts decodes from the bytes that were written to the same value.
pub decode-encode :
    (kind : Kind) (value : Value kind) (out bytes : Buffer) (capacity : ℕ)
    → Fits kind value
    → encode kind value (some out) capacity ≡ some bytes
    → decode kind (some bytes) (bytes_of kind) ≡ some value
decode-encode Kind.command value out bytes capacity fits e =
    decode_command-encode_command value out bytes capacity fits e
decode-encode Kind.ack value out bytes capacity fits e =
    decode_ack-encode_ack value out bytes capacity fits e
decode-encode Kind.subscription value out bytes capacity fits e =
    decode_subscription-encode_subscription value out bytes capacity fits.0 fits.1 e
decode-encode Kind.resync value out bytes capacity fits e =
    decode_resync-encode_resync value out bytes capacity fits e
decode-encode Kind.position value out bytes capacity fits e =
    decode_position-encode_position value out bytes capacity fits e
decode-encode Kind.attitude value out bytes capacity fits e =
    decode_attitude-encode_attitude value out bytes capacity fits e
decode-encode Kind.battery value out bytes capacity fits e =
    decode_battery-encode_battery value out bytes capacity fits e
decode-encode Kind.heartbeat value out bytes capacity fits e =
    decode_heartbeat-encode_heartbeat value out bytes capacity fits e
