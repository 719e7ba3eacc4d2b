-- ===== src/Wire.antt =====
-- include/new_mavlink/wire.hpp and src/wire.cpp: the constants of the wire format, the two
-- enumerations, the record header and the classification of message types. An enumeration over
-- uint8_t may hold any byte, so each has a constructor for the bytes that the source does not name.
pub mod Classes
use new_mavlink.Common.{ℕ, ◌+◌, Bool, true, false, List, ◌==◌, if◌then◌else◌}

abbrev pub version_number : ℕ
version_number = 1

abbrev pub header_bytes : ℕ
header_bytes = 40

abbrev pub tag_bytes : ℕ
tag_bytes = 16

abbrev pub max_payload_bytes : ℕ
max_payload_bytes = 768

abbrev pub max_record_bytes : ℕ
max_record_bytes = header_bytes + max_payload_bytes + tag_bytes

abbrev pub flag_delta : ℕ
flag_delta = 0x01

abbrev pub flag_snapshot : ℕ
flag_snapshot = 0x04

-- kFlagDelta | kFlagAck | kFlagSnapshot | kFlagResync
abbrev pub known_flags : ℕ
known_flags = 0x0f

pub data MessageType : Type 0 where
  hello accept finish subscribe resync unsubscribe : MessageType
  heartbeat vehicle_state position attitude battery link_stats : MessageType
  safety_event failsafe_event geofence_event : MessageType
  command_request command_ack command_result : MessageType
  schema_manifest rate_report diagnostic_event : MessageType
  unnamed : ℕ → MessageType

-- `static_cast<std::uint8_t>(type)`
unfoldable pub type_code : MessageType → ℕ
type_code MessageType.hello = 1
type_code MessageType.accept = 2
type_code MessageType.finish = 3
type_code MessageType.subscribe = 4
type_code MessageType.resync = 5
type_code MessageType.unsubscribe = 6
type_code MessageType.heartbeat = 16
type_code MessageType.vehicle_state = 17
type_code MessageType.position = 18
type_code MessageType.attitude = 19
type_code MessageType.battery = 20
type_code MessageType.link_stats = 21
type_code MessageType.safety_event = 22
type_code MessageType.failsafe_event = 23
type_code MessageType.geofence_event = 24
type_code MessageType.command_request = 48
type_code MessageType.command_ack = 49
type_code MessageType.command_result = 50
type_code MessageType.schema_manifest = 64
type_code MessageType.rate_report = 65
type_code MessageType.diagnostic_event = 66
type_code (MessageType.unnamed b) = b

-- `static_cast<MessageType>(byte)`, in three ranges of codes.
low_type_of_code : ℕ → MessageType
low_type_of_code b =
    if b == 1
    then MessageType.hello
    else if b == 2
    then MessageType.accept
    else if b == 3
    then MessageType.finish
    else if b == 4
    then MessageType.subscribe
    else if b == 5
    then MessageType.resync
    else if b == 6
    then MessageType.unsubscribe
    else MessageType.unnamed b

high_type_of_code : ℕ → MessageType
unfolding low_type_of_code
high_type_of_code b =
    if b == 48
    then MessageType.command_request
    else if b == 49
    then MessageType.command_ack
    else if b == 50
    then MessageType.command_result
    else if b == 64
    then MessageType.schema_manifest
    else if b == 65
    then MessageType.rate_report
    else if b == 66
    then MessageType.diagnostic_event
    else low_type_of_code b

unfoldable pub type_of_code : ℕ → MessageType
unfolding high_type_of_code
type_of_code b =
    if b == 16
    then MessageType.heartbeat
    else if b == 17
    then MessageType.vehicle_state
    else if b == 18
    then MessageType.position
    else if b == 19
    then MessageType.attitude
    else if b == 20
    then MessageType.battery
    else if b == 21
    then MessageType.link_stats
    else if b == 22
    then MessageType.safety_event
    else if b == 23
    then MessageType.failsafe_event
    else if b == 24
    then MessageType.geofence_event
    else high_type_of_code b

pub data Qos : Type 0 where
  critical_reliable command_reliable state_latest telemetry_best_effort liveness explicit : Qos
  unnamed : ℕ → Qos

unfoldable pub qos_code : Qos → ℕ
qos_code Qos.critical_reliable = 0
qos_code Qos.command_reliable = 1
qos_code Qos.state_latest = 2
qos_code Qos.telemetry_best_effort = 3
qos_code Qos.liveness = 4
qos_code Qos.explicit = 5
qos_code (Qos.unnamed b) = b

unfoldable pub qos_of_code : ℕ → Qos
qos_of_code b =
    if b == 0
    then Qos.critical_reliable
    else if b == 1
    then Qos.command_reliable
    else if b == 2
    then Qos.state_latest
    else if b == 3
    then Qos.telemetry_best_effort
    else if b == 4
    then Qos.liveness
    else if b == 5
    then Qos.explicit
    else Qos.unnamed b

pub record SessionId : Type 0 where
  pub value : ℕ
  pub epoch : ℕ

-- `tx` and `rx` are arrays of 16 bytes.
pub record DirectionalKeys : Type 0 where
  pub session : SessionId
  pub local_id : ℕ
  pub peer_id : ℕ
  pub tx : List ℕ
  pub rx : List ℕ

pub record RecordHeader : Type 0 where
  pub version : ℕ
  pub flags : ℕ
  pub type : MessageType
  pub qos : Qos
  pub source_id : ℕ
  pub destination_id : ℕ
  pub session_id : ℕ
  pub epoch : ℕ
  pub sequence : ℕ
  pub payload_len : ℕ
  pub deadline_ms : ℕ
  pub header_crc16 : ℕ

-- `RecordHeader{}`
abbrev pub default_header : RecordHeader
default_header = record {
  version = version_number;
  flags = 0;
  type = MessageType.heartbeat;
  qos = Qos.telemetry_best_effort;
  source_id = 0;
  destination_id = 0;
  session_id = 0;
  epoch = 0;
  sequence = 0;
  payload_len = 0;
  deadline_ms = 0;
  header_crc16 = 0;
}

unfoldable pub known_type : MessageType → Bool
known_type (MessageType.unnamed b) = false
known_type _ = true

unfoldable pub state_type : MessageType → Bool
state_type MessageType.vehicle_state = true
state_type MessageType.position = true
state_type MessageType.attitude = true
state_type MessageType.battery = true
state_type MessageType.link_stats = true
state_type MessageType.rate_report = true
state_type _ = false

unfoldable pub command_type : MessageType → Bool
command_type MessageType.command_request = true
command_type MessageType.command_ack = true
command_type MessageType.command_result = true
command_type _ = false

unfoldable pub control_type : MessageType → Bool
control_type MessageType.hello = true
control_type MessageType.accept = true
control_type MessageType.finish = true
control_type MessageType.subscribe = true
control_type MessageType.unsubscribe = true
control_type MessageType.resync = true
control_type _ = false

unfoldable pub critical_type : MessageType → Bool
critical_type MessageType.safety_event = true
critical_type MessageType.failsafe_event = true
critical_type MessageType.geofence_event = true
critical_type MessageType.diagnostic_event = true
critical_type MessageType.command_ack = true
critical_type MessageType.command_result = true
critical_type _ = false

unfoldable pub is_heartbeat : MessageType → Bool
is_heartbeat MessageType.heartbeat = true
is_heartbeat _ = false

unfoldable pub default_qos : MessageType → Qos
unfolding command_type critical_type control_type is_heartbeat
default_qos type =
    if command_type type
    then Qos.command_reliable
    else if critical_type type
    then Qos.critical_reliable
    else if is_heartbeat type
    then Qos.liveness
    else if control_type type
    then Qos.explicit
    else Qos.state_latest
