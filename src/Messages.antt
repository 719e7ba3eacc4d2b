-- ===== src/Messages.antt =====
-- include/new_mavlink/messages.hpp: the typed messages. `State` and `Requests` hold the codecs of
-- src/messages.cpp, the modules below those their round trips.
pub mod State
pub mod Requests
pub mod Catalogue
use new_mavlink.Common.{ℕ, ℤ, List, Buffer, Zeros}
use new_mavlink.Wire.{MessageType, Qos, RecordHeader, default_header}

abbrev pub max_args : ℕ
max_args = 7

-- kCommandBytes = 16U + 4U * kMaxArgs
abbrev pub command_bytes : ℕ
command_bytes = 44

abbrev pub ack_bytes : ℕ
ack_bytes = 16

abbrev pub subscribe_bytes : ℕ
subscribe_bytes = 10

abbrev pub resync_bytes : ℕ
resync_bytes = 8

abbrev pub position_bytes : ℕ
position_bytes = 28

abbrev pub attitude_bytes : ℕ
attitude_bytes = 28

abbrev pub battery_bytes : ℕ
battery_bytes = 24

abbrev pub heartbeat_bytes : ℕ
heartbeat_bytes = 16

-- `args` are the seven floats, each as its 32-bit IEEE pattern.
pub record CommandRequest : Type 0 where
  pub request_id : ℕ
  pub command_id : ℕ
  pub deadline_ms : ℕ
  pub arg_count : ℕ
  pub args : List ℕ

pub record CommandAck : Type 0 where
  pub request_id : ℕ
  pub status : ℕ
  pub detail : ℕ
  pub reserved : ℕ
  pub result_code : ℕ

pub record Subscription : Type 0 where
  pub type : MessageType
  pub qos : Qos
  pub source_id : ℕ
  pub interval_ms : ℕ
  pub flags : ℕ

pub record ResyncRequest : Type 0 where
  pub type : MessageType
  pub source_id : ℕ
  pub resource_id : ℕ

pub record StateMeta : Type 0 where
  pub resource_id : ℕ
  pub generation : ℕ
  pub base_generation : ℕ
  pub source_id : ℕ
  pub snapshot : ℕ
  pub reserved : ℕ

pub record Position : Type 0 where
  pub meta : StateMeta
  pub latitude_e7 : ℤ
  pub longitude_e7 : ℤ
  pub altitude_mm : ℤ

pub record Attitude : Type 0 where
  pub meta : StateMeta
  pub roll_urad : ℤ
  pub pitch_urad : ℤ
  pub yaw_urad : ℤ

pub record Battery : Type 0 where
  pub meta : StateMeta
  pub voltage_mv : ℕ
  pub current_ma : ℕ
  pub remaining_permille : ℕ
  pub reserved : ℕ

pub record Heartbeat : Type 0 where
  pub uptime_ms : ℕ
  pub capabilities : ℕ
  pub state : ℕ

-- `payload` is the array of 768 bytes, `length` how many of them are in use.
pub record NativeMessage : Type 0 where
  pub header : RecordHeader
  pub payload : Buffer
  pub length : ℕ

-- `NativeMessage{}`
abbrev pub default_message : NativeMessage
default_message = record { header = default_header; payload = Zeros; length = 0 }
