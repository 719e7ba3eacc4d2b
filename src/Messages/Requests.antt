-- ===== src/Messages/Requests.antt =====
-- src/messages.cpp: the codecs of commands, acknowledgements, subscriptions, resync requests and
-- heartbeats. An encoder's result is the buffer after the writes; where it succeeds, the length
-- that the source stores is the constant of its message.
pub mod Commands
pub mod Fixed
use new_mavlink.Common.{
  ℕ, zero, suc, ◌+◌, ◌/◌, ◌%◌, ◌^◌, ◌<◌, ◌≡◌, Bool, true, false, not, ◌&&◌, ◌||◌, List, [], ◌∷◌,
  Option, none, some, Buffer, Pointer, set_at, put16, put32, put64, get16, get32, get64, ltb, ◌==◌,
  ◌!=◌, length, if◌then◌else◌, reject_if,
}
use new_mavlink.Wire.{
  MessageType, Qos, type_code, type_of_code, qos_code, qos_of_code, known_type, state_type,
}
use new_mavlink.Messages.{
  CommandRequest, CommandAck, Subscription, ResyncRequest, Heartbeat, max_args, command_bytes,
  ack_bytes, subscribe_bytes, resync_bytes, heartbeat_bytes,
}

-- `std::isfinite` of an IEEE single: its exponent field is not all ones.
unfoldable pub is_finite : ℕ → Bool
is_finite bits = bits / 2 ^ 23 % 256 != 255

-- The loop of `valid_command` over the first `count` arguments.
unfoldable pub args_finite : ℕ → List ℕ → Bool
unfolding is_finite
args_finite zero args = true
args_finite (suc count) [] = true
args_finite (suc count) (x ∷ args) = is_finite x && args_finite count args

unfoldable pub valid_command : CommandRequest → Bool
unfolding args_finite
valid_command value =
    if value.request_id == 0
      || value.command_id == 0
      || value.deadline_ms == 0
      || ltb max_args value.arg_count
    then false
    else args_finite value.arg_count value.args

-- for (i = 0; i < kMaxArgs; ++i) put_float(out + 16 + 4 * i, value.args[i]);
unfoldable pub put_floats : Buffer → ℕ → List ℕ → Buffer
unfolding put32
put_floats out p [] = out
put_floats out p (x ∷ args) = put_floats (put32 out p x) (p + 4) args

unfoldable pub get_floats : ℕ → Buffer → ℕ → List ℕ
unfolding get32
get_floats zero bytes p = []
get_floats (suc left) bytes p = get32 bytes p ∷ get_floats left bytes (p + 4)

unfoldable pub write_command : CommandRequest → Buffer → Buffer
unfolding put64 put16 set_at put_floats
write_command value out =
    let out = put64 out 0 value.request_id in
    let out = put16 out 8 value.command_id in
    let out = put16 out 10 value.deadline_ms in
    let out = set_at out 12 value.arg_count in
    let out = set_at (set_at (set_at out 13 0) 14 0) 15 0 in put_floats out 16 value.args

unfoldable pub encode_command : CommandRequest → Pointer → ℕ → Option Buffer
encode_command value none capacity = none
encode_command value (some out) capacity =
    reject_if (ltb capacity command_bytes || not (valid_command value))
      (some (write_command value out))

unfoldable pub read_command : Buffer → CommandRequest
unfolding get64 get16 get_floats
read_command bytes = record {
  request_id = get64 bytes 0;
  command_id = get16 bytes 8;
  deadline_ms = get16 bytes 10;
  arg_count = bytes 12;
  args = get_floats max_args bytes 16;
}

unfoldable pub decode_command : Pointer → ℕ → Option CommandRequest
decode_command none length = none
decode_command (some bytes) length =
    reject_if (length != command_bytes || bytes 13 != 0 || bytes 14 != 0 || bytes 15 != 0)
      (let value = read_command bytes in if valid_command value then some value else none)

unfoldable pub encode_ack : CommandAck → Pointer → ℕ → Option Buffer
encode_ack value none capacity = none
encode_ack value (some out) capacity = reject_if (ltb capacity ack_bytes || value.request_id == 0) (
    let out = put64 out 0 value.request_id in
    let out = set_at (set_at out 8 value.status) 9 value.detail in
    some (put32 (put16 out 10 value.reserved) 12 value.result_code))

unfoldable pub read_ack : Buffer → CommandAck
read_ack bytes = record {
  request_id = get64 bytes 0;
  status = bytes 8;
  detail = bytes 9;
  reserved = get16 bytes 10;
  result_code = get32 bytes 12;
}

unfoldable pub decode_ack : Pointer → ℕ → Option CommandAck
decode_ack none length = none
decode_ack (some bytes) length =
    reject_if (length != ack_bytes)
      (let value = read_ack bytes in if value.request_id != 0 then some value else none)

unfoldable pub encode_subscription : Subscription → Pointer → ℕ → Option Buffer
encode_subscription value none capacity = none
encode_subscription value (some out) capacity =
    reject_if (ltb capacity subscribe_bytes || not (known_type value.type) || value.source_id == 0)
      (let out = set_at (set_at out 0 (type_code value.type)) 1 (qos_code value.qos) in
        let out = put16 (put16 out 2 value.source_id) 4 value.interval_ms in
        some (put32 out 6 value.flags))

unfoldable pub read_subscription : Buffer → Subscription
read_subscription bytes = record {
  type = type_of_code (bytes 0);
  qos = qos_of_code (bytes 1);
  source_id = get16 bytes 2;
  interval_ms = get16 bytes 4;
  flags = get32 bytes 6;
}

unfoldable pub decode_subscription : Pointer → ℕ → Option Subscription
decode_subscription none length = none
decode_subscription (some bytes) length =
    reject_if
      (length != subscribe_bytes
        || not (known_type (type_of_code (bytes 0)))
        || ltb (qos_code Qos.explicit) (bytes 1))
      (let value = read_subscription bytes in if value.source_id != 0 then some value else none)

unfoldable pub encode_unsubscribe : Subscription → Pointer → ℕ → Option Buffer
unfolding encode_subscription
encode_unsubscribe = encode_subscription

unfoldable pub decode_unsubscribe : Pointer → ℕ → Option Subscription
unfolding decode_subscription
decode_unsubscribe = decode_subscription

unfoldable pub encode_resync : ResyncRequest → Pointer → ℕ → Option Buffer
encode_resync value none capacity = none
encode_resync value (some out) capacity =
    reject_if
      (ltb capacity resync_bytes
        || not (state_type value.type)
        || value.source_id == 0
        || value.resource_id == 0)
      (let out = set_at (set_at out 0 (type_code value.type)) 1 0 in
        some (put32 (put16 out 2 value.source_id) 4 value.resource_id))

unfoldable pub read_resync : Buffer → ResyncRequest
read_resync bytes = record {
  type = type_of_code (bytes 0);
  source_id = get16 bytes 2;
  resource_id = get32 bytes 4;
}

unfoldable pub decode_resync : Pointer → ℕ → Option ResyncRequest
decode_resync none length = none
decode_resync (some bytes) length =
    reject_if (length != resync_bytes || bytes 1 != 0 || not (state_type (type_of_code (bytes 0))))
      (let value = read_resync bytes in
        if value.source_id != 0 && value.resource_id != 0 then some value else none)

unfoldable pub encode_heartbeat : Heartbeat → Pointer → ℕ → Option Buffer
encode_heartbeat value none capacity = none
encode_heartbeat value (some out) capacity =
    reject_if (ltb capacity heartbeat_bytes)
      (some (put32 (put32 (put64 out 0 value.uptime_ms) 8 value.capabilities) 12 value.state))

unfoldable pub decode_heartbeat : Pointer → ℕ → Option Heartbeat
decode_heartbeat none length = none
decode_heartbeat (some bytes) length = reject_if (length != heartbeat_bytes) (
    some
      (record { uptime_ms = get64 bytes 0; capabilities = get32 bytes 8; state = get32 bytes 12 }))
