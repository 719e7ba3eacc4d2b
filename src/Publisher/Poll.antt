-- ===== src/Publisher/Poll.antt =====
-- src/publisher.cpp, lines 13 to 21 and 80 to 122: what `poll` sends.
pub mod Sent
pub mod Each
use new_mavlink.Common.{
  ℕ, ◌+◌, ◌-◌, ◌^◌, Bool, true, false, not, ◌&&◌, ◌||◌, List, [], ◌∷◌, ◌++◌, Option, none, some,
  Zeros, Buffer, length, ltb, leb, ◌!=◌, if◌then◌else◌,
}
use new_mavlink.Wire.{MessageType, Qos, default_header}
use new_mavlink.Messages.{
  StateMeta, Position, Attitude, Battery, NativeMessage, default_message, position_bytes,
  attitude_bytes, battery_bytes,
}
use new_mavlink.Messages.State.{encode_position, encode_attitude, encode_battery}
use new_mavlink.Publisher.{StatePublisher, PublishedMessage, PublishKind}

-- kFlagDelta and kFlagSnapshot
abbrev pub flag_delta : ℕ
flag_delta = 1

abbrev pub flag_snapshot : ℕ
flag_snapshot = 4

unfoldable pub prepare_header : MessageType → ℕ → ℕ → Bool → NativeMessage
prepare_header type source destination snapshot = record default_message {
  header = record default_header {
    type = type;
    qos = Qos.state_latest;
    source_id = source;
    destination_id = destination;
    flags = if snapshot then flag_snapshot else flag_delta;
  };
}

-- `value.meta` as it is sent.
unfoldable pub sent_meta : StateMeta → Bool → StateMeta
sent_meta meta snapshot = record meta {
  snapshot = if snapshot then 1 else 0;
  base_generation = if snapshot then 0 else meta.base_generation;
}

-- The message with its payload, if the encoder took the value.
unfoldable pub published :
    StatePublisher → MessageType → ℕ → Bool → Option Buffer → Option PublishedMessage
published p type length snapshot none = none
published p type length snapshot (some bytes) = some (record {
  message = record (prepare_header type p.source_id p.destination_id snapshot) {
    payload = bytes;
    length = length;
  };
  kind = if snapshot then PublishKind.helpful_snapshot else PublishKind.on_change;
})

unfoldable pub build_position : StatePublisher → Bool → Option PublishedMessage
build_position p snapshot =
    if not p.state.has_position
    then none
    else let value = p.state.position in
      published p MessageType.position position_bytes snapshot
        (encode_position (record value { meta = sent_meta value.meta snapshot }) (some Zeros) 768)

unfoldable pub build_attitude : StatePublisher → Bool → Option PublishedMessage
build_attitude p snapshot =
    if not p.state.has_attitude
    then none
    else let value = p.state.attitude in
      published p MessageType.attitude attitude_bytes snapshot
        (encode_attitude (record value { meta = sent_meta value.meta snapshot }) (some Zeros) 768)

unfoldable pub build_battery : StatePublisher → Bool → Option PublishedMessage
build_battery p snapshot =
    if not p.state.has_battery
    then none
    else let value = p.state.battery in
      published p MessageType.battery battery_bytes snapshot
        (encode_battery (record value { meta = sent_meta value.meta snapshot }) (some Zeros) 768)

unfoldable pub schedule_next_snapshot : StatePublisher → ℕ → StatePublisher
schedule_next_snapshot p now_ms = record p {
  next_snapshot_ms =
      if ltb (2 ^ 64 - 1 - p.snapshot_period_ms) now_ms
      then 2 ^ 64 - 1
      else now_ms + p.snapshot_period_ms;
}

-- `if (count < output_capacity && build(output[count])) ++count;`
unfoldable pub emit : List PublishedMessage → ℕ → Option PublishedMessage → List PublishedMessage
emit out capacity none = out
emit out capacity (some m) = if ltb (length out) capacity then out ++ (m ∷ []) else out

-- `if (dirty && count < output_capacity && build(output[count])) { dirty = false; ++count; }`
unfoldable pub emit_dirty :
    List PublishedMessage → ℕ → Bool → Option PublishedMessage → List PublishedMessage × Bool
emit_dirty out capacity dirty none = (out, dirty)
emit_dirty out capacity dirty (some m) =
    if dirty && ltb (length out) capacity then (out ++ (m ∷ []), false) else (out, dirty)

unfoldable pub poll_snapshot : StatePublisher → ℕ → ℕ → StatePublisher × List PublishedMessage
poll_snapshot p now_ms capacity =
    let out = emit [] capacity (build_position p true) in
    let out = emit out capacity (build_attitude p true) in
    let out = emit out capacity (build_battery p true) in
    (
      schedule_next_snapshot
          (record p { position_dirty = false; attitude_dirty = false; battery_dirty = false })
          now_ms,
      out,
    )

unfoldable pub poll_changes : StatePublisher → ℕ → StatePublisher × List PublishedMessage
poll_changes p capacity =
    let (out1, position) = emit_dirty [] capacity p.position_dirty (build_position p false) in
    let (out2, attitude) = emit_dirty out1 capacity p.attitude_dirty (build_attitude p false) in
    let (out3, battery) = emit_dirty out2 capacity p.battery_dirty (build_battery p false) in
    (
      record p { position_dirty = position; attitude_dirty = attitude; battery_dirty = battery },
      out3,
    )

-- `const bool due = …`
unfoldable pub due : StatePublisher → ℕ → Bool
due p now_ms = p.next_snapshot_ms != 0 && leb p.next_snapshot_ms now_ms

-- `output_capacity` elements at `output`, which is none where it is null.
unfoldable pub poll : StatePublisher → ℕ → Bool → ℕ → StatePublisher × List PublishedMessage
poll p now_ms is_null capacity =
    if is_null || ltb capacity 1
    then (p, [])
    else if due p now_ms
    then poll_snapshot p now_ms capacity
    else poll_changes p capacity
