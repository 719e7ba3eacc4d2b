-- ===== src/Tests/Adapters.antt =====
-- The MAVLink adapter at concrete inputs.
use new_mavlink.Common.{
  ℕ, length, true, if◌then◌else◌, ◌==◌, Option, ◌+◌, ◌≡◌, refl, [], ◌∷◌, pos, negsuc, some, none,
  Buffer, Zeros, read_bytes, write_bytes, arith,
}
use new_mavlink.Messages.{CommandRequest}
use new_mavlink.Crypto.{pointed}
use new_mavlink.Adapter.Parser.{IsFound}
use new_mavlink.Adapter.{
  Attempt, Mavlink, MavlinkFrame, BatteryTelemetry, encode_command_long, decode_battery_status,
  decode_attitude,
}
use new_mavlink.Programs.AdapterProbe.{Surroundings, listen, probe}
use new_mavlink.Programs.AdapterProbe.Ends.{Passes, Ends, listen-Ends}
use new_mavlink.Adapter.Decoders.{TellsBattery, decode_battery_status_inv}
use new_mavlink.Adapter.Commands.{SendsCommand, encode_command_long_inv}
use new_mavlink.Adapter.Scale.{
  to_urad, rounded, significand, biased_exponent, excess, nearest, scaled_magnitude,
}

tenth : to_urad 0x3dcccccd ≡ some (pos 100000)
unfolding to_urad scaled_magnitude rounded significand biased_exponent excess nearest
tenth = refl

minus_fifth : to_urad 0xbe4ccccd ≡ some (negsuc 199999)
unfolding to_urad scaled_magnitude rounded significand biased_exponent excess nearest
minus_fifth = refl

too_large : to_urad 0x451c4000 ≡ none
unfolding to_urad scaled_magnitude rounded significand biased_exponent excess nearest
too_large = refl

-- A library in which every byte is a message of that type.
abbrev toy : Mavlink ℕ ℕ
toy = record {
  parse_char = λ c byte. (c + 1, some byte);
  msgid = λ m. m;
  sysid = λ m. 7;
  to_send_buffer = λ m. 253 ∷ m ∷ [];
  command_long_pack =
      λ c system component target target_component command confirmation args. (c + 1, command);
  command_ack_id = 77;
  battery_status_id = 147;
  global_position_id = 33;
  attitude_id = 30;
  command_ack_decode = λ m. record { command = 400; result = 0; progress = 5 };
  battery_status_decode = λ m. record { first_voltage = 16000; battery_remaining = pos 87 };
  global_position_decode = λ m. record { lat = pos 1; lon = pos 2; alt = pos 3 };
  attitude_decode = λ m. record { roll = 0x3dcccccd; pitch = 0xbe4ccccd; yaw = 0 };
}

abbrev bytes : Buffer
bytes = write_bytes Zeros 0 (9 ∷ 147 ∷ 30 ∷ [])

abbrev telemetry : BatteryTelemetry
telemetry = record { source_system = 7; voltage_mv = 16000; remaining_permille = 870 }

decoded_here : (decode_battery_status toy 0 (some bytes) 3).1 ≡ some telemetry
unfolding decode_battery_status new_mavlink.Adapter.parse_message new_mavlink.Adapter.parse_loop
    new_mavlink.Adapter.battery_of new_mavlink.Adapter.permille read_bytes write_bytes
decoded_here = refl

decode_battery_status_inv_example :
    (m : ℕ) × IsFound toy 0 (pointed (some bytes) 3) 147 m × TellsBattery toy m telemetry
decode_battery_status_inv_example =
    decode_battery_status_inv toy 0 (some bytes) 3 telemetry decoded_here

-- The parser stops behind the message that it was to find.
stops_there : (decode_battery_status toy 0 (some bytes) 3).0 ≡ 2
unfolding decode_battery_status new_mavlink.Adapter.parse_message new_mavlink.Adapter.parse_loop
    new_mavlink.Adapter.battery_of new_mavlink.Adapter.permille read_bytes write_bytes
stops_there = refl

abbrev source_of : Attempt → ℕ
source_of (Attempt.decoded t) = t.source_system
source_of _ = 0

-- The third of the bytes is an attitude.
attitude_here : source_of (decode_attitude toy 0 (some bytes) 3).1 ≡ 7
unfolding decode_attitude new_mavlink.Adapter.attitude_of new_mavlink.Adapter.parse_message
    new_mavlink.Adapter.parse_loop read_bytes write_bytes new_mavlink.Adapter.finite_angles
    new_mavlink.Messages.Requests.is_finite new_mavlink.Adapter.converted to_urad scaled_magnitude
    biased_exponent rounded nearest excess significand
attitude_here = refl

-- Arming with two arguments, the second of which is not counted and not finite.
abbrev arming : CommandRequest
arming = record {
  request_id = 44;
  command_id = 400;
  deadline_ms = 1000;
  arg_count = 1;
  args = 0x3f800000 ∷ 0x7f800000 ∷ 0 ∷ 0 ∷ 0 ∷ 0 ∷ 0 ∷ [];
}

abbrev frame : MavlinkFrame
frame = record { bytes = write_bytes Zeros 0 (253 ∷ 400 ∷ []); length = 2 }

encoded_here : (encode_command_long toy 0 arming 255 190 1 1).1 ≡ some frame
unfolding encode_command_long new_mavlink.Adapter.refuses_command
    new_mavlink.Adapter.command_allowed new_mavlink.Adapter.framed
    new_mavlink.Messages.Requests.args_finite
encoded_here = refl

encode_command_long_inv_example : SendsCommand toy 0 arming 255 190 1 1 frame
encode_command_long_inv_example =
    encode_command_long_inv toy 0 arming 255 190 1 1 frame encoded_here

-- The time is the state, and a datagram takes one nanosecond; the third is the acknowledgement.
abbrev around : Surroundings ℕ ℕ ℕ
around = record {
  net = record {
    socket = λ w. (w, some 3);
    set_reuse_address = λ w fd. w;
    bind_loopback = λ w fd port. (w, true);
    parse_address = λ host. none;
    send_datagram = λ w fd bytes address port. (w, some (length bytes));
    wait_readable = λ w fd s us. (w, true);
    receive_datagram = λ w fd n. (w + 1, some ((if w == 2 then 77 else 9) ∷ []));
    close_descriptor = λ w fd. w;
  };
  mav = toy;
  now = λ w. (w, w);
  wait_readable = λ w fd s us. (w, true);
  heartbeat_pack = λ c system component type autopilot mode custom state. (c + 1, 0);
  mav_type_gcs = 6;
  mav_autopilot_invalid = 8;
  mav_state_active = 4;
  loopback_address = 0x0100007f;
}

around-Passes : Passes around (λ w. w)
around-Passes = record {
  reads = λ w. refl;
  reading = λ w. omega arith;
  waiting = λ w fd a b. omega arith;
  receiving = λ w fd n. omega arith;
}

listen-Ends_example :
    Ends around (λ w. w) around-Passes 3 400 10 (listen around 11 3 400 10 0 0 Zeros)
listen-Ends_example = listen-Ends around (λ w. w) around-Passes 3 400 10 11 0 0 Zeros (omega arith)

abbrev code_of : Option (ℕ × ℕ × ℕ) → ℕ
code_of none = 99
code_of (some (w, c, code)) = code

probed : code_of (probe around 5 14540 14580 400 0 0) ≡ 0
unfolding probe new_mavlink.Adapter.command_allowed new_mavlink.Programs.AdapterProbe.on_socket
    new_mavlink.Programs.AdapterProbe.greets new_mavlink.Programs.AdapterProbe.sends
    new_mavlink.Programs.AdapterProbe.turn new_mavlink.Programs.AdapterProbe.on_ready
    new_mavlink.Programs.AdapterProbe.on_datagram new_mavlink.Programs.AdapterProbe.judged
    new_mavlink.Programs.AdapterProbe.finished new_mavlink.Programs.AdapterProbe.microseconds
    new_mavlink.Programs.AdapterProbe.remaining new_mavlink.Programs.AdapterProbe.seconds
    new_mavlink.Programs.AdapterProbe.probe_request encode_command_long
    new_mavlink.Adapter.refuses_command new_mavlink.Adapter.framed
    new_mavlink.Messages.Requests.args_finite new_mavlink.Messages.Requests.is_finite
    new_mavlink.Transport.Udp.sent_all read_bytes write_bytes listen
    new_mavlink.Adapter.decode_command_ack new_mavlink.Adapter.ack_of new_mavlink.Adapter.parse_loop
    new_mavlink.Adapter.parse_message new_mavlink.Common.set_at
probed = refl

refused : code_of (probe around 5 14540 14580 176 0 0) ≡ 0
unfolding probe new_mavlink.Adapter.command_allowed
refused = refl
