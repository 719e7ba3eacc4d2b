-- ===== src/Tests/Codecs.antt =====
-- The codecs of the typed messages at concrete inputs.
use new_mavlink.Common.{◌≡◌, refl, [], ◌∷◌, Option, none, some, Buffer, Zeros, arith, pos, negsuc}
use new_mavlink.Wire.{MessageType, Qos}
use new_mavlink.Messages.{
  CommandRequest, CommandAck, Subscription, ResyncRequest, StateMeta, Position, Attitude, Battery,
  Heartbeat, command_bytes, ack_bytes, subscribe_bytes, resync_bytes, position_bytes,
  attitude_bytes, battery_bytes, heartbeat_bytes,
}
use new_mavlink.Messages.State.{
  encode_state_meta, encode_position, decode_position, encode_attitude, decode_attitude,
  encode_battery, decode_battery, FitsMeta, FitsPosition,
}
use new_mavlink.Messages.State.Motion.{
  decode_position-encode_position, decode_attitude-encode_attitude,
}
use new_mavlink.Messages.State.Power.{decode_battery-encode_battery}
use new_mavlink.Messages.Catalogue.{Kind, encode, decode, bytes_of, decode-encode}
use new_mavlink.Messages.Requests.{
  encode_command, decode_command, valid_command, encode_ack, decode_ack, encode_subscription,
  decode_subscription, encode_resync, decode_resync, encode_heartbeat, decode_heartbeat,
}
use new_mavlink.Messages.Requests.Commands.{decode_command-encode_command}
use new_mavlink.Messages.Requests.Fixed.{
  decode_ack-encode_ack, decode_subscription-encode_subscription, decode_resync-encode_resync,
  decode_heartbeat-encode_heartbeat,
}

abbrev pub written : Option Buffer → Buffer
written none = Zeros
written (some bytes) = bytes

abbrev meta : StateMeta
meta = record {
  resource_id = 7;
  generation = 4;
  base_generation = 3;
  source_id = 2;
  snapshot = 0;
  reserved = 0;
}

meta_fits : FitsMeta meta
meta_fits = record {
  resource_id = omega arith;
  generation = omega arith;
  base_generation = omega arith;
  source_id = omega arith;
}

abbrev pub position : Position
position = record {
  meta = meta;
  latitude_e7 = pos 473977000;
  longitude_e7 = negsuc 85000000;
  altitude_mm = pos 488000;
}

position_written :
    encode_position position (some Zeros) 28
    ≡ some (written (encode_position position (some Zeros) 28))
unfolding encode_position encode_state_meta
position_written = refl

pub position_fits : FitsPosition position
position_fits = record {
  meta = meta_fits;
  latitude_e7 = (omega arith, omega arith);
  longitude_e7 = (omega arith, omega arith);
  altitude_mm = (omega arith, omega arith);
}

position_decodes :
    decode_position (some (written (encode_position position (some Zeros) 28))) position_bytes
    ≡ some position
position_decodes =
    decode_position-encode_position position Zeros
      (written (encode_position position (some Zeros) 28)) 28
      (record {
        meta = meta_fits;
        latitude_e7 = (omega arith, omega arith);
        longitude_e7 = (omega arith, omega arith);
        altitude_mm = (omega arith, omega arith);
      })
      position_written

decode-encode_example :
    decode Kind.position
      (some (written (encode Kind.position position (some Zeros) 28)))
      (bytes_of Kind.position)
    ≡ some position
decode-encode_example =
    decode-encode Kind.position position Zeros (written (encode_position position (some Zeros) 28))
      28 position_fits position_written

abbrev attitude : Attitude
attitude = record {
  meta = meta;
  roll_urad = negsuc 12;
  pitch_urad = pos 40;
  yaw_urad = pos 3141592;
}

attitude_written :
    encode_attitude attitude (some Zeros) 28
    ≡ some (written (encode_attitude attitude (some Zeros) 28))
unfolding encode_attitude encode_state_meta
attitude_written = refl

attitude_decodes :
    decode_attitude (some (written (encode_attitude attitude (some Zeros) 28))) attitude_bytes
    ≡ some attitude
attitude_decodes =
    decode_attitude-encode_attitude attitude Zeros
      (written (encode_attitude attitude (some Zeros) 28)) 28
      (record {
        meta = meta_fits;
        roll_urad = (omega arith, omega arith);
        pitch_urad = (omega arith, omega arith);
        yaw_urad = (omega arith, omega arith);
      })
      attitude_written

abbrev battery : Battery
battery = record {
  meta = meta;
  voltage_mv = 11100;
  current_ma = 1500;
  remaining_permille = 800;
  reserved = 0;
}

battery_written :
    encode_battery battery (some Zeros) 24 ≡ some (written (encode_battery battery (some Zeros) 24))
unfolding encode_battery encode_state_meta
battery_written = refl

battery_decodes :
    decode_battery (some (written (encode_battery battery (some Zeros) 24))) battery_bytes
    ≡ some battery
battery_decodes =
    decode_battery-encode_battery battery Zeros (written (encode_battery battery (some Zeros) 24))
      24 (record { meta = meta_fits; voltage_mv = omega arith; current_ma = omega arith })
      battery_written

abbrev command : CommandRequest
command = record {
  request_id = 77;
  command_id = 400;
  deadline_ms = 500;
  arg_count = 1;
  args = 0x3f800000 ∷ 0 ∷ 0 ∷ 0 ∷ 0 ∷ 0 ∷ 0 ∷ [];
}

command_written :
    encode_command command (some Zeros) 44 ≡ some (written (encode_command command (some Zeros) 44))
unfolding encode_command valid_command
command_written = refl

command_decodes :
    decode_command (some (written (encode_command command (some Zeros) 44))) command_bytes
    ≡ some command
command_decodes =
    decode_command-encode_command command Zeros (written (encode_command command (some Zeros) 44))
      44
      (record {
        request_id = omega arith;
        command_id = omega arith;
        deadline_ms = omega arith;
        seven = refl;
        args = (
          omega arith,
          (
            omega arith,
            (omega arith, (omega arith, (omega arith, (omega arith, (omega arith, tt))))),
          ),
        );
      })
      command_written

abbrev ack : CommandAck
ack = record { request_id = 77; status = 0; detail = 1; reserved = 0; result_code = 5 }

ack_written : encode_ack ack (some Zeros) 16 ≡ some (written (encode_ack ack (some Zeros) 16))
unfolding encode_ack
ack_written = refl

ack_decodes : decode_ack (some (written (encode_ack ack (some Zeros) 16))) ack_bytes ≡ some ack
ack_decodes =
    decode_ack-encode_ack ack Zeros (written (encode_ack ack (some Zeros) 16)) 16
      (record { request_id = omega arith; reserved = omega arith; result_code = omega arith })
      ack_written

abbrev subscription : Subscription
subscription = record {
  type = MessageType.position;
  qos = Qos.state_latest;
  source_id = 2;
  interval_ms = 100;
  flags = 0;
}

subscription_written :
    encode_subscription subscription (some Zeros) 10
    ≡ some (written (encode_subscription subscription (some Zeros) 10))
unfolding encode_subscription new_mavlink.Wire.known_type
subscription_written = refl

subscription_decodes :
    decode_subscription
      (some (written (encode_subscription subscription (some Zeros) 10)))
      subscribe_bytes
    ≡ some subscription
subscription_decodes =
    decode_subscription-encode_subscription subscription Zeros
      (written (encode_subscription subscription (some Zeros) 10)) 10
      (record { source_id = omega arith; interval_ms = omega arith; flags = omega arith }) tt
      subscription_written

abbrev resync : ResyncRequest
resync = record { type = MessageType.battery; source_id = 2; resource_id = 7 }

resync_written :
    encode_resync resync (some Zeros) 8 ≡ some (written (encode_resync resync (some Zeros) 8))
unfolding encode_resync new_mavlink.Wire.state_type
resync_written = refl

resync_decodes :
    decode_resync (some (written (encode_resync resync (some Zeros) 8))) resync_bytes ≡ some resync
resync_decodes =
    decode_resync-encode_resync resync Zeros (written (encode_resync resync (some Zeros) 8)) 8
      (record { source_id = omega arith; resource_id = omega arith }) resync_written

abbrev heartbeat : Heartbeat
heartbeat = record { uptime_ms = 123456; capabilities = 3; state = 1 }

heartbeat_written :
    encode_heartbeat heartbeat (some Zeros) 16
    ≡ some (written (encode_heartbeat heartbeat (some Zeros) 16))
unfolding encode_heartbeat
heartbeat_written = refl

heartbeat_decodes :
    decode_heartbeat (some (written (encode_heartbeat heartbeat (some Zeros) 16))) heartbeat_bytes
    ≡ some heartbeat
heartbeat_decodes =
    decode_heartbeat-encode_heartbeat heartbeat Zeros
      (written (encode_heartbeat heartbeat (some Zeros) 16)) 16
      (record { uptime_ms = omega arith; capabilities = omega arith; state = omega arith })
      heartbeat_written
