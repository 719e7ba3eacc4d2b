-- ===== src/Programs/VehicleEndpoint.antt =====
-- apps/vehicle_endpoint.cpp: the vehicle, which publishes its state every 100 milliseconds.
pub mod Ends
pub mod Outgoing
pub mod Sends
pub mod Succeeds
use new_mavlink.Common.{
  ℕ, zero, suc, ◌+◌, ◌-◌, ℤ, pos, negsuc, Bool, true, false, not, ◌&&◌, ◌||◌, List, [], ◌∷◌, Option,
  none, some, leb, ltb, ◌==◌, u16, u64, if◌then◌else◌,
}
use new_mavlink.Crypto.{Ascon}
use new_mavlink.Wire.{RecordHeader}
use new_mavlink.Messages.{StateMeta, Position, Attitude, Battery, NativeMessage}
use new_mavlink.Record.Types.{RecordError, Result, ok, err}
use new_mavlink.Record.Session.{new_session}
use new_mavlink.Publisher.{
  StatePublisher, PublishedMessage, new_publisher, helpful_snapshot_period_ms, update_position,
  update_attitude, update_battery,
}
use new_mavlink.Publisher.Poll.{poll}
use new_mavlink.Transport.Udp.{Network, UdpEndpoint, new_udp, bind}
use new_mavlink.Transport.{NativeEndpoint, new_endpoint, send}
use new_mavlink.Programs.{vehicle_id, proxy_id, loopback, link_keys}
use new_mavlink.Programs.ProxyService.{Start}

abbrev pub max_helpful_snapshot_messages : ℕ
max_helpful_snapshot_messages = 3

pub record VehicleEndpoint : Type 0 where
  pub endpoint : NativeEndpoint
  pub publisher : StatePublisher
  pub position : Position
  pub sequence : ℕ

-- StateMeta{resource_id, 0U, 0U, 1U, 0U, 0U}
abbrev pub meta_of : ℕ → StateMeta
meta_of resource_id = record {
  resource_id = resource_id;
  generation = 0;
  base_generation = 0;
  source_id = 1;
  snapshot = 0;
  reserved = 0;
}

abbrev pub initial_position : Position
initial_position = record {
  meta = meta_of 42;
  latitude_e7 = pos 473977400;
  longitude_e7 = pos 85455900;
  altitude_mm = pos 500000;
}

abbrev pub initial_attitude : Attitude
initial_attitude = record {
  meta = meta_of 43;
  roll_urad = pos 0;
  pitch_urad = pos 0;
  yaw_urad = pos 0;
}

abbrev pub initial_battery : Battery
initial_battery = record {
  meta = meta_of 44;
  voltage_mv = 16000;
  current_ma = 0;
  remaining_permille = 900;
  reserved = 0;
}

unfoldable pub new_vehicle : NativeEndpoint → VehicleEndpoint
new_vehicle endpoint = record {
  endpoint = endpoint;
  publisher = new_publisher vehicle_id proxy_id helpful_snapshot_period_ms;
  position = initial_position;
  sequence = 0;
}

-- Before the loop.
unfoldable pub start : {W : Type 0} → Ascon → Network W → W → ℕ → W × Start VehicleEndpoint
start a net w listen_port = elim (link_keys a vehicle_id proxy_id) [
  | none ↦ (w, Start.fails 2)
  | some (tx, unused) ↦
      let (w1, udp, bound) = bind net w new_udp listen_port in
      if not bound
      then (w1, Start.fails 3)
      else (w1, Start.serves udp (new_vehicle (new_endpoint (new_session tx))))
]

-- `position.latitude_e7 += 10`
unfoldable pub moved : Position → Position
moved p = elim p.latitude_e7 [
  | pos n ↦ record p { latitude_e7 = pos (n + 10) }
  | negsuc n ↦
      if ltb n 10
      then record p { latitude_e7 = pos (9 - n) }
      else record p { latitude_e7 = negsuc (n - 10) }
]

-- The updates at `now_ms` 0.
unfoldable pub first_updates : VehicleEndpoint → ℕ → VehicleEndpoint
first_updates v now_ms =
    let p = (update_position v.publisher v.position now_ms).0 in
    let p = (update_attitude p initial_attitude now_ms).0 in
    let p = (update_battery p initial_battery now_ms).0 in
    if now_ms == 0 then record v { publisher = p } else v

-- The update at `now_ms` 3000.
unfoldable pub later_update : VehicleEndpoint → ℕ → ℕ → VehicleEndpoint
later_update v duration_ms now_ms =
    let position = moved v.position in
    let p = (update_position v.publisher position now_ms).0 in
    if ltb 0 duration_ms && now_ms == 3000
    then record v { position = position; publisher = p }
    else v

unfoldable pub out_header : VehicleEndpoint → NativeMessage → RecordHeader
out_header v message = record message.header {
  session_id = 1;
  epoch = 1;
  sequence = v.sequence;
  payload_len = u16 message.length;
}

-- The loop over the messages of one poll; 5 is the exit code.
unfoldable pub send_messages :
    {W : Type 0}
    → Ascon
    → Network W
    → UdpEndpoint
    → ℕ
    → W
    → VehicleEndpoint
    → List PublishedMessage
    → W × VehicleEndpoint × Option ℕ
send_messages a net udp peer_port w v [] = (w, v, none)
send_messages a net udp peer_port w v (m ∷ rest) =
    let (w1, endpoint, result) =
      send a net w v.endpoint (out_header v m.message) (some m.message.payload) m.message.length udp
        loopback peer_port in
    let v1 = record v { endpoint = endpoint; sequence = u64 (v.sequence + 1) } in
    elim result [
      | err error ↦ (w1, v1, some 5)
      | ok sent ↦ send_messages a net udp peer_port w1 v1 rest
    ]

-- After the messages: whether the program returns 0.
unfoldable pub ends : ℕ → ℕ → Option ℕ → Option ℕ
ends duration_ms now_ms (some code) = some code
ends duration_ms now_ms none = if duration_ms == 0 || leb duration_ms now_ms then some 0 else none

-- One turn of the loop.
unfoldable pub turn :
    {W : Type 0}
    → Ascon
    → Network W
    → UdpEndpoint
    → ℕ
    → ℕ
    → ℕ
    → W
    → VehicleEndpoint
    → W × VehicleEndpoint × Option ℕ
turn a net udp peer_port duration_ms now_ms w v =
    let v1 = later_update (first_updates v now_ms) duration_ms now_ms in
    let (p, messages) = poll v1.publisher now_ms false max_helpful_snapshot_messages in
    let (w1, v2, code) =
      send_messages a net udp peer_port w (record v1 { publisher = p }) messages in
    (w1, v2, ends duration_ms now_ms code)

-- The loop from `now_ms` on, with fuel for its turns: the exit code is none if the fuel runs out.
unfoldable pub loop :
    {W : Type 0}
    → ℕ
    → Ascon
    → Network W
    → UdpEndpoint
    → ℕ
    → ℕ
    → ℕ
    → W
    → VehicleEndpoint
    → W × VehicleEndpoint × Option ℕ
loop zero a net udp peer_port duration_ms now_ms w v = (w, v, none)
loop (suc fuel) a net udp peer_port duration_ms now_ms w v =
    let (w1, v1, code) = turn a net udp peer_port duration_ms now_ms w v in
    elim code [
      | some n ↦ (w1, v1, some n)
      | none ↦ loop fuel a net udp peer_port duration_ms (u64 (now_ms + 100)) w1 v1
    ]
