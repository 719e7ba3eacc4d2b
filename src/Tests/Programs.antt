-- ===== src/Tests/Programs.antt =====
-- The programs at concrete inputs: a position on its way from the vehicle to the ground station.
use new_mavlink.Common.{
  ℕ, ◌+◌, ◌%◌, ◌^◌, ◌≡◌, ◌≢◌, refl, inl, true, false, List, [], ◌∷◌, ◌++◌, Option, none, some,
  Buffer, Pointer, Zeros, done, next, ◌<◌, read_bytes, length, write_bytes, u64, arith, pos,
}
use new_mavlink.Wire.{MessageType, Qos, RecordHeader, DirectionalKeys, default_header, header_bytes}
use new_mavlink.Messages.{StateMeta, Position}
use new_mavlink.Messages.State.{FitsMeta, encode_position, encode_state_meta}
use new_mavlink.Record.Types.{OpenRecord, Result, ok}
use new_mavlink.Record.Session.{Session, new_session, seal, header_written}
use new_mavlink.Record.Replay.{accepted}
use new_mavlink.Record.Session.Open.{Deliverable}
use new_mavlink.Transport.{NativeEndpoint, new_endpoint, send, receive_uncommitted}
use new_mavlink.Transport.Delivery.{Carries, Leaves, on_wire, receive-send}
use new_mavlink.Programs.{VehicleState, read_state, session_id, loopback}
use new_mavlink.Programs.ProxyService.{ProxyService, new_service, out_header, turn}
use new_mavlink.Programs.GcsEndpoint.{GcsEndpoint}
use new_mavlink.Programs.GcsEndpoint.{turn as gcs_turn}
use new_mavlink.Programs.Relay.{relays_state}
use new_mavlink.Programs.PublisherDemo.{Published, demo}
use new_mavlink.Programs.ProxyService.Runs.{IsReady, goes_on, reachable-IsReady}
use new_mavlink.Programs.VehicleEndpoint.{new_vehicle}
use new_mavlink.Programs.VehicleEndpoint.Ends.{EndsWith, loop-ends}
use new_mavlink.Tests.Cipher.{plain_cipher, plain_cipher-IsAead}
use new_mavlink.Tests.RecordLayer.{key_a, key_b}
use new_mavlink.Tests.Codecs.{position, written}
use new_mavlink.Tests.Network.{one_datagram, udp, arrives}

abbrev pub keys : ℕ → ℕ → List ℕ → List ℕ → DirectionalKeys
keys local peer tx rx = record {
  session = session_id;
  local_id = local;
  peer_id = peer;
  tx = tx;
  rx = rx;
}

abbrev pub vehicle : NativeEndpoint
vehicle = record { session = new_session (keys 1 3 key_a key_b); buffer = Zeros }

abbrev pub service : ProxyService
service = record {
  ingress = record { session = new_session (keys 3 1 key_b key_a); buffer = Zeros };
  egress = record { session = new_session (keys 3 2 key_a key_b); buffer = Zeros };
  egress_sequence = 0;
  received_any = false;
}

abbrev gcs : GcsEndpoint
gcs = record {
  endpoint = record { session = new_session (keys 2 3 key_b key_a); buffer = Zeros };
  received_count = 0;
  shown = none;
}

abbrev pub header : RecordHeader
header = record default_header {
  type = MessageType.position;
  qos = Qos.state_latest;
  source_id = 1;
  destination_id = 3;
  session_id = 1;
  epoch = 1;
  sequence = 0;
}

abbrev payload : Buffer
payload = written (encode_position position (some Zeros) 28)

read_payload :
    read_state MessageType.position (some payload) 28 ≡ some (VehicleState.position position)
unfolding read_state new_mavlink.Messages.State.decode_position encode_position encode_state_meta
    new_mavlink.Messages.State.decode_state_meta
read_payload = refl

abbrev sent : List ℕ × NativeEndpoint × Result (Unit {0})
sent = send plain_cipher one_datagram [] vehicle header (some payload) 28 udp loopback 24660

abbrev vehicle_after : NativeEndpoint
vehicle_after = sent.1

sent_here : sent ≡ (sent.0, vehicle_after, ok tt)
unfolding send new_mavlink.Transport.send_sealed new_session seal
    new_mavlink.Record.Session.valid_keys new_mavlink.Record.Session.refuses_header
    new_mavlink.Crypto.aead_seal new_mavlink.Wire.known_type new_mavlink.Wire.qos_code read_bytes
    new_mavlink.Transport.Udp.send_to encode_position encode_state_meta
sent_here = refl

abbrev turned : List ℕ × ProxyService × Option ℕ
turned = turn plain_cipher one_datagram udp 24661 1000 0 (on_wire vehicle_after 28) service

turned_code : turned.2 ≡ none
unfolding turn new_mavlink.Programs.ProxyService.on_received
    new_mavlink.Programs.ProxyService.on_record new_mavlink.Programs.ProxyService.relay
    new_mavlink.Programs.ProxyService.relayed new_mavlink.Programs.ProxyService.fits_schema
    new_mavlink.Programs.ProxyService.decodes out_header receive_uncommitted
    new_mavlink.Transport.open_received new_mavlink.Transport.Udp.receive
    new_mavlink.Transport.commit new_mavlink.Record.Session.commit_replay
    new_mavlink.Record.Replay.commit new_mavlink.Record.Replay.accepted
    new_mavlink.Record.Session.open_uncommitted new_mavlink.Record.Session.open_matching
    new_mavlink.Record.Session.mismatches new_mavlink.Record.Session.valid_keys
    new_mavlink.Record.Session.refuses_header new_mavlink.Record.Header.decode_header
    new_mavlink.Record.Header.read_header new_mavlink.Crc.crc16_ccitt new_session
    new_mavlink.Wire.known_type new_mavlink.Wire.type_of_code new_mavlink.Wire.qos_code
    new_mavlink.Wire.qos_of_code new_mavlink.Crypto.aead_open new_mavlink.Crypto.aead_seal
    new_mavlink.Messages.State.decode_position new_mavlink.Messages.State.decode_state_meta send
    new_mavlink.Transport.send_sealed seal read_bytes write_bytes new_mavlink.Transport.Udp.send_to
    header_written new_mavlink.Record.Session.sealed_header new_mavlink.Record.Session.draft_written
    new_mavlink.Record.Session.draft_header new_mavlink.Record.Header.encode_header
    new_mavlink.Record.Header.encode_front new_mavlink.Common.put16 new_mavlink.Common.set_at
    new_mavlink.Wire.type_code encode_position encode_state_meta
turned_code = refl

differs : (code : Option ℕ) → code ≡ none → code ≢ some 5
differs code e d = cc

pub ready : Deliverable vehicle.session service.ingress.session header 0
unfolding new_session accepted
ready = record {
  mirrors = record { session = refl; ids = (refl, refl); keys = (refl, refl) };
  keys = record {
    value = omega arith;
    epoch = omega arith;
    local_id = omega arith;
    peer_id = omega arith;
  };
  qos = tt;
  sequence = omega arith;
  deadline_ms = omega arith;
  in_time = inl refl;
  admitted = refl;
}

onward_ready : Deliverable service.egress.session gcs.endpoint.session (out_header service header) 0
unfolding new_session accepted out_header
onward_ready = record {
  mirrors = record { session = refl; ids = (refl, refl); keys = (refl, refl) };
  keys = record {
    value = omega arith;
    epoch = omega arith;
    local_id = omega arith;
    peer_id = omega arith;
  };
  qos = tt;
  sequence = omega arith;
  deadline_ms = omega arith;
  in_time = inl refl;
  admitted = refl;
}

receive-send_example :
    (f1 : NativeEndpoint) × (o : OpenRecord) × (receive_uncommitted plain_cipher one_datagram
        (on_wire vehicle_after 28)
        service.ingress
        udp
        0
      ≡ (on_wire vehicle_after 28, f1, ok o))
    × (f1.session ≡ service.ingress.session)
    × Carries vehicle header payload 28 o
    × Leaves one_datagram [] udp loopback 24660 (on_wire vehicle_after 28) sent.0
receive-send_example =
    receive-send one_datagram plain_cipher plain_cipher-IsAead [] sent.0 (on_wire vehicle_after 28)
      (on_wire vehicle_after 28) vehicle vehicle_after service.ingress header payload 28 udp udp
      loopback 24660 0 ready sent_here (arrives (on_wire vehicle_after 28))

relays_state_example :
    (g1 : GcsEndpoint) × (gcs_code : Option ℕ) × (gcs_turn plain_cipher one_datagram udp 1000 0
        (on_wire turned.1.egress 28)
        gcs
      ≡ (on_wire turned.1.egress 28, g1, gcs_code))
    × (g1.shown ≡ some (VehicleState.position position))
    × (g1.received_count ≡ u64 (gcs.received_count + 1))
    × Leaves one_datagram [] udp loopback 24660 (on_wire vehicle_after 28) sent.0
    × Leaves one_datagram
        (on_wire vehicle_after 28)
        udp
        loopback
        24661
        (on_wire turned.1.egress 28)
        turned.0
relays_state_example =
    relays_state one_datagram plain_cipher plain_cipher-IsAead [] sent.0 (on_wire vehicle_after 28)
      (on_wire vehicle_after 28) turned.0 (on_wire turned.1.egress 28) (on_wire turned.1.egress 28)
      vehicle vehicle_after service turned.1 gcs header payload 28 (VehicleState.position position)
      udp udp udp loopback 24660 24661 1000 0 1000 0 turned.2 ready onward_ready read_payload
      sent_here (arrives (on_wire vehicle_after 28)) refl (differs turned.2 turned_code)
      (arrives (on_wire turned.1.egress 28))

-- The times at which the demo prints, and how many messages.
abbrev counts : List Published → List (ℕ × ℕ)
counts [] = []
counts (p ∷ rest) = (p.now_ms, length p.messages) ∷ counts rest

abbrev demo_counts : List (ℕ × ℕ)
demo_counts = counts demo

abbrev zero_or_small :
    {m : StateMeta}
    → m.resource_id < 2 ^ 32
    → m.generation < 2 ^ 32
    → m.base_generation < 2 ^ 32
    → m.source_id < 2 ^ 16
    → FitsMeta m
zero_or_small r g b s = record {
  resource_id = r;
  generation = g;
  base_generation = b;
  source_id = s;
}

loop-ends_example :
    (code : ℕ) × EndsWith plain_cipher one_datagram udp 24660 250 3 0 [] (new_vehicle vehicle) code
loop-ends_example =
    loop-ends plain_cipher one_datagram udp 24660 250 [] (new_vehicle vehicle) (omega arith)

abbrev fresh_service : ProxyService
fresh_service =
    new_service (new_endpoint (new_session (keys 3 1 key_b key_a)))
      (new_endpoint (new_session (keys 3 2 key_a key_b)))

waited_here :
    turn plain_cipher one_datagram udp 24661 1000 0 [] fresh_service ≡ ([], fresh_service, none)
unfolding turn new_mavlink.Programs.ProxyService.on_received
    new_mavlink.Programs.ProxyService.on_error receive_uncommitted
    new_mavlink.Transport.open_received new_mavlink.Transport.Udp.receive new_service new_endpoint
waited_here = refl

reachable-IsReady_example : IsReady fresh_service
reachable-IsReady_example =
    reachable-IsReady one_datagram plain_cipher udp 24661 1000 (keys 3 1 key_b key_a)
      (keys 3 2 key_a key_b) fresh_service
      (next fresh_service fresh_service fresh_service
        (goes_on 0 [] [] fresh_service fresh_service waited_here) (done fresh_service))
