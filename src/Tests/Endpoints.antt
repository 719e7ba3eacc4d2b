-- ===== src/Tests/Endpoints.antt =====
-- Endpoints at concrete inputs: runs of calls, and a record that does not fit its schema.
use new_mavlink.Common.{
  ℕ, ◌+◌, ◌<◌, ◌%◌, ◌^◌, ◌≡◌, refl, false, List, [], ◌∷◌, Option, none, some, Buffer, Zeros, length,
  length-read_bytes, arith,
}
use new_mavlink.Wire.{RecordHeader, header_bytes, tag_bytes}
use new_mavlink.Record.Types.{OpenRecord, Result, ok}
use new_mavlink.Record.Session.{new_session, seal, header_written}
use new_mavlink.Record.Session.Nonces.{Ascending}
use new_mavlink.Transport.{NativeEndpoint, new_endpoint, send, receive_uncommitted}
use new_mavlink.Transport.Sequences.{EndpointCall, Distinct, taken, given, taken-Distinct}
use new_mavlink.Transport.Numbers.{EncryptsEach, given-Ascending}
use new_mavlink.Transport.Delivery.{Carries, Leaves, on_wire, receive-send}
use new_mavlink.Programs.{loopback}
use new_mavlink.Programs.ProxyService.{ProxyService, fits_schema, turn}
use new_mavlink.Programs.ProxyService.Runs.{turn-again}
use new_mavlink.Tests.Cipher.{plain_cipher, plain_cipher-IsAead}
use new_mavlink.Tests.RecordLayer.{key_a, key_b}
use new_mavlink.Tests.Network.{one_datagram, udp, arrives}
use new_mavlink.Tests.Programs.{keys, vehicle, service, header, ready}

abbrev numbered : ℕ → RecordHeader
numbered n = record header { sequence = n }

-- The third send repeats a sequence number.
abbrev sending : List EndpointCall
sending =
    EndpointCall.sends (numbered 0) (some Zeros) 3 loopback 24660
    ∷ EndpointCall.sends (numbered 4) (some Zeros) 3 loopback 24660
    ∷ EndpointCall.sends (numbered 4) (some Zeros) 3 loopback 24660
    ∷ EndpointCall.peeks 0
    ∷ EndpointCall.sends (numbered 6) (some Zeros) 3 loopback 24660
    ∷ []

given_here : given plain_cipher one_datagram udp [] vehicle sending ≡ 0 ∷ 4 ∷ 6 ∷ []
unfolding send new_mavlink.Transport.send_sealed new_session seal
    new_mavlink.Record.Session.valid_keys new_mavlink.Record.Session.refuses_header
    new_mavlink.Crypto.aead_seal new_mavlink.Wire.known_type new_mavlink.Wire.qos_code
    new_mavlink.Transport.Udp.send_to new_mavlink.Transport.receive
    new_mavlink.Transport.commit_opened receive_uncommitted new_mavlink.Transport.open_received
    new_mavlink.Transport.Udp.receive new_mavlink.Record.Session.open_uncommitted
    new_mavlink.Record.Header.decode_header new_mavlink.Record.Header.read_header
    new_mavlink.Record.Session.mismatches new_mavlink.Crc.crc16_ccitt header_written
    new_mavlink.Record.Session.sealed_header new_mavlink.Record.Session.draft_written
    new_mavlink.Record.Session.draft_header new_mavlink.Record.Header.encode_header
    new_mavlink.Record.Header.encode_front new_mavlink.Common.put16 new_mavlink.Common.set_at
    new_mavlink.Wire.type_code new_mavlink.Wire.type_of_code new_mavlink.Wire.qos_of_code
    new_mavlink.Common.read_bytes new_mavlink.Common.write_bytes
given_here = refl

given-Ascending_example :
    EncryptsEach plain_cipher one_datagram udp [] vehicle sending
    × Ascending (given plain_cipher one_datagram udp [] vehicle sending)
given-Ascending_example = given-Ascending plain_cipher one_datagram udp [] vehicle sending

abbrev garbage : List ℕ × NativeEndpoint × Result (Unit {0})
garbage = send plain_cipher one_datagram [] vehicle header (some Zeros) 3 udp loopback 24660

garbage_sent : garbage ≡ (garbage.0, garbage.1, ok tt)
unfolding send new_mavlink.Transport.send_sealed new_session seal
    new_mavlink.Record.Session.valid_keys new_mavlink.Record.Session.refuses_header
    new_mavlink.Crypto.aead_seal new_mavlink.Wire.known_type new_mavlink.Wire.qos_code
    new_mavlink.Common.read_bytes new_mavlink.Transport.Udp.send_to
garbage_sent = refl

abbrev wire : List ℕ
wire = on_wire garbage.1 3

abbrev arrived :
    (f1 : NativeEndpoint) × (o : OpenRecord) × (receive_uncommitted plain_cipher one_datagram wire
        service.ingress udp 0
      ≡ (wire, f1, ok o))
    × (f1.session ≡ service.ingress.session)
    × Carries vehicle header Zeros 3 o
    × Leaves one_datagram [] udp loopback 24660 wire garbage.0
arrived =
    receive-send one_datagram plain_cipher plain_cipher-IsAead [] garbage.0 wire wire vehicle
      garbage.1 service.ingress header Zeros 3 udp udp loopback 24660 0 ready garbage_sent
      (arrives wire)

garbage_rejected : (o : OpenRecord) → Carries vehicle header Zeros 3 o → fits_schema o ≡ false
unfolding fits_schema new_mavlink.Programs.ProxyService.decodes
    new_mavlink.Record.Session.sealed_header new_mavlink.Record.Session.draft_header
    new_mavlink.Wire.known_type new_mavlink.Messages.State.decode_position
garbage_rejected o carries = rw (carries.header, carries.length) refl

-- A record with another sequence number.
abbrev opened_as : ℕ → OpenRecord
opened_as n = record { header = numbered n; payload = Zeros; length = 3 }

-- The datagram in flight is received twice, the second time in vain; then records are committed,
-- one of them twice.
abbrev taking : List EndpointCall
taking =
    EndpointCall.receives 0
    ∷ EndpointCall.receives 0
    ∷ EndpointCall.commits (opened_as 5)
    ∷ EndpointCall.commits (opened_as 2)
    ∷ EndpointCall.commits (opened_as 5)
    ∷ []

abbrev peer : NativeEndpoint
peer = new_endpoint (new_session (keys 3 1 key_b key_a))

taken_here : taken plain_cipher one_datagram udp wire peer taking ≡ 0 ∷ 5 ∷ 2 ∷ []
unfolding send new_mavlink.Transport.send_sealed new_session seal
    new_mavlink.Record.Session.valid_keys new_mavlink.Record.Session.refuses_header
    new_mavlink.Crypto.aead_seal new_mavlink.Wire.known_type new_mavlink.Wire.qos_code
    new_mavlink.Transport.Udp.send_to new_mavlink.Transport.receive
    new_mavlink.Transport.commit_opened receive_uncommitted new_mavlink.Transport.open_received
    new_mavlink.Transport.Udp.receive new_mavlink.Record.Session.open_uncommitted
    new_mavlink.Record.Header.decode_header new_mavlink.Record.Header.read_header
    new_mavlink.Record.Session.mismatches new_mavlink.Crc.crc16_ccitt header_written
    new_mavlink.Record.Session.sealed_header new_mavlink.Record.Session.draft_written
    new_mavlink.Record.Session.draft_header new_mavlink.Record.Header.encode_header
    new_mavlink.Record.Header.encode_front new_mavlink.Common.put16 new_mavlink.Common.set_at
    new_mavlink.Wire.type_code new_mavlink.Wire.type_of_code new_mavlink.Wire.qos_of_code
    new_mavlink.Common.read_bytes new_mavlink.Common.write_bytes new_endpoint
    new_mavlink.Record.Session.open_matching new_mavlink.Record.Replay.accepted
    new_mavlink.Crypto.aead_open new_mavlink.Record.Session.commit_replay
    new_mavlink.Record.Replay.commit
taken_here = refl

taken-Distinct_example : Distinct (taken plain_cipher one_datagram udp wire peer taking)
taken-Distinct_example =
    taken-Distinct plain_cipher one_datagram udp wire (keys 3 1 key_b key_a) taking

turn-again_example :
    (s1 s2 : ProxyService) × (turn plain_cipher one_datagram udp 24661 0 0 wire service
      ≡ (wire, s1, none))
    × (turn plain_cipher one_datagram udp 24661 0 0 wire s1 ≡ (wire, s2, none))
    × (s2.ingress.session ≡ service.ingress.session)
    × (s2.egress ≡ service.egress)
    × (s2.egress_sequence ≡ service.egress_sequence)
turn-again_example =
    turn-again one_datagram plain_cipher udp 24661 0 0 wire wire wire wire service arrived.0
      arrived.1 wire (arrives wire) (arrives wire)
      (omega (arith, length-read_bytes garbage.1.buffer 0 (header_bytes + (3 + tag_bytes))))
      arrived.2 (garbage_rejected arrived.1 arrived.4)
