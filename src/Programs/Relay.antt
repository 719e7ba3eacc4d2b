-- ===== src/Programs/Relay.antt =====
-- apps/: a state on its way from the vehicle over the proxy service to the ground station.
use new_mavlink.Common.{
  ℕ, ◌+◌, ◌%◌, ◌^◌, ◌≡◌, ◌≢◌, refl, sym, ap, subst, ◌∙◌, true, List, Option, some, Buffer, u64,
}
use new_mavlink.Crypto.{Ascon, IsAead}
use new_mavlink.Wire.{RecordHeader}
use new_mavlink.Record.Types.{OpenRecord, ok}
use new_mavlink.Record.Replay.{accepted}
use new_mavlink.Record.Session.{draft_header, sealed_header}
use new_mavlink.Record.Session.Open.{Deliverable}
use new_mavlink.Transport.Udp.{Network, UdpEndpoint}
use new_mavlink.Transport.{NativeEndpoint, send, receive_uncommitted}
use new_mavlink.Transport.{commit as commit_endpoint}
use new_mavlink.Transport.Delivery.{Arrives, Leaves, Carries, on_wire, receive-send}
use new_mavlink.Programs.{VehicleState, read_state, loopback}
use new_mavlink.Programs.ProxyService.{
  ProxyService, fits_schema, out_header, relayed, relay, on_record, on_received, turn,
}
use new_mavlink.Programs.ProxyService.Runs.{relayed_inv}
use new_mavlink.Programs.GcsEndpoint.{GcsEndpoint, on_state, on_committed, counted}
use new_mavlink.Programs.GcsEndpoint.{turn as gcs_turn}
use new_mavlink.Programs.GcsEndpoint.{on_received as gcs_on_received}
use new_mavlink.Programs.Schema.{read_state_ext, read_state-fits_schema, commit_admitted}

module _ {W : Type 0} (net : Network W) (a : Ascon) (udp : UdpEndpoint)
    (egress_port duration_ms elapsed : ℕ) where
  on_record-relays :
      (w : W) (s : ProxyService) (o : OpenRecord)
      → fits_schema o ≡ true
      → accepted s.ingress.session.replay o.header.sequence ≡ true
      → (s' : ProxyService) × (on_record a net udp egress_port duration_ms elapsed w s o
          ≡ relayed duration_ms elapsed s' (
              send a net w s.egress
                (out_header s o.header)
                (some o.payload)
                o.length
                udp
                loopback
                egress_port))
  unfolding on_record relay out_header
  on_record-relays w s o schema admitted = (
    record s {
      ingress = (commit_endpoint s.ingress o).0;
      egress_sequence = u64 (s.egress_sequence + 1);
      received_any = true;
    },
    rw (schema, commit_admitted s.ingress o admitted) refl,
  )

  turn-relays :
      (w w1 w2 : W) (s s1 : ProxyService) (f1 : NativeEndpoint) (o : OpenRecord) (code : Option ℕ)
      → receive_uncommitted a net w s.ingress udp (elapsed % 2 ^ 32) ≡ (w1, f1, ok o)
      → accepted f1.session.replay o.header.sequence ≡ true
      → fits_schema o ≡ true
      → turn a net udp egress_port duration_ms elapsed w s ≡ (w2, s1, code)
      → code ≢ some 5
      → send a net w1 s.egress
          (out_header s o.header)
          (some o.payload)
          o.length
          udp
          loopback
          egress_port
        ≡ (w2, s1.egress, ok tt)
  unfolding turn on_received out_header
  turn-relays w w1 w2 s s1 f1 o code came admitted schema e failed =
      let (s', onward) = on_record-relays w1 (record s { ingress = f1 }) o schema admitted in
      (relayed_inv duration_ms elapsed s' _ w2 s1 code
        (sym onward ∙ sym (ap (on_received a net udp egress_port duration_ms elapsed s) came) ∙ e)
        failed).0

module _ {W : Type 0} (net : Network W) (a : Ascon) (udp : UdpEndpoint)
    (duration_ms elapsed : ℕ) where
  -- A turn of the ground station on a record in which it reads a state.
  gcs_turn-shows :
      (w w1 : W) (g : GcsEndpoint) (f1 : NativeEndpoint) (o : OpenRecord) (value : VehicleState)
      → receive_uncommitted a net w g.endpoint udp (elapsed % 2 ^ 32) ≡ (w1, f1, ok o)
      → accepted f1.session.replay o.header.sequence ≡ true
      → read_state o.header.type (some o.payload) o.length ≡ some value
      → (g1 : GcsEndpoint) × (code : Option ℕ) × (gcs_turn a net udp duration_ms elapsed w g
          ≡ (w1, g1, code))
        × (g1.shown ≡ some value)
        × (g1.received_count ≡ u64 (g.received_count + 1))
  unfolding gcs_turn gcs_on_received on_state on_committed counted
  gcs_turn-shows w w1 g f1 o value came admitted read =
      let g1 : GcsEndpoint = record {
        endpoint = (commit_endpoint f1 o).0;
        received_count = u64 (g.received_count + 1);
        shown = some value;
      } in
      let code = (counted duration_ms elapsed g).1 in
      (
        g1,
        code,
        ap (gcs_on_received duration_ms elapsed g) came
            ∙ rw (read, commit_admitted f1 o admitted) refl,
        refl,
        refl,
      )

-- The header that the proxy makes of what it opened is ready if the one it makes of the header that
-- was given to `send` is: the level, the deadline and the sequence number are the same.
relayed_ready :
    (s : ProxyService) (e f : NativeEndpoint) (h : RecordHeader) (plain : Buffer) (size now_ms : ℕ)
    (o : OpenRecord)
    → Carries e h plain size o
    → Deliverable s.egress.session f.session (out_header s h) now_ms
    → Deliverable s.egress.session f.session (out_header s o.header) now_ms
unfolding out_header sealed_header draft_header
relayed_ready s e f h plain size now_ms o carries ready =
    subst (λ g. Deliverable s.egress.session f.session (out_header s g) now_ms) (sym carries.header)
      (record {
        mirrors = ready.mirrors;
        keys = ready.keys;
        qos = ready.qos;
        sequence = ready.sequence;
        deadline_ms = ready.deadline_ms;
        in_time = ready.in_time;
        admitted = ready.admitted;
      })

-- What was read in the payload that was sent is read in the record that was opened.
read_carried :
    (e : NativeEndpoint) (h : RecordHeader) (plain : Buffer) (size : ℕ) (o : OpenRecord)
    (value : VehicleState)
    → Carries e h plain size o
    → read_state h.type (some plain) size ≡ some value
    → read_state o.header.type (some o.payload) o.length ≡ some value
unfolding sealed_header draft_header
read_carried e h plain size o value carries read =
    rw (carries.length, carries.header)
      (read_state_ext h.type o.payload plain size carries.payload ∙ read)

accepted_carried :
    (e f f1 : NativeEndpoint) (h : RecordHeader) (plain : Buffer) (size now_ms : ℕ) (o : OpenRecord)
    → Carries e h plain size o
    → Deliverable e.session f.session h now_ms
    → f1.session ≡ f.session
    → accepted f1.session.replay o.header.sequence ≡ true
unfolding sealed_header draft_header
accepted_carried e f f1 h plain size now_ms o carries ready same =
    rw (carries.header, same) ready.admitted

read_out :
    (s : ProxyService) (o : OpenRecord) (value : VehicleState)
    → read_state o.header.type (some o.payload) o.length ≡ some value
    → read_state (out_header s o.header).type (some o.payload) o.length ≡ some value
unfolding out_header
read_out s o value e = e

module _ {W : Type 0} (net : Network W) (a : Ascon) (aead : IsAead a) where
  -- If the vehicle's endpoint sent a payload in which a state can be read, the proxy's next turn
  -- is given the datagram and does not end with the exit code of a failed send, and the ground
  -- station's next turn is given the datagram that the proxy sent, then the ground station shows
  -- that state and counts it, and the two datagrams are what the two senders handed to the
  -- socket, which took them in full, to the given host and port and to the loopback address and
  -- the egress port. The keys of each link mirror each other, the numbers have their widths, the
  -- windows admit the sequence numbers, the deadline has not passed at either receiver, and the
  -- cipher satisfies the laws of an AEAD.
  pub relays_state :
      (w w1 w2 w3 w4 w5 w6 : W) (e e1 : NativeEndpoint) (s s1 : ProxyService) (g : GcsEndpoint)
      (h : RecordHeader) (plain : Buffer) (size : ℕ) (value : VehicleState)
      (vehicle_udp proxy_udp gcs_udp : UdpEndpoint) (host : Option (List ℕ))
      (port egress_port duration_ms elapsed gcs_duration_ms gcs_elapsed : ℕ) (code : Option ℕ)
      → Deliverable e.session s.ingress.session h (elapsed % 2 ^ 32)
      → Deliverable s.egress.session g.endpoint.session (out_header s h) (gcs_elapsed % 2 ^ 32)
      → read_state h.type (some plain) size ≡ some value
      → send a net w e h (some plain) size vehicle_udp host port ≡ (w1, e1, ok tt)
      → Arrives net w2 proxy_udp (on_wire e1 size) w3
      → turn a net proxy_udp egress_port duration_ms elapsed w2 s ≡ (w4, s1, code)
      → code ≢ some 5
      → Arrives net w5 gcs_udp (on_wire s1.egress size) w6
      → (g1 : GcsEndpoint) × (gcs_code : Option ℕ) × (gcs_turn a net gcs_udp gcs_duration_ms
            gcs_elapsed w5 g
          ≡ (w6, g1, gcs_code))
        × (g1.shown ≡ some value)
        × (g1.received_count ≡ u64 (g.received_count + 1))
        × Leaves net w vehicle_udp host port (on_wire e1 size) w1
        × Leaves net w3 proxy_udp loopback egress_port (on_wire s1.egress size) w4
  relays_state w w1 w2 w3 w4 w5 w6 e e1 s s1 g h plain size value vehicle_udp proxy_udp gcs_udp host
        port egress_port duration_ms elapsed gcs_duration_ms gcs_elapsed code ready onward_ready
        read sent arrives turned fine arrives_gcs =
      let (f1, o, came, same, carries, left) =
        receive-send net a aead w w1 w2 w3 e e1 s.ingress h plain size vehicle_udp proxy_udp host
          port (elapsed % 2 ^ 32) ready sent arrives in
      let read_o = read_carried e h plain size o value carries read in
      let passed =
        turn-relays net a proxy_udp egress_port duration_ms elapsed w2 w3 w4 s s1 f1 o code came
          (accepted_carried e s.ingress f1 h plain size (elapsed % 2 ^ 32) o carries ready same)
          (read_state-fits_schema o value read_o) turned fine in
      let ready_o =
        relayed_ready s e g.endpoint h plain size (gcs_elapsed % 2 ^ 32) o carries onward_ready in
      let (f2, p, came_gcs, same_gcs, carries_gcs, onward) =
        receive-send net a aead w3 w4 w5 w6 s.egress s1.egress g.endpoint (out_header s o.header)
          o.payload o.length proxy_udp gcs_udp loopback egress_port (gcs_elapsed % 2 ^ 32) ready_o
          passed
          (subst (λ n. Arrives net w5 gcs_udp (on_wire s1.egress n) w6) (sym carries.length)
            arrives_gcs) in
      let (g1, gcs_code, shows, shown, count) =
        gcs_turn-shows net a gcs_udp gcs_duration_ms gcs_elapsed w5 w6 g f2 p value came_gcs
          (accepted_carried s.egress g.endpoint f2 (out_header s o.header) o.payload o.length
            (gcs_elapsed % 2 ^ 32) p carries_gcs ready_o same_gcs)
          (read_carried s.egress (out_header s o.header) o.payload o.length p value carries_gcs
            (read_out s o value read_o)) in
      (
        g1,
        gcs_code,
        shows,
        shown,
        count,
        left,
        subst (λ n. Leaves net w3 proxy_udp loopback egress_port (on_wire s1.egress n) w4)
            carries.length onward,
      )
