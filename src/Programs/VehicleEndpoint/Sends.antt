-- ===== src/Programs/VehicleEndpoint/Sends.antt =====
-- apps/vehicle_endpoint.cpp: what the vehicle sends is never refused by its own session.
use new_mavlink.Common.{
  ℕ, ◌+◌, ◌-◌, ◌^◌, ◌<◌, ◌≤◌, ◌≡◌, inl, inr, refl, sym, ap, subst, ◌∙◌, true, false, List, [], ◌∷◌,
  Option, none, some, All, Bool-cases, length, ltb, ◌&&◌, ◌==◌, u64, arith,
}
use new_mavlink.Crypto.{Ascon, Answers}
use new_mavlink.Wire.{qos_code}
use new_mavlink.Record.Types.{Result, ok, err}
use new_mavlink.Record.Session.{valid_keys, refuses_header}
use new_mavlink.Record.Session.Nonces.{Later, remembered}
use new_mavlink.Messages.{Position}
use new_mavlink.Publisher.{StatePublisher, PublishedMessage}
use new_mavlink.Publisher.Poll.{poll}
use new_mavlink.Publisher.Poll.Each.{poll-All}
use new_mavlink.Publisher.Poll.Sent.{poll-length}
use new_mavlink.Programs.VehicleEndpoint.Outgoing.{
  IsOutgoing, Owns, built-IsOutgoing, poll-Owns, position-Owns, attitude-Owns, battery-Owns,
}
use new_mavlink.Transport.Udp.{Network, UdpEndpoint}
use new_mavlink.Transport.{NativeEndpoint, send}
use new_mavlink.Transport.Accepts.{TakesAll, send_lem}
use new_mavlink.Programs.{vehicle_id, proxy_id, loopback}
use new_mavlink.Programs.VehicleEndpoint.{
  VehicleEndpoint, first_updates, later_update, out_header, send_messages, ends, turn,
  max_helpful_snapshot_messages, initial_attitude, initial_battery, moved,
}

-- A vehicle whose session takes the next record.
pub record IsReady (v : VehicleEndpoint) : Type 0 where
  pub owns : Owns v.publisher
  pub keys : valid_keys v.endpoint.session.keys ≡ true
  pub ids :
      (v.endpoint.session.keys.local_id ≡ vehicle_id) × (v.endpoint.session.keys.peer_id ≡ proxy_id)
  pub session :
      (v.endpoint.session.keys.session.value ≡ 1) × (v.endpoint.session.keys.session.epoch ≡ 1)
  pub later : Later v.endpoint.session v.sequence

with_state :
    (v : VehicleEndpoint) (p : StatePublisher) (position : Position)
    → IsReady v
    → Owns p
    → IsReady (record v { publisher = p; position = position })
with_state v p position ready own = record {
  owns = own;
  keys = ready.keys;
  ids = ready.ids;
  session = ready.session;
  later = ready.later;
}

first_updates-IsReady :
    (v : VehicleEndpoint) (now_ms : ℕ) → IsReady v → IsReady (first_updates v now_ms)
unfolding first_updates
first_updates-IsReady v now_ms ready = elim (Bool-cases (now_ms == 0)) [
  | inl now ↦ rw now (
      with_state v _ v.position ready (
        battery-Owns _ initial_battery now_ms (
          attitude-Owns _ initial_attitude now_ms
            (position-Owns v.publisher v.position now_ms ready.owns))))
  | inr other ↦ rw other ready
]

later_update-IsReady :
    (v : VehicleEndpoint) (duration_ms now_ms : ℕ)
    → IsReady v
    → IsReady (later_update v duration_ms now_ms)
unfolding later_update
later_update-IsReady v duration_ms now_ms ready =
    elim (Bool-cases (ltb 0 duration_ms && now_ms == 3000)) [
      | inl now ↦ rw now (
          with_state v _ (moved v.position) ready
            (position-Owns v.publisher (moved v.position) now_ms ready.owns))
      | inr other ↦ rw other ready
    ]

updates-IsReady :
    (v : VehicleEndpoint) (duration_ms now_ms : ℕ)
    → IsReady v
    → IsReady (later_update (first_updates v now_ms) duration_ms now_ms)
updates-IsReady v duration_ms now_ms ready =
    later_update-IsReady (first_updates v now_ms) duration_ms now_ms
      (first_updates-IsReady v now_ms ready)

out_header-admitted :
    (v : VehicleEndpoint) (m : PublishedMessage)
    → IsReady v
    → IsOutgoing m
    → v.sequence < 2 ^ 64 - 1
    → refuses_header v.endpoint.session
        (out_header v m.message)
        (some m.message.payload)
        m.message.length
      ≡ false
unfolding refuses_header out_header qos_code
out_header-admitted v m ready out small = ground (
  arith, out.source, out.destination, out.type, out.flags, out.qos, out.fits, ready.ids,
  ready.session, ready.later,
)

out_header-sequence :
    (v : VehicleEndpoint) (m : PublishedMessage) → (out_header v m.message).sequence ≡ v.sequence
unfolding out_header
out_header-sequence v m = refl

updates-sequence :
    (v : VehicleEndpoint) (duration_ms now_ms : ℕ)
    → (later_update (first_updates v now_ms) duration_ms now_ms).sequence ≡ v.sequence
unfolding first_updates later_update
updates-sequence v duration_ms now_ms = ground arith

module _ {W : Type 0} (a : Ascon) (answers : Answers a) (net : Network W) (udp : UdpEndpoint)
    (network : TakesAll net udp loopback) (peer_port duration_ms : ℕ) where
  -- What the loop over the messages leaves.
  record Sent (v v' : VehicleEndpoint) (n : ℕ) (code : Option ℕ) : Type 0 where
    no_failure : code ≡ none
    ready : IsReady v'
    counted : v'.sequence ≡ v.sequence + n

  -- From the result of `send` on.
  abbrev onward :
      VehicleEndpoint
      → List PublishedMessage
      → W × NativeEndpoint × Result (Unit {0})
      → W × VehicleEndpoint × Option ℕ
  onward v rest out =
      let v1 = record v { endpoint = out.1; sequence = u64 (v.sequence + 1) } in
      elim out.2 [
        | err error ↦ (out.0, v1, some 5)
        | ok sent ↦ send_messages a net udp peer_port out.0 v1 rest
      ]

  send_messages-next :
      (w w1 : W) (v : VehicleEndpoint) (e1 : NativeEndpoint) (m : PublishedMessage)
      (rest : List PublishedMessage)
      → send a net w v.endpoint
          (out_header v m.message)
          (some m.message.payload)
          m.message.length
          udp
          loopback
          peer_port
        ≡ (w1, e1, ok tt)
      → v.sequence < 2 ^ 64 - 1
      → send_messages a net udp peer_port w v (m ∷ rest)
        ≡ send_messages a net udp peer_port w1
            (record v { endpoint = e1; sequence = v.sequence + 1 })
            rest
  unfolding send_messages
  send_messages-next w w1 v e1 m rest sent small =
      let next : u64 (v.sequence + 1) ≡ v.sequence + 1 = omega arith in
      ap (onward v rest) sent
      ∙ ap
          (λ n.
            send_messages a net udp peer_port w1 (record v { endpoint = e1; sequence = n }) rest)
          next

  sent-IsReady :
      (v : VehicleEndpoint) (e1 : NativeEndpoint)
      → IsReady v
      → e1.session ≡ remembered v.endpoint.session v.sequence
      → IsReady (record v { endpoint = e1; sequence = v.sequence + 1 })
  sent-IsReady v e1 ready after = record {
    owns = ready.owns;
    keys = rw after ready.keys;
    ids = rw after ready.ids;
    session = rw after ready.session;
    later = rw after (ground arith);
  }

  send_messages_lem :
      (w : W) (v : VehicleEndpoint) (messages : List PublishedMessage)
      → IsReady v
      → All IsOutgoing messages
      → v.sequence + length messages < 2 ^ 64 - 1
      → Sent v
          (send_messages a net udp peer_port w v messages).1
          (length messages)
          (send_messages a net udp peer_port w v messages).2
  unfolding send_messages
  send_messages_lem w v [] ready each small = record {
    no_failure = refl;
    ready = ready;
    counted = omega arith;
  }
  send_messages_lem w v (m ∷ rest) ready each small =
      let (w1, e1, sent, after) =
        send_lem net udp _ network a answers w v.endpoint (out_header v m.message) m.message.payload
          m.message.length peer_port ready.keys
          (out_header-admitted v m ready each.0 (omega arith)) in
      let v1 = record v { endpoint = e1; sequence = v.sequence + 1 } in
      let more =
        send_messages_lem w1 v1 rest
          (sent-IsReady v e1 ready
            (after ∙ ap (remembered v.endpoint.session) (out_header-sequence v m)))
          each.1 (omega arith) in
      let step = send_messages-next w w1 v e1 m rest sent (omega arith) in
      record {
        no_failure = ap (λ (t : W × VehicleEndpoint × Option ℕ). t.2) step ∙ more.no_failure;
        ready =
            subst IsReady (sym (ap (λ (t : W × VehicleEndpoint × Option ℕ). t.1) step)) more.ready;
        counted =
            ap (λ (t : W × VehicleEndpoint × Option ℕ). t.1.sequence) step
            ∙ more.counted
            ∙ omega arith;
      }

  -- A turn sends all its messages, at most three.
  pub turn_lem :
      (now_ms : ℕ) (w : W) (v : VehicleEndpoint)
      → IsReady v
      → v.sequence + 3 < 2 ^ 64 - 1
      → ((turn a net udp peer_port duration_ms now_ms w v).2 ≡ ends duration_ms now_ms none)
        × IsReady (turn a net udp peer_port duration_ms now_ms w v).1
        × ((turn a net udp peer_port duration_ms now_ms w v).1.sequence ≤ v.sequence + 3)
  unfolding turn
  turn_lem now_ms w v ready small =
      let v1 = later_update (first_updates v now_ms) duration_ms now_ms in
      let ready1 = updates-IsReady v duration_ms now_ms ready in
      let same : v1.sequence ≡ v.sequence = updates-sequence v duration_ms now_ms in
      let out = poll v1.publisher now_ms false max_helpful_snapshot_messages in
      let few = poll-length v1.publisher now_ms false max_helpful_snapshot_messages in
      let v2 = record v1 { publisher = out.0 } in
      let ready2 =
        with_state v1 out.0 v1.position ready1
          (poll-Owns v1.publisher now_ms max_helpful_snapshot_messages ready1.owns) in
      let each =
        poll-All v1.publisher IsOutgoing now_ms false max_helpful_snapshot_messages
          (built-IsOutgoing v1.publisher ready1.owns) in
      let sent = send_messages_lem w v2 out.1 ready2 each (omega (arith, same, few)) in
      (
        ap (ends duration_ms now_ms) sent.no_failure,
        sent.ready,
        omega (arith, sent.counted, same, few),
      )
