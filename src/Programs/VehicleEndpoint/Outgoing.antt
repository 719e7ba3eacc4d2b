-- ===== src/Programs/VehicleEndpoint/Outgoing.antt =====
-- src/publisher.cpp, lines 13 to 21 and 53 to 122: what a publisher of the vehicle sends, and that it
-- stays one.
use new_mavlink.Common.{
  ℕ, ◌≤◌, ◌≡◌, ◌⊎◌, inl, inr, refl, Bool, true, false, Option, none, some, Buffer, Zeros,
  Bool-cases, arith,
}
use new_mavlink.Wire.{MessageType, Qos, known_type, known_flags, max_payload_bytes}
use new_mavlink.Messages.{Position, Attitude, Battery}
use new_mavlink.Messages.State.{encode_position, encode_attitude, encode_battery}
use new_mavlink.Publisher.{
  StatePublisher, PublishedMessage, update_position, update_attitude, update_battery,
}
use new_mavlink.Publisher.Poll.{
  prepare_header, published, sent_meta, build_position, build_attitude, build_battery, poll,
  poll_snapshot, poll_changes, schedule_next_snapshot,
}
use new_mavlink.Programs.{vehicle_id, proxy_id}

-- Messages from the vehicle to the proxy that a session takes.
pub record IsOutgoing (m : PublishedMessage) : Type 0 where
  pub source : m.message.header.source_id ≡ vehicle_id
  pub destination : m.message.header.destination_id ≡ proxy_id
  pub type : known_type m.message.header.type ≡ true
  pub flags : m.message.header.flags ≤ known_flags
  pub qos : m.message.header.qos ≡ Qos.state_latest
  pub fits : m.message.length ≤ max_payload_bytes

-- A publisher of the vehicle.
abbrev pub Owns : StatePublisher → Type 0
Owns p = (p.source_id ≡ vehicle_id) × (p.destination_id ≡ proxy_id)

published-IsOutgoing :
    (p : StatePublisher) (type : MessageType) (size : ℕ) (snapshot : Bool) (o : Option Buffer)
    (m : PublishedMessage)
    → Owns p
    → known_type type ≡ true
    → size ≤ max_payload_bytes
    → published p type size snapshot o ≡ some m
    → IsOutgoing m
unfolding published prepare_header
published-IsOutgoing p type size snapshot none m own known fits e = absurd (ground (arith, e))
published-IsOutgoing p type size snapshot (some bytes) m own known fits e = record {
  source = ground (arith, e, own.0);
  destination = ground (arith, e, own.1);
  type = ground (arith, e, known);
  flags = ground (arith, e);
  qos = ground (arith, e);
  fits = ground (arith, e, fits);
}

pub built-IsOutgoing :
    (p : StatePublisher)
    → Owns p
    → (snapshot : Bool) (m : PublishedMessage)
    → (build_position p snapshot ≡ some m)
      ⊎ ((build_attitude p snapshot ≡ some m) ⊎ (build_battery p snapshot ≡ some m))
    → IsOutgoing m
unfolding build_position build_attitude build_battery known_type
built-IsOutgoing p own snapshot m (inl e) = elim (Bool-cases p.state.has_position) [
  | inr missing ↦ absurd (ground (arith, e, missing))
  | inl here ↦
      let value = p.state.position in
      published-IsOutgoing p MessageType.position 28 snapshot
        (encode_position (record value { meta = sent_meta value.meta snapshot }) (some Zeros) 768) m
        own refl (omega arith) (ground (arith, e, here))
]
built-IsOutgoing p own snapshot m (inr (inl e)) = elim (Bool-cases p.state.has_attitude) [
  | inr missing ↦ absurd (ground (arith, e, missing))
  | inl here ↦
      let value = p.state.attitude in
      published-IsOutgoing p MessageType.attitude 28 snapshot
        (encode_attitude (record value { meta = sent_meta value.meta snapshot }) (some Zeros) 768) m
        own refl (omega arith) (ground (arith, e, here))
]
built-IsOutgoing p own snapshot m (inr (inr e)) = elim (Bool-cases p.state.has_battery) [
  | inr missing ↦ absurd (ground (arith, e, missing))
  | inl here ↦
      let value = p.state.battery in
      published-IsOutgoing p MessageType.battery 24 snapshot
        (encode_battery (record value { meta = sent_meta value.meta snapshot }) (some Zeros) 768) m
        own refl (omega arith) (ground (arith, e, here))
]

pub poll-Owns :
    (p : StatePublisher) (now_ms capacity : ℕ) → Owns p → Owns (poll p now_ms false capacity).0
unfolding poll poll_snapshot poll_changes schedule_next_snapshot
poll-Owns p now_ms capacity own = ground (arith, own)

pub position-Owns :
    (p : StatePublisher) (value : Position) (now_ms : ℕ)
    → Owns p
    → Owns (update_position p value now_ms).0
unfolding update_position
position-Owns p value now_ms own = ground (arith, own)

pub attitude-Owns :
    (p : StatePublisher) (value : Attitude) (now_ms : ℕ)
    → Owns p
    → Owns (update_attitude p value now_ms).0
unfolding update_attitude
attitude-Owns p value now_ms own = ground (arith, own)

pub battery-Owns :
    (p : StatePublisher) (value : Battery) (now_ms : ℕ)
    → Owns p
    → Owns (update_battery p value now_ms).0
unfolding update_battery
battery-Owns p value now_ms own = ground (arith, own)
