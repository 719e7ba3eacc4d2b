-- ===== src/Tests/Proxies.antt =====
-- The proxy at concrete inputs: two links, the second subscribed to positions of vehicle 1.
use new_mavlink.Common.{
  ℕ, ◌^◌, ◌+◌, ◌<◌, ◌≤◌, ◌≡◌, ◌≢◌, ◌⊎◌, inl, inr, refl, Bool, true, false, List, [], ◌∷◌, ◌++◌,
  Option, none, some, Zeros, Buffer, set_at, arith, lookup, Steps, length, if◌then◌else◌, ltb,
}
use new_mavlink.Common.{next as step}
use new_mavlink.Wire.{MessageType, Qos, RecordHeader, default_header, type_code, state_type}
use new_mavlink.Messages.{NativeMessage, StateMeta, Subscription, ResyncRequest}
use new_mavlink.Record.Types.{OpenRecord}
use new_mavlink.Qos.{stream_key, new_queue, push}
use new_mavlink.Proxy.{NativeProxy, LinkState, new_proxy, subscribe}
use new_mavlink.Proxy.Ingest.{
  ingest, wants, message_of, meta_of, admits_record, bad_position, verdict, Verdict,
}
use new_mavlink.Proxy.Routing.{ingest-isolated, ingest-delivers}
use new_mavlink.Proxy.Cache.{Keeps, ingest-Keeps, ingest-gap}
use new_mavlink.Tests.RecordLayer.{sender}

-- The payload of an update: its metadata and zeros behind it.
abbrev update : ℕ → ℕ → ℕ → Buffer
update generation base snapshot =
    set_at (set_at (set_at (set_at (set_at Zeros 0 7) 4 generation) 8 base) 12 2) 14 snapshot

abbrev attitude : ℕ → ℕ → ℕ → OpenRecord
attitude generation base snapshot = record {
  header = record default_header {
    type = MessageType.attitude;
    qos = Qos.state_latest;
    source_id = 2;
    destination_id = 1;
  };
  payload = update generation base snapshot;
  length = 28;
}

abbrev first_link : LinkState
first_link = record { session = some sender; queue = new_queue 4; subscriptions = [] }

abbrev second_link : LinkState
second_link = record {
  session = some sender;
  queue = new_queue 4;
  subscriptions =
      (
        type_code MessageType.attitude,
        record {
          type = MessageType.attitude;
          qos = Qos.state_latest;
          source_id = 2;
          interval_ms = 0;
          flags = 0;
        },
      )
      ∷ [];
}

-- Link 1 has cached generation 3 of the stream.
abbrev proxy : NativeProxy
proxy = record (new_proxy 4) {
  links = (1, first_link) ∷ (2, second_link) ∷ [];
  cache = (stream_key (message_of (attitude 3 0 1)), message_of (attitude 3 0 1)) ∷ [];
}

ingest-isolated_example : lookup (ingest proxy 1 (attitude 4 3 0) 0).0.links 1 ≡ some first_link
unfolding new_proxy
ingest-isolated_example = ingest-isolated proxy 1 (attitude 4 3 0) 0 1 first_link refl (inl refl)

admitted : admits_record proxy 1 (attitude 4 3 0) ≡ true
unfolding new_proxy admits_record new_mavlink.Proxy.Ingest.from_peer new_mavlink.Wire.known_type
admitted = refl

not_position : bad_position (message_of (attitude 4 3 0)) ≡ false
unfolding bad_position message_of type_code
not_position = refl

metas :
    (meta_of (message_of (attitude 3 0 1))
      ≡ some (record {
        resource_id = 7;
        generation = 3;
        base_generation = 0;
        source_id = 2;
        snapshot = 1;
        reserved = 0;
      }))
    × (meta_of (message_of (attitude 4 3 0))
        ≡ some (record {
          resource_id = 7;
          generation = 4;
          base_generation = 3;
          source_id = 2;
          snapshot = 0;
          reserved = 0;
        }))
    × (meta_of (message_of (attitude 9 8 0))
        ≡ some (record {
          resource_id = 7;
          generation = 9;
          base_generation = 8;
          source_id = 2;
          snapshot = 0;
          reserved = 0;
        }))
unfolding meta_of message_of new_mavlink.Messages.State.decode_state_meta
    new_mavlink.Messages.State.read_state_meta new_mavlink.Messages.State.valid_state_meta
    new_mavlink.Common.get32 new_mavlink.Common.get16 new_mavlink.Common.get_loop
    new_mavlink.Common.read_bytes new_mavlink.Common.write_bytes set_at
metas = (refl, refl, refl)

found :
    (lookup proxy.cache (stream_key (message_of (attitude 4 3 0)))
      ≡ some (message_of (attitude 3 0 1)))
    × (lookup proxy.cache (stream_key (message_of (attitude 9 8 0)))
        ≡ some (message_of (attitude 3 0 1)))
unfolding new_mavlink.Qos.stream_key new_mavlink.Qos.stream new_mavlink.Qos.stream_of type_code
    meta_of message_of new_mavlink.Messages.State.decode_state_meta
    new_mavlink.Messages.State.read_state_meta new_mavlink.Messages.State.valid_state_meta
    new_mavlink.Common.get32 new_mavlink.Common.get16 new_mavlink.Common.get_loop
    new_mavlink.Common.read_bytes new_mavlink.Common.write_bytes set_at
found = (refl, refl)

is_state_type : state_type MessageType.attitude ≡ true
unfolding state_type
is_state_type = refl

taken : verdict proxy (message_of (attitude 4 3 0)) ≡ Verdict.take
unfolding new_mavlink.Qos.stream_key new_mavlink.Qos.stream new_mavlink.Qos.stream_of type_code
    meta_of message_of new_mavlink.Messages.State.decode_state_meta
    new_mavlink.Messages.State.read_state_meta new_mavlink.Messages.State.valid_state_meta
    new_mavlink.Common.get32 new_mavlink.Common.get16 new_mavlink.Common.get_loop
    new_mavlink.Common.read_bytes new_mavlink.Common.write_bytes set_at verdict
    new_mavlink.Proxy.Ingest.judge new_mavlink.Proxy.Ingest.judge_metas
    new_mavlink.Proxy.Ingest.compare_generations bad_position
taken = refl

wanted :
    wants
      (lookup second_link.subscriptions (type_code MessageType.attitude))
      (message_of (attitude 4 3 0))
    ≡ true
unfolding wants message_of type_code
wanted = refl

ingest-delivers_example :
    ((ingest proxy 1 (attitude 4 3 0) 0).1 ≡ true)
    × (lookup (ingest proxy 1 (attitude 4 3 0) 0).0.links 2
        ≡ some (record second_link {
          queue =
              (push second_link.queue
                (record (message_of (attitude 4 3 0)) {
                  header = record (attitude 4 3 0).header { destination_id = 2 };
                })
                0).0;
        }))
ingest-delivers_example =
    ingest-delivers proxy 1 (attitude 4 3 0) 0 2 second_link (admitted, not_position, inr taken)
      refl (omega arith) wanted

ingest-Keeps_example :
    Keeps proxy
      (stream_key (message_of (attitude 4 3 0)))
      (message_of (attitude 3 0 1))
      (ingest proxy 1 (attitude 4 3 0) 0).0
ingest-Keeps_example =
    ingest-Keeps proxy 1 (attitude 4 3 0) 0 (stream_key (message_of (attitude 4 3 0)))
      (message_of (attitude 3 0 1)) found.0

admitted_late : admits_record proxy 1 (attitude 9 8 0) ≡ true
unfolding new_proxy admits_record new_mavlink.Proxy.Ingest.from_peer new_mavlink.Wire.known_type
admitted_late = refl

not_position_late : bad_position (message_of (attitude 9 8 0)) ≡ false
unfolding bad_position message_of type_code
not_position_late = refl

-- Generation 9 builds on 8, which the proxy has not seen.
ingest-gap_example :
    ((ingest proxy 1 (attitude 9 8 0) 0).1 ≡ false)
    × ((ingest proxy 1 (attitude 9 8 0) 0).0.cache ≡ proxy.cache)
    × ((ingest proxy 1 (attitude 9 8 0) 0).0.links ≡ proxy.links)
    × ((ingest proxy 1 (attitude 9 8 0) 0).0.resync ≡ (
        if ltb (length proxy.resync) proxy.queue_capacity
        then proxy.resync
          ++ (record { type = MessageType.attitude; source_id = 2; resource_id = 7 } ∷ [])
        else proxy.resync))
ingest-gap_example =
    ingest-gap proxy 1 (attitude 9 8 0) 0 (message_of (attitude 3 0 1))
      (record {
        resource_id = 7;
        generation = 3;
        base_generation = 0;
        source_id = 2;
        snapshot = 1;
        reserved = 0;
      })
      (record {
        resource_id = 7;
        generation = 9;
        base_generation = 8;
        source_id = 2;
        snapshot = 0;
        reserved = 0;
      })
      admitted_late not_position_late is_state_type found.1 metas.0 metas.2 refl (omega arith)
