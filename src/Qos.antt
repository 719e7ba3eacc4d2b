-- ===== src/Qos.antt =====
-- include/new_mavlink/qos.hpp and src/qos.cpp: a bounded queue with a latest value per stream.
pub mod Order
pub mod Invariant
pub mod Push
pub mod Pop
use new_mavlink.Common.{
  ℕ, zero, suc, ◌+◌, ◌*◌, ◌^◌, bit_or, Bool, true, false, not, ◌&&◌, ◌||◌, List, [], ◌∷◌, ◌++◌,
  Option, none, some, length, incr64, leb, ltb, ◌==◌, ◌!=◌, if◌then◌else◌, lookup, store, erase,
  least,
}
use new_mavlink.Wire.{Qos, qos_code, type_code, state_type, max_payload_bytes}
use new_mavlink.Messages.{NativeMessage, StateMeta}
use new_mavlink.Messages.State.{decode_state_meta}

pub record QueueMetrics : Type 0 where
  pub enqueued : ℕ
  pub delivered : ℕ
  pub dropped_latest : ℕ
  pub rejected_critical : ℕ
  pub expired : ℕ

-- `state` is the hash map: what the code does with it does not depend on the order of its entries.
pub record BoundedQosQueue : Type 0 where
  pub capacity : ℕ
  pub critical : List NativeMessage
  pub events : List NativeMessage
  pub state : List (ℕ × NativeMessage)
  pub metrics : QueueMetrics

-- `BoundedQosQueue(capacity)`
unfoldable pub new_queue : ℕ → BoundedQosQueue
new_queue capacity = record {
  capacity = capacity;
  critical = [];
  events = [];
  state = [];
  metrics = record {
    enqueued = 0;
    delivered = 0;
    dropped_latest = 0;
    rejected_critical = 0;
    expired = 0;
  };
}

abbrev pub size : BoundedQosQueue → ℕ
size q = length q.critical + length q.state + length q.events

unfoldable pub expired : NativeMessage → ℕ → Bool
expired message now_ms = message.header.deadline_ms != 0 && ltb message.header.deadline_ms now_ms

unfoldable pub is_state : NativeMessage → Bool
is_state message =
    state_type message.header.type && qos_code message.header.qos == qos_code Qos.state_latest

-- What the two streams of `stream_key` are told apart by: the metadata of the payload where it has any.
unfoldable pub stream_of : ℕ → Option StateMeta → ℕ × ℕ
stream_of source none = (source, 0)
stream_of source (some meta) = (meta.source_id, meta.resource_id)

unfoldable pub stream : NativeMessage → ℕ × ℕ
stream message =
    stream_of message.header.source_id
      (if leb 16 message.length then decode_state_meta (some message.payload) 16 else none)

unfoldable pub stream_key : NativeMessage → ℕ
stream_key message =
    let (source, resource) = stream message in
    bit_or (bit_or (type_code message.header.type * 2 ^ 56) (source * 2 ^ 32)) resource

unfoldable pub is_critical : Qos → Bool
is_critical qos =
    qos_code qos == qos_code Qos.critical_reliable || qos_code qos == qos_code Qos.command_reliable

-- `++metrics_.expired`, and so on.
unfoldable pub count_expired : BoundedQosQueue → BoundedQosQueue
count_expired q = record q { metrics = record q.metrics { expired = incr64 q.metrics.expired } }

unfoldable pub count_dropped : BoundedQosQueue → BoundedQosQueue
count_dropped q = record q {
  metrics = record q.metrics { dropped_latest = incr64 q.metrics.dropped_latest };
}

unfoldable pub count_enqueued : BoundedQosQueue → BoundedQosQueue
count_enqueued q = record q { metrics = record q.metrics { enqueued = incr64 q.metrics.enqueued } }

unfoldable pub count_rejected : BoundedQosQueue → BoundedQosQueue
count_rejected q = record q {
  metrics = record q.metrics { rejected_critical = incr64 q.metrics.rejected_critical };
}

unfoldable pub count_delivered : BoundedQosQueue → BoundedQosQueue
count_delivered q = record q {
  metrics = record q.metrics { delivered = incr64 q.metrics.delivered };
}

-- `while (size() >= capacity_)` of `push`: `es` are the events left.
unfoldable pub evict_from : BoundedQosQueue → List NativeMessage → BoundedQosQueue
unfolding count_dropped
evict_from q [] = record q { events = [] }
evict_from q (e ∷ es) =
    let rest = evict_from (count_dropped q) es in
    let this = record q { events = e ∷ es } in if leb q.capacity (size this) then rest else this

unfoldable pub evict : BoundedQosQueue → BoundedQosQueue
evict q = evict_from q q.events

-- `state_.emplace(key, message)` after the loop.
unfoldable pub emplace : BoundedQosQueue → ℕ → NativeMessage → BoundedQosQueue × Bool
emplace q key message =
    if leb q.capacity (size q)
    then (count_dropped q, false)
    else (count_enqueued (record q { state = store q.state key message }), true)

unfoldable pub push_state :
    BoundedQosQueue → ℕ → NativeMessage → Option NativeMessage → BoundedQosQueue × Bool
push_state q key message (some old) =
    (count_enqueued (count_dropped (record q { state = store q.state key message })), true)
push_state q key message none = emplace (evict q) key message

unfoldable pub push_back : BoundedQosQueue → Bool → NativeMessage → BoundedQosQueue × Bool
push_back q true message =
    (count_enqueued (record q { critical = q.critical ++ (message ∷ []) }), true)
push_back q false message =
    (count_enqueued (record q { events = q.events ++ (message ∷ []) }), true)

-- A full queue makes room for an event by dropping the oldest.
unfoldable pub push_full :
    BoundedQosQueue → Bool → NativeMessage → List NativeMessage → BoundedQosQueue × Bool
push_full q true message events = (count_rejected q, false)
push_full q false message [] = (count_dropped q, false)
push_full q false message (e ∷ es) =
    push_back (count_dropped (record q { events = es })) false message

unfoldable pub push : BoundedQosQueue → NativeMessage → ℕ → BoundedQosQueue × Bool
push q message now_ms =
    if q.capacity == 0 || ltb max_payload_bytes message.length || expired message now_ms
    then (count_expired q, false)
    else if is_state message
    then push_state q (stream_key message) message (lookup q.state (stream_key message))
    else let critical = is_critical message.header.qos in
      if leb q.capacity (size q)
      then push_full q critical message q.events
      else push_back q critical message

-- One turn of the loop of `pop`: the message taken, and the queue without it.
unfoldable pub take_front :
    BoundedQosQueue
    → List NativeMessage
    → List NativeMessage
    → List (ℕ × NativeMessage)
    → Option (NativeMessage × BoundedQosQueue)
take_front q (m ∷ ms) events state = some (m, record q { critical = ms })
take_front q [] (m ∷ ms) state = some (m, record q { events = ms })
take_front q [] [] (e ∷ es) =
    let it = least e es in some (it.1, record q { state = erase (e ∷ es) it.0 })
take_front q [] [] [] = none

-- The loop of `pop`, `fuel` turns of it.
unfoldable pub pop_loop : ℕ → BoundedQosQueue → ℕ → BoundedQosQueue × Option NativeMessage
pop_loop zero q now_ms = (q, none)
pop_loop (suc fuel) q now_ms = elim (take_front q q.critical q.events q.state) [
  | none ↦ (q, none)
  | some (message, rest) ↦
      if expired message now_ms
      then pop_loop fuel (count_expired rest) now_ms
      else (count_delivered rest, some message)
]

-- Every turn takes a message or ends, so one turn more than there are messages is enough.
unfoldable pub pop : BoundedQosQueue → ℕ → BoundedQosQueue × Option NativeMessage
pop q now_ms = pop_loop (size q + 1) q now_ms

unfoldable pub clear : BoundedQosQueue → BoundedQosQueue
clear q = record q { critical = []; events = []; state = [] }
