-- ===== src/Qos/Invariant.antt =====
-- src/qos.cpp: what holds of a queue after every operation.
use new_mavlink.Common.{
  ◌||◌, ℕ, ◌≤◌, ◌<◌, ◌≡◌, inl, inr, refl, ap, ◌∙◌, Bool, true, false, List, [], ◌∷◌, Option, none,
  some, Bool-cases, length, length-append, leb, ltb, ◌==◌, lookup, store, Distinct, store-Distinct,
  lookup-store, lookup-store_other, length-store_new, length-store_old, arith,
}
use new_mavlink.Wire.{max_payload_bytes}
use new_mavlink.Messages.{NativeMessage}
use new_mavlink.Qos.{
  BoundedQosQueue, new_queue, size, expired, is_state, stream_key, count_expired, count_dropped,
  count_enqueued, count_rejected, evict_from, evict, emplace, push_state, push_back, push_full,
  push,
}

-- Within capacity, and one message per stream, under the key of its stream.
pub record IsValid (q : BoundedQosQueue) : Type 0 where
  pub bounded : size q ≤ q.capacity
  pub distinct : Distinct q.state
  pub keyed : (k : ℕ) (m : NativeMessage) → lookup q.state k ≡ some m → k ≡ stream_key m

pub new_queue-IsValid : (capacity : ℕ) → IsValid (new_queue capacity)
unfolding new_queue
new_queue-IsValid capacity = record { bounded = omega arith; distinct = tt; keyed = λ k m e. cc }

store_keyed :
    (st : List (ℕ × NativeMessage)) (m : NativeMessage)
    → ((k : ℕ) (n : NativeMessage) → lookup st k ≡ some n → k ≡ stream_key n)
    → (k : ℕ) (n : NativeMessage) → lookup (store st (stream_key m) m) k ≡ some n
    → k ≡ stream_key n
store_keyed st m h k n e = elim (Bool-cases (k == stream_key m)) [
  | inl same ↦
      let same : k ≡ stream_key m = ground arith in
      ground (arith, same, e, lookup-store st (stream_key m) m)
  | inr other ↦ ground (arith, e, lookup-store_other st (stream_key m) k m, h k n)
]

evict_from-IsValid :
    (q : BoundedQosQueue) (es : List NativeMessage)
    → IsValid (record q { events = es })
    → IsValid (evict_from q es)
unfolding evict_from count_dropped
evict_from-IsValid q [] v = v
evict_from-IsValid q (e ∷ es) v =
    let shorter : IsValid (record (count_dropped q) { events = es }) = record {
      bounded = omega (arith, v.bounded);
      distinct = v.distinct;
      keyed = v.keyed;
    } in
    let rest = evict_from-IsValid (count_dropped q) es shorter in
    elim (Bool-cases (leb q.capacity (size (record q { events = e ∷ es })))) [
      | inl full ↦ rw full rest
      | inr room ↦ rw room v
    ]

emplace-IsValid :
    (q : BoundedQosQueue) (m : NativeMessage)
    → IsValid q
    → lookup q.state (stream_key m) ≡ none
    → IsValid (emplace q (stream_key m) m).0
unfolding emplace count_dropped count_enqueued
emplace-IsValid q m v missing = elim (Bool-cases (leb q.capacity (size q))) [
  | inl full ↦ rw full (record { bounded = v.bounded; distinct = v.distinct; keyed = v.keyed })
  | inr room ↦ rw room (record {
    bounded = ground (arith, length-store_new q.state (stream_key m) m missing);
    distinct = store-Distinct q.state (stream_key m) m v.distinct;
    keyed = store_keyed q.state m v.keyed;
  })
]

pub evict_from-state :
    (q : BoundedQosQueue) (es : List NativeMessage)
    → ((evict_from q es).state ≡ q.state)
      × ((evict_from q es).critical ≡ q.critical)
      × ((evict_from q es).capacity ≡ q.capacity)
unfolding evict_from count_dropped
evict_from-state q [] = (refl, refl, refl)
evict_from-state q (e ∷ es) =
    elim (Bool-cases (leb q.capacity (size (record q { events = e ∷ es })))) [
      | inl full ↦ rw full (evict_from-state (count_dropped q) es)
      | inr room ↦ rw room (refl, refl, refl)
    ]

push_state-IsValid :
    (q : BoundedQosQueue) (m : NativeMessage) (found : Option NativeMessage)
    → IsValid q
    → lookup q.state (stream_key m) ≡ found
    → IsValid (push_state q (stream_key m) m found).0
unfolding push_state count_dropped count_enqueued evict
push_state-IsValid q m (some old) v e = record {
  bounded = omega (arith, v.bounded, length-store_old q.state (stream_key m) m old e);
  distinct = store-Distinct q.state (stream_key m) m v.distinct;
  keyed = store_keyed q.state m v.keyed;
}
push_state-IsValid q m none v e =
    emplace-IsValid (evict_from q q.events) m (evict_from-IsValid q q.events v) (
      ap (λ (st : List (ℕ × NativeMessage)). lookup st (stream_key m))
        (evict_from-state q q.events).0
      ∙ e)

push_back-IsValid :
    (q : BoundedQosQueue) (critical : Bool) (m : NativeMessage)
    → IsValid q
    → size q < q.capacity
    → IsValid (push_back q critical m).0
unfolding push_back count_enqueued
push_back-IsValid q true m v lt = record {
  bounded = omega (arith, lt, length-append q.critical (m ∷ []));
  distinct = v.distinct;
  keyed = v.keyed;
}
push_back-IsValid q false m v lt = record {
  bounded = omega (arith, lt, length-append q.events (m ∷ []));
  distinct = v.distinct;
  keyed = v.keyed;
}

push_full-IsValid :
    (q : BoundedQosQueue) (critical : Bool) (m : NativeMessage) (events : List NativeMessage)
    → IsValid q
    → q.events ≡ events
    → IsValid (push_full q critical m events).0
unfolding push_full count_dropped count_rejected
push_full-IsValid q true m events v e = record {
  bounded = v.bounded;
  distinct = v.distinct;
  keyed = v.keyed;
}
push_full-IsValid q false m [] v e = record {
  bounded = v.bounded;
  distinct = v.distinct;
  keyed = v.keyed;
}
push_full-IsValid q false m (x ∷ xs) v e =
    let less = ap length e in
    push_back-IsValid _ false m
      (record { bounded = omega (arith, v.bounded, less); distinct = v.distinct; keyed = v.keyed })
      (omega (arith, v.bounded, less))

-- Whatever the message, `push` keeps a queue valid: no more messages than its capacity, and at most
-- one latest value per stream, stored under the key of its own stream.
pub push-IsValid :
    (q : BoundedQosQueue) (m : NativeMessage) (now_ms : ℕ) → IsValid q → IsValid (push q m now_ms).0
unfolding push count_expired
push-IsValid q m now_ms v =
    elim (Bool-cases (q.capacity == 0 || ltb max_payload_bytes m.length || expired m now_ms)) [
      | inl refused ↦
          rw refused (record { bounded = v.bounded; distinct = v.distinct; keyed = v.keyed })
      | inr passed ↦ elim (Bool-cases (is_state m)) [
        | inl st ↦ rw (passed, st) (push_state-IsValid q m _ v refl)
        | inr other ↦ elim (Bool-cases (leb q.capacity (size q))) [
          | inl full ↦ rw (passed, other, full) (push_full-IsValid q _ m q.events v refl)
          | inr room ↦ rw (passed, other, room) (push_back-IsValid q _ m v (ground arith))
        ]
      ]
    ]
