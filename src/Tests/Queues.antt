-- ===== src/Tests/Queues.antt =====
-- The queue at concrete inputs.
use new_mavlink.Common.{
  ℕ, ◌<◌, ◌≡◌, ◌≢◌, ◌↔◌, refl, true, false, [], ◌∷◌, ◌++◌, some, arith, lookup, if◌then◌else◌, ltb,
}
use new_mavlink.Wire.{MessageType, Qos, RecordHeader, default_header}
use new_mavlink.Messages.{NativeMessage, default_message}
use new_mavlink.Qos.{
  BoundedQosQueue, new_queue, size, expired, is_state, is_critical, stream_key, push, pop,
}
use new_mavlink.Qos.Invariant.{IsValid, new_queue-IsValid, push-IsValid}
use new_mavlink.Qos.Order.{sorted, pop-sorted}
use new_mavlink.Qos.Push.{Keeps, push-Keeps, push-critical, push-latest}
use new_mavlink.Qos.Pop.{Pops, pop_lem}

abbrev message : MessageType → Qos → ℕ → NativeMessage
message type qos deadline_ms = record default_message {
  header = record default_header {
    type = type;
    qos = qos;
    source_id = 3;
    deadline_ms = deadline_ms;
  };
}

abbrev alarm : NativeMessage
alarm = message MessageType.safety_event Qos.critical_reliable 0

abbrev fix : NativeMessage
fix = message MessageType.position Qos.state_latest 0

abbrev late : NativeMessage
late = message MessageType.heartbeat Qos.liveness 4

abbrev queue : BoundedQosQueue
queue = (push (push (new_queue 2) fix 0).0 late 0).0

queue-IsValid : IsValid queue
queue-IsValid =
    push-IsValid (push (new_queue 2) fix 0).0 late 0
      (push-IsValid (new_queue 2) fix 0 (new_queue-IsValid 2))

push-IsValid_example : IsValid (push queue alarm 0).0
push-IsValid_example = push-IsValid queue alarm 0 queue-IsValid

pop_lem_example : Pops queue 9 (pop queue 9)
pop_lem_example = pop_lem queue 9 queue-IsValid

-- The event that has expired is skipped.
pop_here : (pop queue 9).1 ≡ some fix
unfolding pop new_mavlink.Qos.pop_loop new_mavlink.Qos.take_front new_mavlink.Qos.count_expired
    new_mavlink.Qos.count_delivered new_mavlink.Qos.count_enqueued new_mavlink.Qos.push_state
    new_mavlink.Qos.push_back new_mavlink.Qos.evict new_mavlink.Qos.evict_from
    new_mavlink.Qos.emplace new_queue push expired is_state is_critical stream_key
    new_mavlink.Qos.stream new_mavlink.Qos.stream_of new_mavlink.Wire.type_code
    new_mavlink.Wire.qos_code new_mavlink.Wire.state_type
pop_here = refl

push-Keeps_example : Keeps queue alarm (push queue alarm 0)
push-Keeps_example = push-Keeps queue alarm 0

alarm_kind :
    (is_state alarm ≡ false)
    × (is_critical Qos.critical_reliable ≡ true)
    × (expired alarm 0 ≡ false)
unfolding is_state is_critical expired new_mavlink.Wire.qos_code new_mavlink.Wire.state_type
alarm_kind = (refl, refl, refl)

push-critical_example :
    (((push (new_queue 2) alarm 0).1 ≡ true) ↔ (size (new_queue 2) < (new_queue 2).capacity))
    × ((push (new_queue 2) alarm 0).0.events ≡ (new_queue 2).events)
    × ((push (new_queue 2) alarm 0).0.state ≡ (new_queue 2).state)
    × ((push (new_queue 2) alarm 0).0.critical ≡ (
        if ltb (size (new_queue 2)) (new_queue 2).capacity
        then (new_queue 2).critical ++ (alarm ∷ [])
        else (new_queue 2).critical))
unfolding new_queue
push-critical_example =
    push-critical (new_queue 2) alarm 0 (omega arith, omega arith, alarm_kind.2) alarm_kind.0
      alarm_kind.1

fix_kind : (is_state fix ≡ true) × ((push (new_queue 2) fix 0).1 ≡ true)
unfolding new_mavlink.Qos.count_enqueued new_mavlink.Qos.push_state new_mavlink.Qos.push_back
    new_mavlink.Qos.evict new_mavlink.Qos.evict_from new_mavlink.Qos.emplace new_queue push expired
    is_state is_critical stream_key new_mavlink.Qos.stream new_mavlink.Qos.stream_of
    new_mavlink.Wire.type_code new_mavlink.Wire.qos_code new_mavlink.Wire.state_type
fix_kind = (refl, refl)

-- The key of another stream.
key_differs : 0 ≢ stream_key fix
unfolding stream_key new_mavlink.Qos.stream new_mavlink.Qos.stream_of new_mavlink.Wire.type_code
key_differs = omega arith

latest_stored :
    (lookup (push (new_queue 2) fix 0).0.state (stream_key fix) ≡ some fix)
    × (lookup (push (new_queue 2) fix 0).0.state 0 ≡ lookup (new_queue 2).state 0)
latest_stored = push-latest (new_queue 2) fix 0 0 fix_kind.0 fix_kind.1 key_differs

abbrev charge : NativeMessage
charge = message MessageType.battery Qos.state_latest 0

-- The same two latest values, stored in either order.
abbrev one_way : BoundedQosQueue
one_way = (push (push (new_queue 2) fix 0).0 charge 0).0

abbrev other_way : BoundedQosQueue
other_way = (push (push (new_queue 2) charge 0).0 fix 0).0

one_way-IsValid : IsValid one_way
one_way-IsValid =
    push-IsValid (push (new_queue 2) fix 0).0 charge 0
      (push-IsValid (new_queue 2) fix 0 (new_queue-IsValid 2))

other_way-IsValid : IsValid other_way
other_way-IsValid =
    push-IsValid (push (new_queue 2) charge 0).0 fix 0
      (push-IsValid (new_queue 2) charge 0 (new_queue-IsValid 2))

same_sorted : sorted one_way ≡ sorted other_way
unfolding new_mavlink.Qos.count_enqueued new_mavlink.Qos.push_state new_mavlink.Qos.evict
    new_mavlink.Qos.evict_from new_mavlink.Qos.emplace new_queue push expired is_state is_critical
    stream_key new_mavlink.Qos.stream new_mavlink.Qos.stream_of new_mavlink.Wire.type_code
    new_mavlink.Wire.qos_code new_mavlink.Wire.state_type
same_sorted = refl

pop-sorted_example :
    ((pop one_way 9).1 ≡ (pop other_way 9).1)
    × (sorted (pop one_way 9).0 ≡ sorted (pop other_way 9).0)
pop-sorted_example = pop-sorted one_way other_way 9 one_way-IsValid other_way-IsValid same_sorted
