-- ===== src/Qos/Push.antt =====
-- src/qos.cpp, lines 26 to 48: what a push keeps, drops and delivers later.
use new_mavlink.Common.{
  ◌||◌, ℕ, ◌≤◌, ◌<◌, ◌≡◌, ◌≢◌, ◌⊎◌, inl, inr, refl, ap, ◌∙◌, Bool, true, false, List, [], ◌∷◌, ◌++◌,
  Option, none, some, Bool-cases, if◌then◌else◌, ◌↔◌, leb, ltb, ◌==◌, lookup, store, lookup-store,
  lookup-store_other, arith,
}
use new_mavlink.Wire.{max_payload_bytes}
use new_mavlink.Messages.{NativeMessage}
use new_mavlink.Qos.{
  BoundedQosQueue, size, expired, is_state, stream_key, is_critical, count_expired, count_dropped,
  count_enqueued, count_rejected, evict_from, evict, emplace, push_state, push_back, push_full,
  push,
}
use new_mavlink.Qos.Invariant.{evict_from-state}

-- What `push` does to the critical messages and to the latest values: at most `m` is added.
pub record Keeps (q : BoundedQosQueue) (m : NativeMessage) (result : BoundedQosQueue × Bool)
    : Type 0 where
  pub critical :
      (result.0.critical ≡ q.critical)
      ⊎ ((result.0.critical ≡ q.critical ++ (m ∷ [])) × (result.1 ≡ true))
  pub state :
      (result.0.state ≡ q.state)
      ⊎ ((result.0.state ≡ store q.state (stream_key m) m) × (result.1 ≡ true))
  pub capacity : result.0.capacity ≡ q.capacity

push_state-Keeps :
    (q : BoundedQosQueue) (m : NativeMessage) (found : Option NativeMessage)
    → Keeps q m (push_state q (stream_key m) m found)
unfolding push_state evict emplace count_dropped count_enqueued
push_state-Keeps q m (some old) = record {
  critical = inl refl;
  state = inr (refl, refl);
  capacity = refl;
}
push_state-Keeps q m none =
    let (st, cr, cap) = evict_from-state q q.events in
    elim (Bool-cases (leb (evict_from q q.events).capacity (size (evict_from q q.events)))) [
      | inl full ↦ rw full (record { critical = inl cr; state = inl st; capacity = cap })
      | inr room ↦ rw room (record {
        critical = inl cr;
        state = inr (ap (λ (t : List (ℕ × NativeMessage)). store t (stream_key m) m) st, refl);
        capacity = cap;
      })
    ]

push_back-Keeps :
    (q q' : BoundedQosQueue) (critical : Bool) (m : NativeMessage)
    → (q'.critical ≡ q.critical) × (q'.state ≡ q.state) × (q'.capacity ≡ q.capacity)
    → Keeps q m (push_back q' critical m)
unfolding push_back count_enqueued
push_back-Keeps q q' true m (c, st, cap) = record {
  critical = inr (ap (λ (t : List NativeMessage). t ++ (m ∷ [])) c, refl);
  state = inl st;
  capacity = cap;
}
push_back-Keeps q q' false m (c, st, cap) = record {
  critical = inl c;
  state = inl st;
  capacity = cap;
}

push_full-Keeps :
    (q : BoundedQosQueue) (critical : Bool) (m : NativeMessage) (events : List NativeMessage)
    → Keeps q m (push_full q critical m events)
unfolding push_full count_dropped count_rejected
push_full-Keeps q true m events = record { critical = inl refl; state = inl refl; capacity = refl }
push_full-Keeps q false m [] = record { critical = inl refl; state = inl refl; capacity = refl }
push_full-Keeps q false m (x ∷ xs) = push_back-Keeps q _ false m (refl, refl, refl)

-- Whatever the message, `push` neither drops nor reorders critical messages and drops no latest
-- value: the critical messages are as before, or the message is appended, and the latest values are
-- as before, or the message is stored under its stream's key, and it returns true if it did either.
pub push-Keeps :
    (q : BoundedQosQueue) (m : NativeMessage) (now_ms : ℕ) → Keeps q m (push q m now_ms)
unfolding push count_expired
push-Keeps q m now_ms =
    elim (Bool-cases (q.capacity == 0 || ltb max_payload_bytes m.length || expired m now_ms)) [
      | inl refused ↦ rw refused (record { critical = inl refl; state = inl refl; capacity = refl })
      | inr passed ↦ elim (Bool-cases (is_state m)) [
        | inl st ↦ rw (passed, st) (push_state-Keeps q m _)
        | inr other ↦ elim (Bool-cases (leb q.capacity (size q))) [
          | inl full ↦ rw (passed, other, full) (push_full-Keeps q _ m q.events)
          | inr room ↦ rw (passed, other, room) (push_back-Keeps q q _ m (refl, refl, refl))
        ]
      ]
    ]

-- What a queue takes at all.
abbrev pub Acceptable : BoundedQosQueue → NativeMessage → ℕ → Type 0
Acceptable q m now_ms =
    (q.capacity ≢ 0) × (m.length ≤ max_payload_bytes) × (expired m now_ms ≡ false)

-- A critical message that a queue may take, within size, deadline and with capacity, is accepted
-- exactly if the queue is not full; then it is the last critical message, otherwise the critical
-- messages are as before, and events and latest values are as before in either case.
pub push-critical :
    (q : BoundedQosQueue) (m : NativeMessage) (now_ms : ℕ)
    → Acceptable q m now_ms
    → is_state m ≡ false
    → is_critical m.header.qos ≡ true
    → (((push q m now_ms).1 ≡ true) ↔ (size q < q.capacity))
      × ((push q m now_ms).0.events ≡ q.events)
      × ((push q m now_ms).0.state ≡ q.state)
      × ((push q m now_ms).0.critical
          ≡ (if ltb (size q) q.capacity then q.critical ++ (m ∷ []) else q.critical))
unfolding push push_full push_back count_enqueued count_rejected
push-critical q m now_ms ok other critical = rw (push, other, critical) (ground (arith, ok))

push_state_latest :
    (q : BoundedQosQueue) (m : NativeMessage) (found : Option NativeMessage)
    → (push_state q (stream_key m) m found).1 ≡ true
    → lookup (push_state q (stream_key m) m found).0.state (stream_key m) ≡ some m
unfolding push_state evict emplace count_dropped count_enqueued
push_state_latest q m (some old) done = lookup-store q.state (stream_key m) m
push_state_latest q m none done =
    elim (Bool-cases (leb (evict_from q q.events).capacity (size (evict_from q q.events)))) [
      | inl full ↦ absurd (ground (arith, done, full))
      | inr room ↦ rw room (lookup-store (evict_from q q.events).state (stream_key m) m)
    ]

latest :
    (q : BoundedQosQueue) (m : NativeMessage) (now_ms : ℕ)
    → is_state m ≡ true
    → (push q m now_ms).1 ≡ true
    → lookup (push q m now_ms).0.state (stream_key m) ≡ some m
unfolding push count_expired
latest q m now_ms st done =
    elim (Bool-cases (q.capacity == 0 || ltb max_payload_bytes m.length || expired m now_ms)) [
      | inl refused ↦ absurd (ground (arith, done, refused))
      | inr passed ↦ rw (passed, st) (push_state_latest q m _ (ground (arith, passed, st, done)))
    ]

others :
    (q : BoundedQosQueue) (m : NativeMessage) (now_ms k : ℕ)
    → k ≢ stream_key m
    → lookup (push q m now_ms).0.state k ≡ lookup q.state k
others q m now_ms k ne = elim (push-Keeps q m now_ms).state [
  | inl same ↦ ap (λ (t : List (ℕ × NativeMessage)). lookup t k) same
  | inr (new, _) ↦
      ap (λ (t : List (ℕ × NativeMessage)). lookup t k) new
      ∙ lookup-store_other q.state (stream_key m) k m ne
]

-- After a push of a state message succeeded, the latest value of its stream is that message, and
-- that of any other stream is as before.
pub push-latest :
    (q : BoundedQosQueue) (m : NativeMessage) (now_ms k : ℕ)
    → is_state m ≡ true
    → (push q m now_ms).1 ≡ true
    → k ≢ stream_key m
    → (lookup (push q m now_ms).0.state (stream_key m) ≡ some m)
      × (lookup (push q m now_ms).0.state k ≡ lookup q.state k)
push-latest q m now_ms k st done ne = (latest q m now_ms st done, others q m now_ms k ne)
