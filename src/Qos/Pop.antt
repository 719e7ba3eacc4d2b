-- ===== src/Qos/Pop.antt =====
-- src/qos.cpp, lines 50 to 59: the order in which messages leave a queue.
use new_mavlink.Common.{
  ℕ, zero, suc, ◌+◌, ◌≤◌, ◌<◌, ◌≡◌, ◌⊎◌, inl, inr, refl, sym, ap, ◌∙◌, List, [], ◌∷◌, ◌++◌, Option,
  none, some, Bool-cases, ◌==◌, if◌then◌else◌, lookup, erase, least, by_key, by_key-least,
  erase-Distinct, lookup-erase, lookup-erase_other, length-erase_old, lookup-least, arith,
}
use new_mavlink.Messages.{NativeMessage}
use new_mavlink.Qos.{
  BoundedQosQueue, QueueMetrics, size, expired, stream_key, count_expired, count_delivered,
  take_front, pop_loop, pop,
}
use new_mavlink.Qos.Invariant.{IsValid}

abbrev pub values : List (ℕ × NativeMessage) → List NativeMessage
values [] = []
values (e ∷ es) = e.1 ∷ values es

-- The messages in the order in which they leave: critical ones and events as they came, then the
-- latest values by their streams' keys.
abbrev pub waiting : BoundedQosQueue → List NativeMessage
waiting q = q.critical ++ (q.events ++ values (by_key q.state))

abbrev pub live : ℕ → List NativeMessage → List NativeMessage
live now_ms [] = []
live now_ms (m ∷ ms) = if expired m now_ms then live now_ms ms else m ∷ live now_ms ms

-- The abstract queue: what can still be delivered at `now_ms`.
abbrev pub pending : BoundedQosQueue → ℕ → List NativeMessage
pending q now_ms = live now_ms (waiting q)

abbrev queue :
    ℕ
    → List NativeMessage
    → List NativeMessage
    → List (ℕ × NativeMessage)
    → QueueMetrics
    → BoundedQosQueue
queue capacity critical events state metrics = record {
  capacity = capacity;
  critical = critical;
  events = events;
  state = state;
  metrics = metrics;
}

-- What a turn of the loop takes.
record Takes (q : BoundedQosQueue) (m : NativeMessage) (rest : BoundedQosQueue) : Type 0 where
  pub order : waiting q ≡ m ∷ waiting rest
  pub valid : IsValid rest
  pub smaller : size rest < size q
  pub capacity : rest.capacity ≡ q.capacity

erase_keyed :
    (st : List (ℕ × NativeMessage)) (i : ℕ)
    → ((k : ℕ) (n : NativeMessage) → lookup st k ≡ some n → k ≡ stream_key n)
    → (k : ℕ) (n : NativeMessage) → lookup (erase st i) k ≡ some n
    → k ≡ stream_key n
erase_keyed st i h k n e = elim (Bool-cases (k == i)) [
  | inl same ↦ let same : k ≡ i = ground arith in ground (arith, same, e, lookup-erase st i)
  | inr other ↦ h k n (sym (lookup-erase_other st i k (ground arith)) ∙ e)
]

taken :
    (capacity : ℕ) (c es : List NativeMessage) (st : List (ℕ × NativeMessage)) (x : QueueMetrics)
    → IsValid (queue capacity c es st x)
    → ((take_front (queue capacity c es st x) c es st ≡ none)
        × (waiting (queue capacity c es st x) ≡ []))
      ⊎ ((m : NativeMessage) × (rest : BoundedQosQueue) × (take_front
              (queue capacity c es st x)
              c
              es
              st
            ≡ some (m, rest))
          × Takes (queue capacity c es st x) m rest)
unfolding take_front
taken capacity (m ∷ ms) es st x v = inr (
  m,
  queue capacity ms es st x,
  refl,
  record {
    order = refl;
    valid = record { bounded = omega (arith, v.bounded); distinct = v.distinct; keyed = v.keyed };
    smaller = omega arith;
    capacity = refl;
  },
)
taken capacity [] (m ∷ ms) st x v = inr (
  m,
  queue capacity [] ms st x,
  refl,
  record {
    order = refl;
    valid = record { bounded = omega (arith, v.bounded); distinct = v.distinct; keyed = v.keyed };
    smaller = omega arith;
    capacity = refl;
  },
)
taken capacity [] [] (e ∷ es) x v =
    let shrinks =
      length-erase_old (e ∷ es) (least e es).0 (least e es).1 (lookup-least e es v.distinct) in
    inr (
      (least e es).1,
      queue capacity [] [] (erase (e ∷ es) (least e es).0) x,
      refl,
      record {
        order = ap values (by_key-least e es v.distinct);
        valid = record {
          bounded = omega (arith, v.bounded, shrinks);
          distinct = erase-Distinct (e ∷ es) (least e es).0 v.distinct;
          keyed = erase_keyed (e ∷ es) (least e es).0 v.keyed;
        };
        smaller = omega (arith, shrinks);
        capacity = refl;
      },
    )
taken capacity [] [] [] x v = inl (refl, refl)

-- What leaves is the first that is live; where nothing is live, nothing is left.
abbrev pub Leaves : BoundedQosQueue → ℕ → BoundedQosQueue → Option NativeMessage → Type 0
Leaves q now_ms q' none = (pending q now_ms ≡ []) × (waiting q' ≡ [])
Leaves q now_ms q' (some m) = pending q now_ms ≡ m ∷ pending q' now_ms

-- What `pop` returns of `q`.
pub record Pops (q : BoundedQosQueue) (now_ms : ℕ) (result : BoundedQosQueue × Option NativeMessage)
    : Type 0 where
  pub leaves : Leaves q now_ms result.0 result.1
  pub valid : IsValid result.0
  pub smaller : size result.0 ≤ size q
  pub capacity : result.0.capacity ≡ q.capacity

skipped :
    (q rest q' : BoundedQosQueue) (now_ms : ℕ) (result : Option NativeMessage)
    → pending q now_ms ≡ pending rest now_ms
    → Leaves (count_expired rest) now_ms q' result
    → Leaves q now_ms q' result
unfolding count_expired
skipped q rest q' now_ms none e h = (e ∙ h.0, h.1)
skipped q rest q' now_ms (some m) e h = e ∙ h

pop_loop-Pops :
    (fuel : ℕ) (q : BoundedQosQueue) (now_ms : ℕ)
    → size q < fuel
    → IsValid q
    → Pops q now_ms (pop_loop fuel q now_ms)
unfolding pop_loop count_expired count_delivered
pop_loop-Pops zero q now_ms h v = absurd (omega (arith, h))
pop_loop-Pops (suc fuel) q now_ms h v =
    elim (taken q.capacity q.critical q.events q.state q.metrics v) [
      | inl (e, empty) ↦
          rw (pop_loop, e)
            (record {
              leaves = (ap (live now_ms) empty, empty);
              valid = v;
              smaller = omega arith;
              capacity = refl;
            })
      | inr (m, rest, e, t) ↦ elim (Bool-cases (expired m now_ms)) [
        | inl old ↦
            let counted : IsValid (count_expired rest) = record {
              bounded = t.valid.bounded;
              distinct = t.valid.distinct;
              keyed = t.valid.keyed;
            } in
            let next =
              pop_loop-Pops fuel (count_expired rest) now_ms (omega (arith, t.smaller)) counted in
            rw (pop_loop, e, old)
              (record {
                leaves =
                    skipped q rest (pop_loop fuel (count_expired rest) now_ms).0 _ _
                      (ap (live now_ms) t.order ∙ rw old refl) next.leaves;
                valid = next.valid;
                smaller = omega (arith, next.smaller, t.smaller);
                capacity = next.capacity ∙ t.capacity;
              })
        | inr good ↦
            rw (pop_loop, e, good)
              (record {
                leaves = ap (live now_ms) t.order ∙ rw good refl;
                valid = record {
                  bounded = t.valid.bounded;
                  distinct = t.valid.distinct;
                  keyed = t.valid.keyed;
                };
                smaller = omega (arith, t.smaller);
                capacity = t.capacity;
              })
      ]
    ]

-- On a valid queue `pop` returns the first message that has not expired in the order critical
-- messages, events, latest values by stream key, and leaves exactly the rest of those that have not
-- expired; it returns none only if every message has expired, and the queue is empty afterwards;
-- the queue stays valid and does not grow.
pub pop_lem : (q : BoundedQosQueue) (now_ms : ℕ) → IsValid q → Pops q now_ms (pop q now_ms)
unfolding pop
pop_lem q now_ms v = pop_loop-Pops (size q + 1) q now_ms (omega arith) v
