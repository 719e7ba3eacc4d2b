-- ===== src/Publisher/Poll/Sent.antt =====
-- src/publisher.cpp, lines 101 to 122: no update is lost, and what a poll with room sends.
use new_mavlink.Common.{
  ℕ, ◌+◌, ◌≤◌, ◌<◌, ◌≡◌, inl, inr, refl, sym, ap, Bool, true, false, not, ◌&&◌, ◌||◌, List, [], ◌∷◌,
  ◌++◌, Option, none, some, Bool-cases, is_some, length, length-append, lt→ltb, ltb, if◌then◌else◌,
  arith,
}
use new_mavlink.Publisher.{StatePublisher, PublishedMessage}
use new_mavlink.Publisher.Poll.{
  build_position, build_attitude, build_battery, schedule_next_snapshot, emit, emit_dirty,
  poll_snapshot, poll_changes, due, poll,
}

emit-length :
    (out : List PublishedMessage) (capacity : ℕ) (o : Option PublishedMessage)
    → length out ≤ capacity
    → length (emit out capacity o) ≤ capacity
unfolding emit
emit-length out capacity none h = h
emit-length out capacity (some m) h = ground (arith, h, length-append out (m ∷ []))

emit_dirty-length :
    (out : List PublishedMessage) (capacity : ℕ) (dirty : Bool) (o : Option PublishedMessage)
    → length out ≤ capacity
    → length (emit_dirty out capacity dirty o).0 ≤ capacity
unfolding emit_dirty
emit_dirty-length out capacity dirty none h = h
emit_dirty-length out capacity dirty (some m) h = ground (arith, h, length-append out (m ∷ []))

snapshot-length :
    (p : StatePublisher) (now_ms capacity : ℕ)
    → length (poll_snapshot p now_ms capacity).1 ≤ capacity
unfolding poll_snapshot
snapshot-length p now_ms capacity = emit-length _ capacity (build_battery p true) (
    emit-length _ capacity (build_attitude p true)
      (emit-length [] capacity (build_position p true) (omega arith)))

changes-length : (p : StatePublisher) (capacity : ℕ) → length (poll_changes p capacity).1 ≤ capacity
unfolding poll_changes
changes-length p capacity = emit_dirty-length _ capacity p.battery_dirty (build_battery p false) (
    emit_dirty-length _ capacity p.attitude_dirty (build_attitude p false)
      (emit_dirty-length [] capacity p.position_dirty (build_position p false) (omega arith)))

pub poll-length :
    (p : StatePublisher) (now_ms : ℕ) (is_null : Bool) (capacity : ℕ)
    → length (poll p now_ms is_null capacity).1 ≤ capacity
unfolding poll
poll-length p now_ms is_null capacity =
    ground (arith, snapshot-length p now_ms capacity, changes-length p capacity)

append_nothing : (xs : List PublishedMessage) → xs ++ [] ≡ xs
append_nothing [] = refl
append_nothing (x ∷ xs) = ap (◌∷◌ x) (append_nothing xs)

abbrev pub count : Bool → ℕ
count true = 1
count false = 0

-- How many values wait to be sent.
abbrev pub dirty_count : StatePublisher → ℕ
dirty_count p = count p.position_dirty + count p.attitude_dirty + count p.battery_dirty

emit_dirty-count :
    (out : List PublishedMessage) (capacity : ℕ) (dirty : Bool) (o : Option PublishedMessage)
    → length (emit_dirty out capacity dirty o).0 + count (emit_dirty out capacity dirty o).1
      ≡ length out + count dirty
unfolding emit_dirty
emit_dirty-count out capacity dirty none = refl
emit_dirty-count out capacity dirty (some m) = ground (arith, length-append out (m ∷ []))

changes-count :
    (p : StatePublisher) (capacity : ℕ)
    → length (poll_changes p capacity).1 + dirty_count (poll_changes p capacity).0 ≡ dirty_count p
unfolding poll_changes
changes-count p capacity =
    let (out1, position) = emit_dirty [] capacity p.position_dirty (build_position p false) in
    let (out2, attitude) = emit_dirty out1 capacity p.attitude_dirty (build_attitude p false) in
    omega (
      arith,
      emit_dirty-count [] capacity p.position_dirty (build_position p false),
      emit_dirty-count out1 capacity p.attitude_dirty (build_attitude p false),
      emit_dirty-count out2 capacity p.battery_dirty (build_battery p false),
    )

-- A poll when no snapshot is due, whatever the room, clears exactly as many dirty flags as it sends
-- messages, and sends no more than there is room for.
pub poll-count :
    (p : StatePublisher) (now_ms : ℕ) (is_null : Bool) (capacity : ℕ)
    → due p now_ms ≡ false
    → (length (poll p now_ms is_null capacity).1 + dirty_count (poll p now_ms is_null capacity).0
        ≡ dirty_count p)
      × (length (poll p now_ms is_null capacity).1 ≤ capacity)
unfolding poll
poll-count p now_ms is_null capacity early = elim (Bool-cases (is_null || ltb capacity 1)) [
  | inl refused ↦ rw refused (omega arith, omega arith)
  | inr taken ↦ rw (taken, early) (changes-count p capacity, changes-length p capacity)
]

-- A list of one message, or of none.
abbrev pub optional : Bool → Option PublishedMessage → List PublishedMessage
optional false o = []
optional true none = []
optional true (some m) = m ∷ []

emit_room :
    (out : List PublishedMessage) (capacity : ℕ) (o : Option PublishedMessage)
    → length out < capacity
    → emit out capacity o ≡ out ++ optional true o
unfolding emit
emit_room out capacity none room = sym (append_nothing out)
emit_room out capacity (some m) room = ground (arith, room)

emit_dirty_room :
    (out : List PublishedMessage) (capacity : ℕ) (dirty : Bool) (o : Option PublishedMessage)
    → length out < capacity
    → emit_dirty out capacity dirty o ≡ (out ++ optional dirty o, dirty && not (is_some o))
unfolding emit_dirty
emit_dirty_room out capacity true none room =
    ap (λ (t : List PublishedMessage). (t, true)) (sym (append_nothing out))
emit_dirty_room out capacity false none room =
    ap (λ (t : List PublishedMessage). (t, false)) (sym (append_nothing out))
emit_dirty_room out capacity true (some m) room = rw (lt→ltb (length out) capacity room) refl
emit_dirty_room out capacity false (some m) room =
    ap (λ (t : List PublishedMessage). (t, false)) (sym (append_nothing out))

length-optional : (dirty : Bool) (o : Option PublishedMessage) → length (optional dirty o) ≤ 1
length-optional false o = omega arith
length-optional true none = omega arith
length-optional true (some m) = omega arith

-- The output of a poll with room for all three, where the flags say what is sent.
abbrev pub all_of : Bool → Bool → Bool → StatePublisher → Bool → List PublishedMessage
all_of position attitude battery p snapshot =
    (optional position (build_position p snapshot) ++ optional attitude (build_attitude p snapshot))
    ++ optional battery (build_battery p snapshot)

snapshot_room :
    (p : StatePublisher) (now_ms capacity : ℕ)
    → 3 ≤ capacity
    → (poll_snapshot p now_ms capacity).1 ≡ all_of true true true p true
unfolding poll_snapshot
snapshot_room p now_ms capacity room =
    let first = emit_room [] capacity (build_position p true) (omega arith) in
    let one = length-optional true (build_position p true) in
    let two = length-optional true (build_attitude p true) in
    let sum =
      length-append (optional true (build_position p true))
        (optional true (build_attitude p true)) in
    let second =
      emit_room (optional true (build_position p true)) capacity (build_attitude p true)
        (omega arith) in
    rw (first, second)
      (emit_room (optional true (build_position p true) ++ optional true (build_attitude p true))
        capacity (build_battery p true) (omega arith))

changes_room :
    (p : StatePublisher) (capacity : ℕ)
    → 3 ≤ capacity
    → ((poll_changes p capacity).1
        ≡ all_of p.position_dirty p.attitude_dirty p.battery_dirty p false)
      × ((poll_changes p capacity).0.position_dirty
          ≡ (p.position_dirty && not (is_some (build_position p false))))
      × ((poll_changes p capacity).0.attitude_dirty
          ≡ (p.attitude_dirty && not (is_some (build_attitude p false))))
      × ((poll_changes p capacity).0.battery_dirty
          ≡ (p.battery_dirty && not (is_some (build_battery p false))))
unfolding poll_changes
changes_room p capacity room =
    let xs = optional p.position_dirty (build_position p false) in
    let ys = optional p.attitude_dirty (build_attitude p false) in
    let one = length-optional p.position_dirty (build_position p false) in
    let two = length-optional p.attitude_dirty (build_attitude p false) in
    let sum = length-append xs ys in
    rw
      (
        emit_dirty_room [] capacity p.position_dirty (build_position p false) (omega arith),
        emit_dirty_room xs capacity p.attitude_dirty (build_attitude p false) (omega arith),
        emit_dirty_room (xs ++ ys) capacity p.battery_dirty (build_battery p false) (omega arith),
      )
      (refl, refl, refl, refl)

-- A poll with room for three messages sends, in the order position, attitude, battery, snapshots of
-- every kind that can be encoded if a snapshot is due, and otherwise the changes of every kind that
-- is dirty and can be encoded; the dirty flags are all clear in the first case, and in the second
-- stay set exactly where the value could not be encoded.
pub poll_lem :
    (p : StatePublisher) (now_ms capacity : ℕ)
    → 3 ≤ capacity
    → ((poll p now_ms false capacity).1 ≡ (
        if due p now_ms
        then all_of true true true p true
        else all_of p.position_dirty p.attitude_dirty p.battery_dirty p false))
      × ((poll p now_ms false capacity).0.position_dirty ≡ (
          if due p now_ms
          then false
          else p.position_dirty && not (is_some (build_position p false))))
      × ((poll p now_ms false capacity).0.attitude_dirty ≡ (
          if due p now_ms
          then false
          else p.attitude_dirty && not (is_some (build_attitude p false))))
      × ((poll p now_ms false capacity).0.battery_dirty ≡ (
          if due p now_ms then false else p.battery_dirty && not (is_some (build_battery p false))))
unfolding poll poll_snapshot schedule_next_snapshot
poll_lem p now_ms capacity room =
    let one : ltb capacity 1 ≡ false = ground arith in
    elim (Bool-cases (due p now_ms)) [
      | inl now ↦ rw (one, now) (snapshot_room p now_ms capacity room, refl, refl, refl)
      | inr early ↦ rw (one, early) (changes_room p capacity room)
    ]
