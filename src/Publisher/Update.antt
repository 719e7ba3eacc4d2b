-- ===== src/Publisher/Update.antt =====
-- src/publisher.cpp, lines 9 to 11 and 30 to 78: generations over every run of the publisher.
use new_mavlink.Common.{
  ℕ, ◌+◌, ◌-◌, ◌^◌, ◌≤◌, ◌<◌, ◌≡◌, ◌≢◌, ◌⊎◌, inl, inr, refl, Bool, true, false, ◌||◌, List, Option,
  none, some, Bool-cases, ltb, Steps, Steps-invariant, arith,
}
use new_mavlink.Messages.{StateMeta, Position, Attitude, Battery}
use new_mavlink.Publisher.{
  StatePublisher, PublishedMessage, new_publisher, next_generation, other_stream, changed_position,
  changed_attitude, changed_battery, stored_meta, update_position, update_attitude, update_battery,
}
use new_mavlink.Publisher.Poll.{
  build_position, build_attitude, build_battery, schedule_next_snapshot, emit_dirty, poll_snapshot,
  poll_changes, due, poll,
}

-- One kind of state: nothing yet, or the value of the current generation, based on the one before
-- unless the counter is at its end.
abbrev pub Tracks : Bool → Bool → StateMeta → ℕ → Type 0
Tracks has dirty meta generation =
    ((has ≡ false) × (dirty ≡ false) × (generation ≡ 0))
    ⊎ ((has ≡ true)
        × (meta.generation ≡ generation)
        × (1 ≤ generation)
        × (generation < 2 ^ 32)
        × (meta.snapshot ≡ 0)
        × ((meta.base_generation + 1 ≡ generation) ⊎ (generation ≡ 2 ^ 32 - 1)))

pub record IsConsistent (p : StatePublisher) : Type 0 where
  pub position :
      Tracks p.state.has_position p.position_dirty p.state.position.meta p.position_generation
  pub attitude :
      Tracks p.state.has_attitude p.attitude_dirty p.state.attitude.meta p.attitude_generation
  pub battery : Tracks p.state.has_battery p.battery_dirty p.state.battery.meta p.battery_generation

tracks_update :
    (p : StatePublisher) (value : StateMeta) (has dirty : Bool) (meta : StateMeta) (generation : ℕ)
    → Tracks has dirty meta generation
    → Tracks true true (stored_meta p value has generation) (next_generation generation)
unfolding stored_meta next_generation
tracks_update p value has dirty meta generation h = ground (arith, h)

-- A flag is only cleared.
tracks_cleared :
    (has dirty dirty' : Bool) (meta : StateMeta) (generation : ℕ)
    → (dirty' ≡ dirty) ⊎ (dirty' ≡ false)
    → Tracks has dirty meta generation
    → Tracks has dirty' meta generation
tracks_cleared has dirty dirty' meta generation c h = ground (arith, h, c)

emit_dirty_clears :
    (out : List PublishedMessage) (capacity : ℕ) (dirty : Bool) (o : Option PublishedMessage)
    → ((emit_dirty out capacity dirty o).1 ≡ dirty) ⊎ ((emit_dirty out capacity dirty o).1 ≡ false)
unfolding emit_dirty
emit_dirty_clears out capacity dirty none = inl refl
emit_dirty_clears out capacity dirty (some m) = ground arith

pub new_publisher-IsConsistent : (s d period : ℕ) → IsConsistent (new_publisher s d period)
unfolding new_publisher
new_publisher-IsConsistent s d period = record {
  position = inl (refl, refl, refl);
  attitude = inl (refl, refl, refl);
  battery = inl (refl, refl, refl);
}

update_position-IsConsistent :
    (p : StatePublisher) (value : Position) (now_ms : ℕ)
    → IsConsistent p
    → IsConsistent (update_position p value now_ms).0
unfolding update_position
update_position-IsConsistent p value now_ms c = elim (Bool-cases (changed_position p value)) [
  | inl yes_ ↦ rw yes_ (record {
    position =
        tracks_update p value.meta p.state.has_position p.position_dirty p.state.position.meta
          p.position_generation c.position;
    attitude = c.attitude;
    battery = c.battery;
  })
  | inr no_ ↦ rw no_ c
]

update_attitude-IsConsistent :
    (p : StatePublisher) (value : Attitude) (now_ms : ℕ)
    → IsConsistent p
    → IsConsistent (update_attitude p value now_ms).0
unfolding update_attitude
update_attitude-IsConsistent p value now_ms c = elim (Bool-cases (changed_attitude p value)) [
  | inl yes_ ↦ rw yes_ (record {
    position = c.position;
    attitude =
        tracks_update p value.meta p.state.has_attitude p.attitude_dirty p.state.attitude.meta
          p.attitude_generation c.attitude;
    battery = c.battery;
  })
  | inr no_ ↦ rw no_ c
]

update_battery-IsConsistent :
    (p : StatePublisher) (value : Battery) (now_ms : ℕ)
    → IsConsistent p
    → IsConsistent (update_battery p value now_ms).0
unfolding update_battery
update_battery-IsConsistent p value now_ms c = elim (Bool-cases (changed_battery p value)) [
  | inl yes_ ↦ rw yes_ (record {
    position = c.position;
    attitude = c.attitude;
    battery =
        tracks_update p value.meta p.state.has_battery p.battery_dirty p.state.battery.meta
          p.battery_generation c.battery;
  })
  | inr no_ ↦ rw no_ c
]

-- The flags of `q` are those of `p`, or cleared.
cleared-IsConsistent :
    (p : StatePublisher) (a b d : Bool) (next_ms : ℕ)
    → (a ≡ p.position_dirty) ⊎ (a ≡ false)
    → (b ≡ p.attitude_dirty) ⊎ (b ≡ false)
    → (d ≡ p.battery_dirty) ⊎ (d ≡ false)
    → IsConsistent p
    → IsConsistent (record p {
      position_dirty = a;
      attitude_dirty = b;
      battery_dirty = d;
      next_snapshot_ms = next_ms;
    })
cleared-IsConsistent p a b d next_ms ha hb hd c = record {
  position =
      tracks_cleared p.state.has_position p.position_dirty a p.state.position.meta
        p.position_generation ha c.position;
  attitude =
      tracks_cleared p.state.has_attitude p.attitude_dirty b p.state.attitude.meta
        p.attitude_generation hb c.attitude;
  battery =
      tracks_cleared p.state.has_battery p.battery_dirty d p.state.battery.meta p.battery_generation
        hd c.battery;
}

poll-IsConsistent :
    (p : StatePublisher) (now_ms : ℕ) (is_null : Bool) (capacity : ℕ)
    → IsConsistent p
    → IsConsistent (poll p now_ms is_null capacity).0
unfolding poll poll_snapshot poll_changes schedule_next_snapshot
poll-IsConsistent p now_ms is_null capacity c = elim (Bool-cases (is_null || ltb capacity 1)) [
  | inl refused ↦ rw refused c
  | inr taken ↦ elim (Bool-cases (due p now_ms)) [
    | inl now ↦
        rw (taken, now)
          (cleared-IsConsistent p false false false _ (inr refl) (inr refl) (inr refl) c)
    | inr early ↦
        rw (taken, early)
          (cleared-IsConsistent p _ _ _ p.next_snapshot_ms
            (emit_dirty_clears _ capacity p.position_dirty (build_position p false))
            (emit_dirty_clears _ capacity p.attitude_dirty (build_attitude p false))
            (emit_dirty_clears _ capacity p.battery_dirty (build_battery p false)) c)
  ]
]

-- One call of a public method.
pub data PublisherStep : StatePublisher → StatePublisher → Type 0 where
  moves :
      (p : StatePublisher) (value : Position) (now_ms : ℕ)
      → PublisherStep p (update_position p value now_ms).0
  turns :
      (p : StatePublisher) (value : Attitude) (now_ms : ℕ)
      → PublisherStep p (update_attitude p value now_ms).0
  drains :
      (p : StatePublisher) (value : Battery) (now_ms : ℕ)
      → PublisherStep p (update_battery p value now_ms).0
  polls :
      (p : StatePublisher) (now_ms : ℕ) (is_null : Bool) (capacity : ℕ)
      → PublisherStep p (poll p now_ms is_null capacity).0

step-IsConsistent : (p q : StatePublisher) → PublisherStep p q → IsConsistent p → IsConsistent q
step-IsConsistent p _ (moves _ value now_ms) c = update_position-IsConsistent p value now_ms c
step-IsConsistent p _ (turns _ value now_ms) c = update_attitude-IsConsistent p value now_ms c
step-IsConsistent p _ (drains _ value now_ms) c = update_battery-IsConsistent p value now_ms c
step-IsConsistent p _ (polls _ now_ms is_null capacity) c =
    poll-IsConsistent p now_ms is_null capacity c

-- In every publisher that its public methods can reach from a new one, each kind of state has
-- either no value, a clear dirty flag and generation 0, or a value whose metadata carries the
-- current generation, from 1 to 2^32 - 1, is no snapshot, and is based on the generation before it
-- unless the counter is at its end.
pub reachable-IsConsistent :
    (source_id destination_id period : ℕ) (p : StatePublisher)
    → Steps PublisherStep (new_publisher source_id destination_id period) p
    → IsConsistent p
reachable-IsConsistent source_id destination_id period p run =
    Steps-invariant IsConsistent step-IsConsistent (new_publisher source_id destination_id period) p
      run (new_publisher-IsConsistent source_id destination_id period)

-- If a position without source is stored by a publisher that has one, the same position given again
-- at once counts as changed.
pub update_position_again :
    (p : StatePublisher) (value : Position) (now_ms later_ms : ℕ)
    → value.meta.source_id ≡ 0
    → p.source_id ≢ 0
    → (update_position p value now_ms).1 ≡ true
    → (update_position (update_position p value now_ms).0 value later_ms).1 ≡ true
unfolding update_position changed_position other_stream stored_meta
update_position_again p value now_ms later_ms unset own first = ground (arith, unset, own, first)
