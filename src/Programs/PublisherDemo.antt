-- ===== src/Programs/PublisherDemo.antt =====
-- apps/publisher_demo.cpp: twenty seconds of a publisher, whose messages are printed.
pub mod Fuel
use new_mavlink.Common.{
  ℕ, zero, suc, ◌+◌, Bool, true, false, List, [], ◌∷◌, leb, ◌==◌, if◌then◌else◌,
}
use new_mavlink.Messages.{Position}
use new_mavlink.Publisher.{
  StatePublisher, PublishedMessage, new_publisher, helpful_snapshot_period_ms, update_position,
  update_attitude, update_battery,
}
use new_mavlink.Publisher.Poll.{poll}
use new_mavlink.Programs.VehicleEndpoint.{
  initial_position, initial_attitude, initial_battery, max_helpful_snapshot_messages, moved,
}

-- What the program prints at one time.
pub record Published : Type 0 where
  pub now_ms : ℕ
  pub messages : List PublishedMessage

-- The updates at 0 and at 3000.
unfoldable pub updated : StatePublisher → ℕ → StatePublisher
updated p now =
    let first = (update_position p initial_position now).0 in
    let first = (update_attitude first initial_attitude now).0 in
    let first = (update_battery first initial_battery now).0 in
    let second = (update_position p (moved initial_position) now).0 in
    if now == 0 then first else if now == 3000 then second else p

-- The loop from `now` on, with fuel for its turns.
unfoldable pub demo_loop : ℕ → StatePublisher → ℕ → List Published
demo_loop zero p now = []
demo_loop (suc fuel) p now =
    let (p1, messages) = poll (updated p now) now false max_helpful_snapshot_messages in
    let rest = demo_loop fuel p1 (now + 1000) in
    if leb now 20000 then record { now_ms = now; messages = messages } ∷ rest else []

-- Twenty-one turns are all: at 0, 1000 and so on up to 20000.
unfoldable pub demo : List Published
demo = demo_loop 22 (new_publisher 1 3 helpful_snapshot_period_ms) 0
