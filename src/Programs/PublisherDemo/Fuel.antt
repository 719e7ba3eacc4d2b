-- ===== src/Programs/PublisherDemo/Fuel.antt =====
-- apps/publisher_demo.cpp, lines 13 to 21: the fuel of the loop is enough.
use new_mavlink.Common.{
  ℕ, zero, suc, ◌+◌, ◌*◌, ◌<◌, ◌≤◌, ◌≡◌, refl, sym, ap, false, ◌∷◌, [], if◌then◌else◌, leb, arith,
}
use new_mavlink.Publisher.{StatePublisher, new_publisher, helpful_snapshot_period_ms}
use new_mavlink.Publisher.Poll.{poll}
use new_mavlink.Programs.VehicleEndpoint.{max_helpful_snapshot_messages}
use new_mavlink.Programs.PublisherDemo.{updated, demo_loop, demo}

demo_loop-late : (fuel : ℕ) (p : StatePublisher) (now : ℕ) → 20000 < now → demo_loop fuel p now ≡ []
unfolding demo_loop
demo_loop-late zero p now h = refl
demo_loop-late (suc fuel) p now h = ground arith

demo_loop-enough :
    (fuel more : ℕ) (p : StatePublisher) (now : ℕ)
    → 20000 < now + 1000 * fuel
    → 20000 < now + 1000 * more
    → demo_loop fuel p now ≡ demo_loop more p now
unfolding demo_loop
demo_loop-enough zero more p now h k = sym (demo_loop-late more p now (omega arith))
demo_loop-enough (suc fuel) zero p now h k = demo_loop-late (suc fuel) p now (omega arith)
demo_loop-enough (suc fuel) (suc more) p now h k =
    let step = poll (updated p now) now false max_helpful_snapshot_messages in
    ap (λ rest. if leb now 20000 then record { now_ms = now; messages = step.1 } ∷ rest else [])
      (demo_loop-enough fuel more step.0 (now + 1000) (omega arith) (omega arith))

-- More fuel gives the same output.
pub demo_complete :
    (fuel : ℕ) → 21 ≤ fuel → demo_loop fuel (new_publisher 1 3 helpful_snapshot_period_ms) 0 ≡ demo
unfolding demo
demo_complete fuel h = demo_loop-enough fuel 22 _ 0 (omega arith) (omega arith)
