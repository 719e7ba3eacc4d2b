-- ===== src/Tests/Publishers.antt =====
-- The publisher at concrete inputs.
use new_mavlink.Common.{
  ◌+◌, ◌≤◌, ◌≡◌, refl, true, false, not, ◌&&◌, length, is_some, pos, arith, if◌then◌else◌, done,
}
use new_mavlink.Common.{next as step}
use new_mavlink.Messages.{StateMeta, Position}
use new_mavlink.Publisher.{StatePublisher, new_publisher, update_position}
use new_mavlink.Publisher.Poll.{build_position, build_attitude, build_battery, due, poll}
use new_mavlink.Publisher.Poll.Sent.{dirty_count, poll-count, all_of, poll_lem}
use new_mavlink.Publisher.Update.{IsConsistent, moves, reachable-IsConsistent}

abbrev fix : Position
fix = record {
  meta = record {
    resource_id = 7;
    generation = 0;
    base_generation = 0;
    source_id = 0;
    snapshot = 0;
    reserved = 0;
  };
  latitude_e7 = pos 473977000;
  longitude_e7 = pos 85000000;
  altitude_mm = pos 488000;
}

abbrev fresh : StatePublisher
fresh = new_publisher 2 1 0

abbrev pub moved : StatePublisher
moved = (update_position fresh fix 5).0

early : due moved 5 ≡ false
unfolding due update_position new_publisher new_mavlink.Publisher.changed_position
    new_mavlink.Publisher.first_snapshot
early = refl

poll-count_example :
    (length (poll moved 5 false 1).1 + dirty_count (poll moved 5 false 1).0 ≡ dirty_count moved)
    × (length (poll moved 5 false 1).1 ≤ 1)
poll-count_example = poll-count moved 5 false 1 early

poll_lem_example :
    ((poll moved 5 false 3).1 ≡ (
      if due moved 5
      then all_of true true true moved true
      else all_of moved.position_dirty moved.attitude_dirty moved.battery_dirty moved false))
    × ((poll moved 5 false 3).0.position_dirty ≡ (
        if due moved 5
        then false
        else moved.position_dirty && not (is_some (build_position moved false))))
    × ((poll moved 5 false 3).0.attitude_dirty ≡ (
        if due moved 5
        then false
        else moved.attitude_dirty && not (is_some (build_attitude moved false))))
    × ((poll moved 5 false 3).0.battery_dirty ≡ (
        if due moved 5
        then false
        else moved.battery_dirty && not (is_some (build_battery moved false))))
poll_lem_example = poll_lem moved 5 3 (omega arith)

-- One message leaves: the position.
sent_one : length (poll moved 5 false 3).1 ≡ 1
unfolding poll due update_position new_publisher new_mavlink.Publisher.changed_position
    new_mavlink.Publisher.first_snapshot new_mavlink.Publisher.stored_meta
    new_mavlink.Publisher.next_generation new_mavlink.Publisher.Poll.poll_changes
    new_mavlink.Publisher.Poll.emit_dirty build_position build_attitude build_battery
    new_mavlink.Publisher.Poll.published new_mavlink.Publisher.Poll.sent_meta
    new_mavlink.Messages.State.encode_position new_mavlink.Messages.State.encode_state_meta
sent_one = refl

reachable-IsConsistent_example : IsConsistent moved
reachable-IsConsistent_example =
    reachable-IsConsistent 2 1 0 moved (step fresh moved moved (moves fresh fix 5) (done moved))
