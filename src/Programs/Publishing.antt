-- ===== src/Programs/Publishing.antt =====
-- src/publisher.cpp, lines 80 to 122, and apps/gcs_endpoint.cpp, lines 30 to 33: what the publisher
-- sends is what the ground station reads.
use new_mavlink.Common.{◌≡◌, Bool, true, false, Option, none, some}
use new_mavlink.Wire.{MessageType}
use new_mavlink.Messages.State.{FitsPosition, FitsAttitude, FitsBattery}
use new_mavlink.Publisher.{StatePublisher, PublishedMessage, PublishKind}
use new_mavlink.Publisher.Poll.{sent_meta}
use new_mavlink.Programs.{VehicleState, read_state}

-- The widths of the numbers that a publisher holds.
pub record FitsState (p : StatePublisher) : Type 0 where
  pub position : FitsPosition p.state.position
  pub attitude : FitsAttitude p.state.attitude
  pub battery : FitsBattery p.state.battery

abbrev is_snapshot : PublishKind → Bool
is_snapshot PublishKind.helpful_snapshot = true
is_snapshot PublishKind.on_change = false

-- The state of a kind as it is sent.
abbrev pub sent_state : StatePublisher → MessageType → Bool → Option VehicleState
sent_state p MessageType.position snapshot =
    let value = p.state.position in
    some (VehicleState.position (record value { meta = sent_meta value.meta snapshot }))
sent_state p MessageType.attitude snapshot =
    let value = p.state.attitude in
    some (VehicleState.attitude (record value { meta = sent_meta value.meta snapshot }))
sent_state p MessageType.battery snapshot =
    let value = p.state.battery in
    some (VehicleState.battery (record value { meta = sent_meta value.meta snapshot }))
sent_state p _ snapshot = none

-- The ground station reads in a message the publisher's state of that type.
abbrev pub IsRead : StatePublisher → PublishedMessage → Type 0
IsRead p m =
    read_state m.message.header.type (some m.message.payload) m.message.length
    ≡ sent_state p m.message.header.type (is_snapshot m.kind)

abbrev Option-all : (PublishedMessage → Type 0) → Option PublishedMessage → Type 0
Option-all P none = Unit {0}
Option-all P (some m) = P m
