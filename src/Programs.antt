-- ===== src/Programs.antt =====
-- apps/: what the programs share. Each is a loop around the library; one turn of the loop is a
-- function from the state to the state after it and the exit code, if the turn ends the program.
-- Arguments are the numbers that `main` parses from the command line.
pub mod ProxyService
pub mod GcsEndpoint
pub mod VehicleEndpoint
pub mod PublisherDemo
pub mod AdapterProbe
pub mod Schema
pub mod Relay
pub mod Publishing
use new_mavlink.Common.{ℕ, Bool, true, false, List, [], ◌∷◌, Option, none, some, Pointer}
use new_mavlink.Crypto.{Ascon, derive_directional_keys}
use new_mavlink.Wire.{MessageType, SessionId, DirectionalKeys}
use new_mavlink.Messages.{Position, Attitude, Battery}
use new_mavlink.Messages.State.{decode_position, decode_attitude, decode_battery}

-- The bytes 1 to 16.
abbrev pub psk : List ℕ
psk = 1 ∷ 2 ∷ 3 ∷ 4 ∷ 5 ∷ 6 ∷ 7 ∷ 8 ∷ 9 ∷ 10 ∷ 11 ∷ 12 ∷ 13 ∷ 14 ∷ 15 ∷ 16 ∷ []

-- SessionId{1U, 1U}
abbrev pub session_id : SessionId
session_id = record { value = 1; epoch = 1 }

-- The identifiers of the three programs.
abbrev pub vehicle_id : ℕ
vehicle_id = 1

abbrev pub gcs_id : ℕ
gcs_id = 2

abbrev pub proxy_id : ℕ
proxy_id = 3

-- "127.0.0.1"
abbrev pub loopback : Option (List ℕ)
loopback = some (b'1' ∷ b'2' ∷ b'7' ∷ b'.' ∷ b'0' ∷ b'.' ∷ b'0' ∷ b'.' ∷ b'1' ∷ [])

-- The keys of the link from one program to the next, first those of the sender.
unfoldable pub link_keys : Ascon → ℕ → ℕ → Option (DirectionalKeys × DirectionalKeys)
link_keys a first second = derive_directional_keys a psk session_id first second

-- A decoded state message.
pub data VehicleState : Type 0 where
  position : Position → VehicleState
  attitude : Attitude → VehicleState
  battery : Battery → VehicleState

abbrev pub some_state : {A : Type 0} → (A → VehicleState) → Option A → Option VehicleState
some_state f none = none
some_state f (some value) = some (f value)

-- The three branches on the type of a record, none where it has another type.
unfoldable pub read_state : MessageType → Pointer → ℕ → Option VehicleState
read_state MessageType.position bytes size =
    some_state VehicleState.position (decode_position bytes size)
read_state MessageType.attitude bytes size =
    some_state VehicleState.attitude (decode_attitude bytes size)
read_state MessageType.battery bytes size =
    some_state VehicleState.battery (decode_battery bytes size)
read_state _ bytes size = none
