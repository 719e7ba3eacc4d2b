-- ===== src/Wire/Classes.antt =====
-- src/wire.cpp: the codes of the enumerations, and how the classes of types relate.
use new_mavlink.Common.{ℕ, ◌<◌, ◌≤◌, ◌≡◌, refl, true, arith}
use new_mavlink.Wire.{
  MessageType, Qos, type_code, type_of_code, low_type_of_code, high_type_of_code, qos_code,
  qos_of_code, known_type, state_type,
}

low_code : (b : ℕ) → type_code (low_type_of_code b) ≡ b
unfolding type_code low_type_of_code
low_code b = ground arith

high_code : (b : ℕ) → type_code (high_type_of_code b) ≡ b
unfolding type_code high_type_of_code
high_code b = ground (arith, low_code b)

-- A cast of a byte to `MessageType` and back is the byte.
pub type_code-type_of_code : (b : ℕ) → type_code (type_of_code b) ≡ b
unfolding type_code type_of_code
type_code-type_of_code b = ground (arith, high_code b)

pub type_of_code-type_code :
    (t : MessageType) → known_type t ≡ true → type_of_code (type_code t) ≡ t
unfolding type_code type_of_code known_type
type_of_code-type_code (MessageType.unnamed b) h = cc
type_of_code-type_code _ h = refl

pub type_code-lt : (t : MessageType) → known_type t ≡ true → type_code t < 256
unfolding type_code known_type
type_code-lt (MessageType.unnamed b) h = cc
type_code-lt _ h = omega arith

-- One of the six levels that the source names.
abbrev pub IsNamed : Qos → Type 0
IsNamed (Qos.unnamed b) = ⊥
IsNamed _ = Unit {0}

pub qos_of_code-qos_code : (q : Qos) → IsNamed q → qos_of_code (qos_code q) ≡ q
unfolding qos_code qos_of_code
qos_of_code-qos_code (Qos.unnamed b) h = absurd h
qos_of_code-qos_code _ h = refl

pub qos_code-le : (q : Qos) → IsNamed q → qos_code q ≤ 5
unfolding qos_code
qos_code-le (Qos.unnamed b) h = absurd h
qos_code-le _ h = omega arith

pub qos_code-qos_of_code : (b : ℕ) → qos_code (qos_of_code b) ≡ b
unfolding qos_code qos_of_code
qos_code-qos_of_code b = ground arith

pub state_type-known_type : (t : MessageType) → state_type t ≡ true → known_type t ≡ true
unfolding state_type known_type
state_type-known_type (MessageType.unnamed b) h = cc
state_type-known_type _ h = refl
