-- ===== src/Handshake/Types.antt =====
-- include/new_mavlink/session.hpp: the errors and the messages of the handshake.
use new_mavlink.Common.{ℕ, List, [], ◌∷◌}

pub data SessionError : Type 0 where
  none invalid_input invalid_state authentication_failed nonce_reuse : SessionError
  invalid_transcript : SessionError

pub record Hello : Type 0 where
  pub initiator_id : ℕ
  pub responder_id : ℕ
  pub client_nonce : ℕ
  pub capabilities : ℕ

-- `authenticator` is an array of 16 bytes, here and in `Finish`.
pub record Accept : Type 0 where
  pub initiator_id : ℕ
  pub responder_id : ℕ
  pub client_nonce : ℕ
  pub server_nonce : ℕ
  pub session_id : ℕ
  pub epoch : ℕ
  pub authenticator : List ℕ

pub record Finish : Type 0 where
  pub initiator_id : ℕ
  pub responder_id : ℕ
  pub session_id : ℕ
  pub epoch : ℕ
  pub authenticator : List ℕ

abbrev pub hello_bytes : ℕ
hello_bytes = 24

abbrev pub accept_bytes : ℕ
accept_bytes = 64

abbrev pub finish_bytes : ℕ
finish_bytes = 48

-- `std::array<std::uint8_t, 16U>{}`
abbrev pub zero_block : List ℕ
zero_block = 0 ∷ 0 ∷ 0 ∷ 0 ∷ 0 ∷ 0 ∷ 0 ∷ 0 ∷ 0 ∷ 0 ∷ 0 ∷ 0 ∷ 0 ∷ 0 ∷ 0 ∷ 0 ∷ []
