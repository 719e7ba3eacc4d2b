-- ===== src/Handshake/Sides.antt =====
-- src/session.cpp, lines 73 to 99: `InitiatorSession` and `ResponderSession`. What a method writes
-- to its output arguments when it returns false is left out: no caller reads it.
use new_mavlink.Common.{
  ℕ, bit_xor, Bool, true, false, not, ◌||◌, List, Option, none, some, Zeros, put16, put64,
  read_bytes, bytes_eq, ◌!=◌, ◌==◌, if◌then◌else◌,
}
use new_mavlink.Crypto.{Ascon, derive_directional_keys}
use new_mavlink.Wire.{DirectionalKeys}
use new_mavlink.Handshake.{valid_ids, transcript, make_auth}
use new_mavlink.Handshake.Types.{Hello, Accept, Finish, SessionError, zero_block}

pub data Outcome (A : Type 0) : Type 0 where
  ok : A → Outcome A
  err : SessionError → Outcome A

-- `DirectionalKeys{}`
abbrev pub no_keys : DirectionalKeys
no_keys = record {
  session = record { value = 0; epoch = 0 };
  local_id = 0;
  peer_id = 0;
  tx = zero_block;
  rx = zero_block;
}

abbrev pub no_hello : Hello
no_hello = record { initiator_id = 0; responder_id = 0; client_nonce = 0; capabilities = 0 }

abbrev pub no_accept : Accept
no_accept = record {
  initiator_id = 0;
  responder_id = 0;
  client_nonce = 0;
  server_nonce = 0;
  session_id = 0;
  epoch = 0;
  authenticator = zero_block;
}

pub record InitiatorSession : Type 0 where
  pub local_id : ℕ
  pub peer_id : ℕ
  pub psk : List ℕ
  pub hello : Hello
  pub keys : DirectionalKeys
  pub started : Bool
  pub established : Bool

unfoldable pub new_initiator : ℕ → ℕ → List ℕ → InitiatorSession
new_initiator local_id peer_id psk = record {
  local_id = local_id;
  peer_id = peer_id;
  psk = psk;
  hello = no_hello;
  keys = no_keys;
  started = false;
  established = false;
}

unfoldable pub start : InitiatorSession → ℕ → InitiatorSession × Outcome Hello
start s client_nonce =
    if s.started || not (valid_ids s.local_id s.peer_id) || client_nonce == 0
    then (s, err (if s.started then SessionError.nonce_reuse else SessionError.invalid_input))
    else let hello : Hello = record {
      initiator_id = s.local_id;
      responder_id = s.peer_id;
      client_nonce = client_nonce;
      capabilities = 0;
    } in
      (record s { hello = hello; started = true }, ok hello)

-- The 20 bytes that the authenticator of a `Finish` covers.
unfoldable pub finish_input : ℕ → ℕ → ℕ → ℕ → List ℕ
finish_input initiator_id responder_id session_id epoch =
    let f = put16 Zeros 0 initiator_id in
    let f = put16 f 2 responder_id in
    let f = put64 f 4 session_id in let f = put64 f 12 epoch in read_bytes f 0 20

-- `without_auth`
unfoldable pub without_auth : Accept → Accept
without_auth received = record received { authenticator = zero_block }

-- `!make_auth(...) || expected != ...` is false.
unfoldable pub authentic : Option (List ℕ) → List ℕ → Bool
authentic none received = false
authentic (some expected) received = bytes_eq expected received

-- `accept` once the keys are derived.
unfoldable pub accept_keys : Ascon → InitiatorSession → Accept → InitiatorSession × Outcome Finish
accept_keys a s received =
    elim (make_auth a s.psk
      (finish_input s.local_id s.peer_id received.session_id received.epoch)) [
        | none ↦ (s, err SessionError.authentication_failed)
        | some tag ↦ (
          record s { established = true },
          ok (record {
            initiator_id = s.local_id;
            responder_id = s.peer_id;
            session_id = received.session_id;
            epoch = received.epoch;
            authenticator = tag;
          }),
        )
      ]

unfoldable pub accept : Ascon → InitiatorSession → Accept → InitiatorSession × Outcome Finish
accept a s received =
    if not s.started || s.established
    then (s, err SessionError.invalid_state)
    else if received.initiator_id != s.local_id
        || received.responder_id != s.peer_id
        || received.client_nonce != s.hello.client_nonce
    then (s, err SessionError.invalid_transcript)
    else if not (
        authentic (make_auth a s.psk (transcript s.hello (without_auth received)))
          received.authenticator)
    then (s, err SessionError.authentication_failed)
    else elim (derive_directional_keys a s.psk
        (record { value = received.session_id; epoch = received.epoch }) s.local_id s.peer_id) [
          | none ↦ (s, err SessionError.invalid_input)
          | some (initiator_keys, responder_keys) ↦
              accept_keys a (record s { keys = initiator_keys }) received
        ]

pub record ResponderSession : Type 0 where
  pub local_id : ℕ
  pub peer_id : ℕ
  pub psk : List ℕ
  pub hello : Hello
  pub response : Accept
  pub keys : DirectionalKeys
  pub accepted : Bool
  pub established : Bool

unfoldable pub new_responder : ℕ → ℕ → List ℕ → ResponderSession
new_responder local_id peer_id psk = record {
  local_id = local_id;
  peer_id = peer_id;
  psk = psk;
  hello = no_hello;
  response = no_accept;
  keys = no_keys;
  accepted = false;
  established = false;
}

-- `accept_` as `receive_hello` sets it first, without its authenticator.
unfoldable pub offer : ResponderSession → Hello → ℕ → Accept
offer s hello server_nonce = record {
  initiator_id = s.peer_id;
  responder_id = s.local_id;
  client_nonce = hello.client_nonce;
  server_nonce = server_nonce;
  session_id = bit_xor hello.client_nonce server_nonce;
  epoch = 1;
  authenticator = zero_block;
}

-- `receive_hello` from the derivation on, with `accept_` authenticated.
unfoldable pub derive_keys : Ascon → ResponderSession → ResponderSession × Outcome Accept
derive_keys a s =
    elim (derive_directional_keys a s.psk
      (record { value = s.response.session_id; epoch = s.response.epoch }) s.peer_id s.local_id) [
        | none ↦ (s, err SessionError.invalid_input)
        | some (initiator_keys, own_keys) ↦
            (record s { keys = own_keys; accepted = true }, ok s.response)
      ]

unfoldable pub receive_hello :
    Ascon → ResponderSession → Hello → ℕ → ResponderSession × Outcome Accept
receive_hello a s hello server_nonce =
    if s.accepted
      || not (valid_ids s.local_id s.peer_id)
      || hello.initiator_id != s.peer_id
      || hello.responder_id != s.local_id
      || hello.client_nonce == 0
      || server_nonce == 0
    then (s, err (if s.accepted then SessionError.nonce_reuse else SessionError.invalid_input))
    else let offered = offer s hello server_nonce in
      elim (make_auth a s.psk (transcript hello offered)) [
        | none ↦
            (record s { hello = hello; response = offered }, err SessionError.authentication_failed)
        | some tag ↦
            derive_keys a
              (record s { hello = hello; response = record offered { authenticator = tag } })
      ]

unfoldable pub finish : Ascon → ResponderSession → Finish → ResponderSession × Outcome (Unit {0})
finish a s message =
    if not s.accepted
      || s.established
      || message.initiator_id != s.peer_id
      || message.responder_id != s.local_id
      || message.session_id != s.response.session_id
      || message.epoch != s.response.epoch
    then (s, err SessionError.invalid_state)
    else if not (
        authentic
          (make_auth a s.psk (
            finish_input message.initiator_id message.responder_id message.session_id
              message.epoch))
          message.authenticator)
    then (s, err SessionError.authentication_failed)
    else (record s { established = true }, ok tt)
