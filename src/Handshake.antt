-- ===== src/Handshake.antt =====
-- include/new_mavlink/session.hpp and src/session.cpp: the three messages of the handshake, and
-- the state machines of its two sides.
pub mod Codec
pub mod Types
pub mod Refusal
pub mod Sides
pub mod States
pub mod Acceptance
pub mod Establish
use new_mavlink.Common.{
  ℕ, ◌^◌, bit_xor, Bool, true, false, not, ◌&&◌, ◌||◌, List, [], ◌∷◌, Option, none, some, Buffer,
  Pointer, Zeros, put16, put32, put64, get16, get32, get64, read_bytes, write_bytes, bytes_eq, ◌!=◌,
  ◌==◌, if◌then◌else◌, reject_if,
}
use new_mavlink.Common.{length as length_of}
use new_mavlink.Handshake.Types.{
  Hello, Accept, Finish, SessionError, hello_bytes, accept_bytes, finish_bytes, zero_block,
}
use new_mavlink.Crc.{crc16_ccitt}
use new_mavlink.Crypto.{Ascon, pointed, derive_directional_keys}
use new_mavlink.Wire.{SessionId, DirectionalKeys}

unfoldable pub valid_ids : ℕ → ℕ → Bool
valid_ids a b = a != 0 && b != 0 && a != b

-- The 52 bytes that the authenticator of an `Accept` covers.
unfoldable pub transcript : Hello → Accept → List ℕ
transcript hello accept =
    let b = put16 Zeros 0 hello.initiator_id in
    let b = put16 b 2 hello.responder_id in
    let b = put64 b 4 hello.client_nonce in
    let b = put32 b 12 hello.capabilities in
    let b = put16 b 16 accept.initiator_id in
    let b = put16 b 18 accept.responder_id in
    let b = put64 b 20 accept.client_nonce in
    let b = put64 b 28 accept.server_nonce in
    let b = put64 b 36 accept.session_id in let b = put64 b 44 accept.epoch in read_bytes b 0 52

-- The tag of an empty plaintext with `input` as associated data, under a nonce of zeros.
unfoldable pub make_auth : Ascon → List ℕ → List ℕ → Option (List ℕ)
make_auth a psk input = elim (a.encrypt [] input zero_block psk) [
  | none ↦ none
  | some ciphertext ↦ if length_of ciphertext != 16 then none else some ciphertext
]

-- `out` before its check value is written.
unfoldable pub hello_front : Hello → Buffer
hello_front v =
    let out = put16 Zeros 0 v.initiator_id in
    let out = put16 out 2 v.responder_id in
    let out = put64 out 4 v.client_nonce in put32 out 12 v.capabilities

unfoldable pub encode_hello : Hello → Option Buffer
encode_hello v =
    reject_if (not (valid_ids v.initiator_id v.responder_id) || v.client_nonce == 0)
      (if crc16_ccitt (some (hello_front v)) 16 != 0 then some (hello_front v) else none)

unfoldable pub decode_hello : Pointer → ℕ → Option Hello
decode_hello none length = none
decode_hello (some bytes) length =
    reject_if (length != hello_bytes || get16 bytes 16 != crc16_ccitt (some bytes) 16) (
      let v : Hello = record {
        initiator_id = get16 bytes 0;
        responder_id = get16 bytes 2;
        client_nonce = get64 bytes 4;
        capabilities = get32 bytes 12;
      } in
      if valid_ids v.initiator_id v.responder_id && v.client_nonce != 0 then some v else none)

unfoldable pub valid_accept : Accept → Bool
valid_accept v =
    valid_ids v.initiator_id v.responder_id
    && v.client_nonce != 0
    && v.server_nonce != 0
    && v.session_id != 0
    && v.epoch != 0

unfoldable pub accept_front : Accept → Buffer
accept_front v =
    let out = put16 Zeros 0 v.initiator_id in
    let out = put16 out 2 v.responder_id in
    let out = put64 out 4 v.client_nonce in
    let out = put64 out 12 v.server_nonce in
    let out = put64 out 20 v.session_id in put64 out 28 v.epoch

unfoldable pub encode_accept : Accept → Option Buffer
encode_accept v = reject_if (not (valid_accept v)) (
    let out = write_bytes (accept_front v) 36 v.authenticator in
    some (put16 out 52 (crc16_ccitt (some out) 52)))

unfoldable pub read_accept : Buffer → Accept
read_accept bytes = record {
  initiator_id = get16 bytes 0;
  responder_id = get16 bytes 2;
  client_nonce = get64 bytes 4;
  server_nonce = get64 bytes 12;
  session_id = get64 bytes 20;
  epoch = get64 bytes 28;
  authenticator = read_bytes bytes 36 16;
}

unfoldable pub decode_accept : Pointer → ℕ → Option Accept
decode_accept none length = none
decode_accept (some bytes) length =
    reject_if (length != accept_bytes || get16 bytes 52 != crc16_ccitt (some bytes) 52)
      (if valid_accept (read_accept bytes) then some (read_accept bytes) else none)

unfoldable pub valid_finish : Finish → Bool
valid_finish v = valid_ids v.initiator_id v.responder_id && v.session_id != 0 && v.epoch != 0

unfoldable pub finish_front : Finish → Buffer
finish_front v =
    let out = put16 Zeros 0 v.initiator_id in
    let out = put16 out 2 v.responder_id in
    let out = put64 out 4 v.session_id in put64 out 12 v.epoch

unfoldable pub encode_finish : Finish → Option Buffer
encode_finish v = reject_if (not (valid_finish v)) (
    let out = write_bytes (finish_front v) 20 v.authenticator in
    some (put16 out 36 (crc16_ccitt (some out) 36)))

unfoldable pub read_finish : Buffer → Finish
read_finish bytes = record {
  initiator_id = get16 bytes 0;
  responder_id = get16 bytes 2;
  session_id = get64 bytes 4;
  epoch = get64 bytes 12;
  authenticator = read_bytes bytes 20 16;
}

unfoldable pub decode_finish : Pointer → ℕ → Option Finish
decode_finish none length = none
decode_finish (some bytes) length =
    reject_if (length != finish_bytes || get16 bytes 36 != crc16_ccitt (some bytes) 36)
      (if valid_finish (read_finish bytes) then some (read_finish bytes) else none)
