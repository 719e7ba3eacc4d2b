-- ===== src/Crypto.antt =====
-- src/crypto.cpp and include/new_mavlink/crypto.hpp: key derivation, the AEAD wrappers and the
-- nonce. Ascon itself is third-party code: its three C functions are the record `Ascon`, an
-- argument of whatever calls them. `wipe` clears locals that nothing reads again.
pub mod Nonce
pub mod Keys
pub mod Aead
use new_mavlink.Common.{
  ℕ, zero, suc, ◌+◌, ◌-◌, ◌*◌, ◌/◌, ◌^◌, ◌≤◌, ◌≡◌, bit_xor, Bool, true, false, ◌||◌, ◌&&◌, List, [],
  ◌∷◌, Option, none, some, Buffer, Pointer, Zeros, set_at, put16, put64, ltb, ◌==◌, ◌!=◌,
  if◌then◌else◌, length, reject_if, u8, read_bytes, write_bytes,
}
use new_mavlink.Wire.{SessionId, DirectionalKeys, tag_bytes, max_payload_bytes}

-- `crypto_auth`, `crypto_aead_encrypt` and `crypto_aead_decrypt` on what their pointers and
-- lengths denote. A result is the bytes written, where the return code is 0.
pub record Ascon : Type 0 where
  -- input, key
  pub auth : List ℕ → List ℕ → Option (List ℕ)
  -- plaintext, associated data, nonce, key
  pub encrypt : List ℕ → List ℕ → List ℕ → List ℕ → Option (List ℕ)
  -- ciphertext, associated data, nonce, key
  pub decrypt : List ℕ → List ℕ → List ℕ → List ℕ → Option (List ℕ)

-- What the interface documents: a ciphertext is 16 bytes longer than its plaintext, decrypts to
-- it under the same key, nonce and associated data, and nothing else decrypts.
pub record IsAead (a : Ascon) : Type 0 where
  pub adds_tag :
      (p ad n k c : List ℕ) → a.encrypt p ad n k ≡ some c → length c ≡ length p + tag_bytes
  pub decrypts : (p ad n k c : List ℕ) → a.encrypt p ad n k ≡ some c → a.decrypt c ad n k ≡ some p
  pub authentic : (p ad n k c : List ℕ) → a.decrypt c ad n k ≡ some p → a.encrypt p ad n k ≡ some c

-- The return code of the two C functions is 0.
pub record Answers (a : Ascon) : Type 0 where
  pub auth : (input key : List ℕ) → (tag : List ℕ) × (a.auth input key ≡ some tag)
  pub encrypt :
      (p ad nonce key : List ℕ)
      → (c : List ℕ) × (a.encrypt p ad nonce key ≡ some c) × (length c ≡ length p + tag_bytes)

-- What a pointer and a length denote.
abbrev pub pointed : Pointer → ℕ → List ℕ
pointed none length = []
pointed (some m) length = read_bytes m 0 length

abbrev pub is_null : Pointer → Bool
is_null none = true
is_null (some m) = false

infixl 5 ◌>>=◌
abbrev ◌>>=◌ : {A B : Type 0} → Option A → (A → Option B) → Option B
none >>= f = none
some a >>= f = f a

-- The four bytes of `block` behind the `info_length` bytes of `info`.
unfoldable pub prf_input : Buffer → ℕ → ℕ → Buffer
unfolding set_at
prf_input info n block =
    let input = write_bytes Zeros 0 (read_bytes info 0 n) in
    let input = set_at input (n + 0) (u8 block) in
    let input = set_at input (n + 1) (u8 (block / 2 ^ 8)) in
    let input = set_at input (n + 2) (u8 (block / 2 ^ 16)) in
    set_at input (n + 3) (u8 (block / 2 ^ 24))

unfoldable pub prf_block : Ascon → List ℕ → Pointer → ℕ → ℕ → Option (List ℕ)
prf_block a psk none info_length block = none
prf_block a psk (some info) info_length block =
    reject_if (ltb 96 info_length)
      (a.auth (read_bytes (prf_input info info_length block) 0 (info_length + 4)) psk)

-- The 28 bytes that a directional key is derived from.
unfoldable pub key_info : List ℕ → SessionId → ℕ → ℕ → Buffer
key_info label session first_id second_id =
    let info = write_bytes Zeros 0 label in
    let info = put64 info 8 session.value in
    let info = put64 info 16 session.epoch in
    let info = put16 info 24 first_id in put16 info 26 second_id

unfoldable pub derive_one : Ascon → List ℕ → List ℕ → SessionId → ℕ → ℕ → Option (List ℕ)
derive_one a psk label session first_id second_id =
    reject_if (ltb 8 (length label))
      (prf_block a psk (some (key_info label session first_id second_id)) 28 0)

-- "NM-TX" and "NM-RX"
abbrev pub tx_label : List ℕ
tx_label = b'N' ∷ b'M' ∷ b'-' ∷ b'T' ∷ b'X' ∷ []

abbrev pub rx_label : List ℕ
rx_label = b'N' ∷ b'M' ∷ b'-' ∷ b'R' ∷ b'X' ∷ []

-- The keys of the two sides, `first` and `second`.
unfoldable pub derive_directional_keys :
    Ascon → List ℕ → SessionId → ℕ → ℕ → Option (DirectionalKeys × DirectionalKeys)
derive_directional_keys a psk session first_id second_id =
    reject_if
      (session.value == 0
        || session.epoch == 0
        || first_id == 0
        || second_id == 0
        || first_id == second_id)
      do
        first_tx ← derive_one a psk tx_label session first_id second_id
        second_tx ← derive_one a psk rx_label session first_id second_id
        some (
          record {
            session = session;
            local_id = first_id;
            peer_id = second_id;
            tx = first_tx;
            rx = second_tx;
          },
          record {
            session = session;
            local_id = second_id;
            peer_id = first_id;
            tx = second_tx;
            rx = first_tx;
          },
        )

-- The first eight bytes are the session's, the last eight `epoch ^ sequence`.
unfoldable pub make_nonce : SessionId → ℕ → List ℕ
make_nonce session sequence =
    read_bytes (put64 (put64 Zeros 0 session.value) 8 (bit_xor session.epoch sequence)) 0 16

-- The bytes stored at `ciphertext`, whose number is the length that the source returns.
unfoldable pub aead_seal :
    Ascon → List ℕ → List ℕ → Pointer → ℕ → Pointer → ℕ → Pointer → ℕ → Option (List ℕ)
aead_seal a key nonce aad aad_length plaintext plaintext_length ciphertext capacity =
    reject_if
      (is_null ciphertext
        || ltb capacity (plaintext_length + tag_bytes)
        || is_null aad && aad_length != 0
        || is_null plaintext && plaintext_length != 0
        || ltb max_payload_bytes plaintext_length)
      do
        out ← a.encrypt (pointed plaintext plaintext_length) (pointed aad aad_length) nonce key
        if length out != plaintext_length + tag_bytes then none else some out

unfoldable pub aead_open :
    Ascon → List ℕ → List ℕ → Pointer → ℕ → Pointer → ℕ → Pointer → ℕ → Option (List ℕ)
aead_open a key nonce aad aad_length ciphertext ciphertext_length plaintext capacity =
    reject_if
      (is_null ciphertext
        || ltb ciphertext_length tag_bytes
        || is_null plaintext
        || ltb capacity (ciphertext_length - tag_bytes)
        || ltb (max_payload_bytes + tag_bytes) ciphertext_length
        || is_null aad && aad_length != 0)
      do
        out ← a.decrypt (pointed ciphertext ciphertext_length) (pointed aad aad_length) nonce key
        if length out != ciphertext_length - tag_bytes then none else some out
