-- ===== src/Record/Session/Seal.antt =====
-- src/record.cpp, lines 97 to 131: what a successful `seal` checked and wrote.
use new_mavlink.Common.{
  ℕ, ◌+◌, ◌-◌, ◌≤◌, ◌^◌, ◌≡◌, ◌≢◌, inl, inr, true, false, List, Option, some, Buffer, Pointer,
  read_bytes, write_bytes, length, Option-cases, arith, leb, ◌&&◌,
}
use new_mavlink.Crypto.{Ascon, aead_seal, make_nonce, pointed}
use new_mavlink.Crypto.Aead.{aead_seal_inv}
use new_mavlink.Wire.{
  RecordHeader, Qos, qos_code, header_bytes, tag_bytes, known_type, known_flags, max_payload_bytes,
  max_record_bytes,
}
use new_mavlink.Record.Types.{RecordError, ok, err}
use new_mavlink.Record.Session.{
  Session, Sealed, valid_keys, refuses_header, header_written, at_offset, seal,
}

-- What the guard of `seal` establishes.
pub record Admits (s : Session) (h : RecordHeader) (size : ℕ) : Type 0 where
  pub type : known_type h.type ≡ true
  pub flags : h.flags ≤ known_flags
  pub qos : qos_code h.qos ≤ qos_code Qos.explicit
  pub source : h.source_id ≡ s.keys.local_id
  pub destination : h.destination_id ≡ s.keys.peer_id
  pub session_id : h.session_id ≡ s.keys.session.value
  pub epoch : h.epoch ≡ s.keys.session.epoch
  pub fits : size ≤ max_payload_bytes
  pub sequence : h.sequence ≢ 2 ^ 64 - 1
  pub later : s.send_initialized && leb h.sequence s.send_high_water ≡ false

pub admits :
    (s : Session) (h : RecordHeader) (plaintext : Pointer) (size : ℕ)
    → refuses_header s h plaintext size ≡ false
    → Admits s h size
unfolding refuses_header
admits s h plaintext size e = ground arith

-- What a successful call did: the guards passed, the cipher ran on the header that was written,
-- and the state remembers the sequence number.
pub record Seals (a : Ascon) (s : Session) (h : RecordHeader) (plaintext : Pointer) (size : ℕ)
    (output : Buffer) (s' : Session) (sealed : Sealed) : Type 0 where
  pub valid : valid_keys s.keys ≡ true
  pub admitted : Admits s h size
  pub cipher : List ℕ
  pub encrypted :
      a.encrypt
        (pointed plaintext size)
        (read_bytes (header_written h size output) 0 header_bytes)
        (make_nonce s.keys.session h.sequence)
        s.keys.tx
      ≡ some cipher
  pub cipher_size : length cipher ≡ size + tag_bytes
  pub written : sealed.output ≡ write_bytes (header_written h size output) header_bytes cipher
  pub total : sealed.output_length ≡ header_bytes + length cipher
  pub state : s' ≡ record s { send_high_water = h.sequence; send_initialized = true }

module _ (a : Ascon) (s : Session) (h : RecordHeader) (plaintext : Pointer) (size : ℕ)
    (output : Buffer) where
  abbrev sealing : Option (List ℕ)
  sealing =
      let out = header_written h size output in
      aead_seal a s.keys.tx (make_nonce s.keys.session h.sequence) (some out) header_bytes plaintext
        size (some (at_offset out header_bytes)) (max_record_bytes - header_bytes)

  pub seal_inv :
      (s' : Session) (sealed : Sealed)
      → seal a s h plaintext size output ≡ (s', ok sealed)
      → Seals a s h plaintext size output s' sealed
  unfolding seal
  seal_inv s' sealed e = elim (Option-cases sealing) [
    | inl failed ↦ absurd (ground arith)
    | inr (c, done) ↦
        let (enc, len, _) =
          aead_seal_inv a s.keys.tx (make_nonce s.keys.session h.sequence)
            (header_written h size output) header_bytes plaintext size
            (at_offset (header_written h size output) header_bytes)
            (max_record_bytes - header_bytes) c done in
        record {
          valid = ground arith;
          admitted = admits s h plaintext size (ground arith);
          cipher = c;
          encrypted = enc;
          cipher_size = len;
          written = ground arith;
          total = ground arith;
          state = ground arith;
        }
  ]

  -- If `seal` returns an error, the session is as it was.
  pub seal_failure :
      (s' : Session) (error : RecordError)
      → seal a s h plaintext size output ≡ (s', err error)
      → (s' ≡ s)
  unfolding seal
  seal_failure s' error e = elim (Option-cases sealing) [
    | inl failed ↦ ground arith
    | inr (c, done) ↦ ground arith
  ]
