-- ===== src/Record/Session/Accepts.antt =====
-- src/record.cpp, lines 97 to 131: when `seal` succeeds.
use new_mavlink.Common.{
  ℕ, ◌+◌, ◌-◌, ◌≡◌, refl, true, false, some, Buffer, read_bytes, write_bytes, length,
  length-read_bytes, arith,
}
use new_mavlink.Crypto.{Ascon, Answers, make_nonce}
use new_mavlink.Crypto.Aead.{aead_seal_lem}
use new_mavlink.Wire.{RecordHeader, header_bytes, tag_bytes, max_record_bytes}
use new_mavlink.Record.Types.{ok}
use new_mavlink.Record.Session.{
  Session, Sealed, valid_keys, refuses_header, header_written, at_offset, seal,
}
use new_mavlink.Record.Session.Nonces.{remembered}
use new_mavlink.Record.Session.Seal.{admits}

-- With valid keys and a cipher whose functions return 0, `seal` accepts every header that its guard
-- does not refuse, and remembers its sequence number.
pub seal_lem :
    (a : Ascon) (answers : Answers a) (s : Session) (h : RecordHeader) (plain : Buffer) (size : ℕ)
    (output : Buffer)
    → valid_keys s.keys ≡ true
    → refuses_header s h (some plain) size ≡ false
    → (sealed : Sealed) × (seal a s h (some plain) size output
        ≡ (remembered s h.sequence, ok sealed))
      × (sealed.output_length ≡ header_bytes + (size + tag_bytes))
unfolding seal
seal_lem a answers s h plain size output valid good =
    let out = header_written h size output in
    let nonce = make_nonce s.keys.session h.sequence in
    let (c, e, n) =
      answers.encrypt (read_bytes plain 0 size) (read_bytes out 0 header_bytes) nonce s.keys.tx in
    let fits = (admits s h (some plain) size good).fits in
    let whole : length c ≡ size + tag_bytes = omega (arith, n, length-read_bytes plain 0 size) in
    let done =
      aead_seal_lem a s.keys.tx nonce out header_bytes (some plain) size
        (at_offset out header_bytes) (max_record_bytes - header_bytes) c e whole (omega arith) refl
        fits in
    (
      record { output = write_bytes out header_bytes c; output_length = header_bytes + length c },
      rw (valid, good, done) refl,
      omega (arith, whole),
    )
