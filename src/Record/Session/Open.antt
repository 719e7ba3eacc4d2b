-- ===== src/Record/Session/Open.antt =====
-- src/record.cpp, lines 133 to 163: the receiver opens what its peer sealed.
use new_mavlink.Common.{
  ℕ, zero, suc, ◌+◌, ◌-◌, ◌≤◌, ◌<◌, ◌^◌, ◌≡◌, ◌⊎◌, refl, sym, ap, subst, ◌∙◌, true, false, List, [],
  ◌∷◌, some, Buffer, Zeros, read_bytes, write_bytes, write_bytes-below, read_bytes-write_bytes,
  read_bytes_ext, length, length-read_bytes, bytes_eq, arith,
}
use new_mavlink.Crc.{crc16_ccitt}
use new_mavlink.Crc.Laws.{crc16_ccitt_ext}
use new_mavlink.Crypto.{Ascon, IsAead, aead_open, make_nonce}
use new_mavlink.Crypto.Keys.{Mirrors}
use new_mavlink.Crypto.Aead.{aead_open_lem}
use new_mavlink.Wire.{
  RecordHeader, DirectionalKeys, SessionId, header_bytes, tag_bytes, max_payload_bytes,
}
use new_mavlink.Wire.Classes.{IsNamed}
use new_mavlink.Record.Types.{OpenRecord, ok}
use new_mavlink.Record.Replay.{accepted}
use new_mavlink.Record.Header.{encode_front, decode_header}
use new_mavlink.Record.Header.RoundTrip.{
  FitsHeader, front_byte, front_crc, decode_header-encode_header,
}
use new_mavlink.Record.Session.{
  Session, Sealed, valid_keys, draft_header, draft_written, sealed_header, header_written,
  at_offset, mismatches, open_matching,
}
use new_mavlink.Record.Session.Seal.{Admits, Seals}

-- The widths of the keys' numbers.
pub record FitsKeys (k : DirectionalKeys) : Type 0 where
  pub value : k.session.value < 2 ^ 64
  pub epoch : k.session.epoch < 2 ^ 64
  pub local_id : k.local_id < 2 ^ 16
  pub peer_id : k.peer_id < 2 ^ 16

bytes_eq_comm : (xs ys : List ℕ) → bytes_eq xs ys ≡ bytes_eq ys xs
bytes_eq_comm [] [] = refl
bytes_eq_comm [] (y ∷ ys) = refl
bytes_eq_comm (x ∷ xs) [] = refl
bytes_eq_comm (x ∷ xs) (y ∷ ys) = ground (arith, bytes_eq_comm xs ys)

-- The peer's keys are valid with one's own.
pub Mirrors-valid_keys :
    (k l : DirectionalKeys) → Mirrors k l → valid_keys k ≡ true → valid_keys l ≡ true
unfolding valid_keys
Mirrors-valid_keys k l m v = ground (
  arith,
  m.session,
  m.ids.0,
  m.ids.1,
  m.keys.0,
  m.keys.1,
  bytes_eq_comm k.tx k.rx,
  ap (λ (s : SessionId). s.value) m.session,
  ap (λ (s : SessionId). s.epoch) m.session,
)

module _ (h : RecordHeader) (size : ℕ) (output : Buffer) where
  -- The check value that goes out is the CRC of the front that goes out.
  pub sealed_header_crc :
      (sealed_header h size output).header_crc16
      ≡ crc16_ccitt
          (some (encode_front (sealed_header h size output) (draft_written h size output)))
          36
  unfolding sealed_header draft_written
  sealed_header_crc =
      crc16_ccitt_ext (draft_written h size output)
        (encode_front (sealed_header h size output) (draft_written h size output)) 36
        λ i lt.
          front_byte (draft_header h size) output false i lt
          ∙ sym (
              front_crc (draft_header h size) (crc16_ccitt (some (draft_written h size output)) 36)
                (draft_written h size output) output i lt)

  -- Below offset 40 a sealed record is its header, and decodes to it.
  pub decode_sealed :
      (cipher : List ℕ)
      → FitsHeader (sealed_header h size output)
      → decode_header (some (write_bytes (header_written h size output) header_bytes cipher))
        ≡ some (sealed_header h size output)
  unfolding header_written
  decode_sealed cipher fits =
      decode_header-encode_header (sealed_header h size output) (draft_written h size output) _ fits
        sealed_header_crc
        (λ i lt. write_bytes-below (header_written h size output) header_bytes cipher i lt)

-- What the caller of `seal` must give beyond what `seal` checks: numbers of their widths, a named
-- level, a deadline that has not passed, and a sequence number that the receiver's window admits.
pub record Deliverable (s r : Session) (h : RecordHeader) (now_ms : ℕ) : Type 0 where
  pub mirrors : Mirrors s.keys r.keys
  pub keys : FitsKeys s.keys
  pub qos : IsNamed h.qos
  pub sequence : h.sequence < 2 ^ 64
  pub deadline_ms : h.deadline_ms < 2 ^ 16
  pub in_time : (h.deadline_ms ≡ 0) ⊎ (now_ms ≤ h.deadline_ms)
  pub admitted : accepted r.replay h.sequence ≡ true

pub sealed_fits :
    (s : Session) (h : RecordHeader) (size : ℕ) (output : Buffer)
    → FitsKeys s.keys
    → Admits s h size
    → IsNamed h.qos
    → h.sequence < 2 ^ 64
    → h.deadline_ms < 2 ^ 16
    → FitsHeader (sealed_header h size output)
unfolding sealed_header draft_header
sealed_fits s h size output k ad q sq d = record {
  type = ad.type;
  qos = q;
  source_id = rw ad.source k.local_id;
  destination_id = rw ad.destination k.peer_id;
  session_id = rw ad.session_id k.value;
  epoch = rw ad.epoch k.epoch;
  sequence = sq;
  payload_len = omega arith;
  deadline_ms = d;
}

pub matches :
    (s r : Session) (h : RecordHeader) (size : ℕ) (output : Buffer)
    → Mirrors s.keys r.keys
    → Admits s h size
    → mismatches r (sealed_header h size output) (header_bytes + (size + tag_bytes)) ≡ false
unfolding mismatches sealed_header draft_header
matches s r h size output m ad = ground (
  arith,
  m.ids.0,
  m.ids.1,
  ap (λ (s : SessionId). s.value) m.session,
  ap (λ (s : SessionId). s.epoch) m.session,
)

read_shifted : (m : Buffer) (p q n : ℕ) → read_bytes (at_offset m p) q n ≡ read_bytes m (p + q) n
unfolding read_bytes
read_shifted m p q zero = refl
read_shifted m p q (suc n) =
    let e : p + (q + 1) ≡ p + q + 1 = omega arith in
    ap (◌∷◌ (m (p + q))) (read_shifted m p (q + 1) n ∙ ap (λ (t : ℕ). read_bytes m t n) e)

module _ (a : Ascon) (aead : IsAead a) (s r : Session) (h : RecordHeader) (plain : Buffer)
    (size : ℕ) (output : Buffer) (s' : Session) (sealed : Sealed) (now_ms : ℕ)
    (done : Seals a s h (some plain) size output s' sealed) (ready : Deliverable s r h now_ms) where
  abbrev pub wire : Buffer
  wire = write_bytes (header_written h size output) header_bytes done.cipher

  wire_cipher : read_bytes (at_offset wire header_bytes) 0 (size + tag_bytes) ≡ done.cipher
  wire_cipher =
      read_shifted wire header_bytes 0 (size + tag_bytes)
      ∙ subst (λ n. read_bytes wire header_bytes n ≡ done.cipher) done.cipher_size
          (read_bytes-write_bytes (header_written h size output) header_bytes done.cipher)

  wire_header :
      read_bytes wire 0 header_bytes ≡ read_bytes (header_written h size output) 0 header_bytes
  wire_header = read_bytes_ext wire (header_written h size output) 0 header_bytes (λ i lo hi.
      write_bytes-below (header_written h size output) header_bytes done.cipher i (omega arith))

  decrypted :
      a.decrypt
        (read_bytes (at_offset wire header_bytes) 0 (size + tag_bytes))
        (read_bytes wire 0 header_bytes)
        (make_nonce r.keys.session h.sequence)
        r.keys.rx
      ≡ some (read_bytes plain 0 size)
  decrypted =
      rw (wire_cipher, wire_header, ← ready.mirrors.session, ← ready.mirrors.keys.0)
        (aead.decrypts (read_bytes plain 0 size) _ _ _ done.cipher done.encrypted)

  opened_bytes :
      aead_open a r.keys.rx
        (make_nonce r.keys.session h.sequence)
        (some wire)
        header_bytes
        (some (at_offset wire header_bytes))
        (size + tag_bytes)
        (some Zeros)
        max_payload_bytes
      ≡ some (read_bytes plain 0 size)
  opened_bytes =
      aead_open_lem a r.keys.rx _ wire header_bytes (at_offset wire header_bytes) (size + tag_bytes)
        Zeros max_payload_bytes (read_bytes plain 0 size) decrypted
        (omega (arith, length-read_bytes plain 0 size)) (omega arith)
        (omega (arith, done.admitted.fits)) (omega (arith, done.admitted.fits))

  abbrev pub opened : OpenRecord
  opened = record {
    header = sealed_header h size output;
    payload = write_bytes Zeros 0 (read_bytes plain 0 size);
    length = length (read_bytes plain 0 size);
  }

  pub matching :
      open_matching a r wire
        (header_bytes + (size + tag_bytes))
        now_ms
        (sealed_header h size output)
      ≡ ok opened
  unfolding open_matching sealed_header draft_header
  matching =
      let e : header_bytes + (size + tag_bytes) - header_bytes ≡ size + tag_bytes = omega arith in
      ground (arith, e, opened_bytes, ready.in_time, ready.admitted)
