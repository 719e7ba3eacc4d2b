-- ===== src/Record/Header/RoundTrip.antt =====
-- A header that was encoded with its check value decodes to itself.
use new_mavlink.Common.{
  ℕ, ◌<◌, ◌^◌, ◌≡◌, refl, sym, ◌∙◌, true, some, none, Buffer, set_at, put16, put64, get16_lem,
  get64_lem, put16-below, if◌then◌else◌, ◌==◌, ==_refl, arith, Bool, get16_ext, get64_ext,
}
use new_mavlink.Crc.{crc16_ccitt}
use new_mavlink.Crc.Laws.{crc16_ccitt-lt, crc16_ccitt_ext}
use new_mavlink.Wire.{RecordHeader, type_of_code, qos_of_code, known_type}
use new_mavlink.Wire.Classes.{type_of_code-type_code, qos_of_code-qos_code, IsNamed}
use new_mavlink.Record.Header.{encode_front, encode_header, read_header, decode_header}

-- The widths of the fields, and enumerators that the source names.
pub record FitsHeader (h : RecordHeader) : Type 0 where
  pub type : known_type h.type ≡ true
  pub qos : IsNamed h.qos
  pub source_id : h.source_id < 2 ^ 16
  pub destination_id : h.destination_id < 2 ^ 16
  pub session_id : h.session_id < 2 ^ 64
  pub epoch : h.epoch < 2 ^ 64
  pub sequence : h.sequence < 2 ^ 64
  pub payload_len : h.payload_len < 2 ^ 16
  pub deadline_ms : h.deadline_ms < 2 ^ 16

-- The front is the same whatever is written behind it.
pub front_byte :
    (h : RecordHeader) (out : Buffer) (c : Bool) (i : ℕ)
    → i < 36
    → encode_header h out c i ≡ encode_front h out i
unfolding encode_header
front_byte h out c i lt =
    put16-below (put16 (encode_front h out) 36 (if c then h.header_crc16 else 0)) 38 0 i
      (omega arith)
    ∙ put16-below (encode_front h out) 36 (if c then h.header_crc16 else 0) i lt

-- The front does not depend on the check value or on what the buffer held.
pub front_crc :
    (h : RecordHeader) (crc : ℕ) (out out' : Buffer) (i : ℕ)
    → i < 36
    → encode_front (record h { header_crc16 = crc }) out i ≡ encode_front h out' i
unfolding encode_front
front_crc h crc out out' i lt = ground arith

read_encoded :
    (h : RecordHeader) (out : Buffer)
    → FitsHeader h
    → h.header_crc16 < 2 ^ 16
    → read_header (encode_header h out true) ≡ h
unfolding read_header encode_header encode_front put16 put64 set_at
read_encoded h out fits crc = λ i. record {
  version = h.version;
  flags = h.flags;
  type = type_of_code-type_code h.type fits.type i;
  qos = qos_of_code-qos_code h.qos fits.qos i;
  source_id = get16_lem (encode_header h out true) 4 h.source_id fits.source_id (refl, refl) i;
  destination_id =
      get16_lem (encode_header h out true) 6 h.destination_id fits.destination_id (refl, refl) i;
  session_id =
      get64_lem (encode_header h out true) 8 h.session_id fits.session_id
        (refl, refl, refl, refl, refl, refl, refl, refl) i;
  epoch =
      get64_lem (encode_header h out true) 16 h.epoch fits.epoch
        (refl, refl, refl, refl, refl, refl, refl, refl) i;
  sequence =
      get64_lem (encode_header h out true) 24 h.sequence fits.sequence
        (refl, refl, refl, refl, refl, refl, refl, refl) i;
  payload_len =
      get16_lem (encode_header h out true) 32 h.payload_len fits.payload_len (refl, refl) i;
  deadline_ms =
      get16_lem (encode_header h out true) 34 h.deadline_ms fits.deadline_ms (refl, refl) i;
  header_crc16 = get16_lem (encode_header h out true) 36 h.header_crc16 crc (refl, refl) i;
}

accept_header :
    (c : ℕ) (v w : RecordHeader)
    → v ≡ w
    → c ≡ w.header_crc16
    → (if c == v.header_crc16 then some v else none) ≡ some w
accept_header c v w e k = rw (e, k, ==_refl w.header_crc16)

-- A decoder of 40 bytes sees nothing else of the buffer.
pub read_header_ext :
    (m m' : Buffer) → ((i : ℕ) → i < 40 → m i ≡ m' i) → read_header m ≡ read_header m'
unfolding read_header
read_header_ext m m' same = λ i. record {
  version = same 0 (omega arith) i;
  flags = same 1 (omega arith) i;
  type = type_of_code (same 2 (omega arith) i);
  qos = qos_of_code (same 3 (omega arith) i);
  source_id = get16_ext m m' 4 (λ j lo hi. same j (omega arith)) i;
  destination_id = get16_ext m m' 6 (λ j lo hi. same j (omega arith)) i;
  session_id = get64_ext m m' 8 (λ j lo hi. same j (omega arith)) i;
  epoch = get64_ext m m' 16 (λ j lo hi. same j (omega arith)) i;
  sequence = get64_ext m m' 24 (λ j lo hi. same j (omega arith)) i;
  payload_len = get16_ext m m' 32 (λ j lo hi. same j (omega arith)) i;
  deadline_ms = get16_ext m m' 34 (λ j lo hi. same j (omega arith)) i;
  header_crc16 = get16_ext m m' 36 (λ j lo hi. same j (omega arith)) i;
}

decode_header_lem :
    (m : Buffer) (h : RecordHeader)
    → m 38 ≡ 0
    → m 39 ≡ 0
    → read_header m ≡ h
    → crc16_ccitt (some m) 36 ≡ h.header_crc16
    → decode_header (some m) ≡ some h
unfolding decode_header
decode_header_lem m h a b e c =
    rw (a, b) (accept_header (crc16_ccitt (some m) 36) (read_header m) h e c)

padding :
    (h : RecordHeader) (out : Buffer)
    → (encode_header h out true 38 ≡ 0) × (encode_header h out true 39 ≡ 0)
unfolding encode_header put16 set_at
padding h out = (refl, refl)

-- A header of known type and named level, with numbers of their widths and the check value of its
-- first 36 bytes, is decoded from any buffer whose first 40 bytes are those that `encode_header`
-- writes.
pub decode_header-encode_header :
    (h : RecordHeader) (out m : Buffer)
    → FitsHeader h
    → h.header_crc16 ≡ crc16_ccitt (some (encode_front h out)) 36
    → ((i : ℕ) → i < 40 → m i ≡ encode_header h out true i)
    → decode_header (some m) ≡ some h
decode_header-encode_header h out m fits e same =
    let (p, q) = padding h out in
    let checked =
      crc16_ccitt_ext m (encode_front h out) 36
        (λ i lt. same i (omega arith) ∙ front_byte h out true i lt) in
    let narrow : h.header_crc16 < 2 ^ 16 = rw e (crc16_ccitt-lt (encode_front h out) 36) in
    decode_header_lem m h (same 38 (omega arith) ∙ p) (same 39 (omega arith) ∙ q)
      (read_header_ext m (encode_header h out true) same ∙ read_encoded h out fits narrow)
      (checked ∙ sym e)
