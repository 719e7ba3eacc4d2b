-- ===== src/Record/Header.antt =====
-- src/record.cpp, lines 29 to 57: the 40 bytes of a header, which are also the associated data.
pub mod RoundTrip
pub mod Errors
use new_mavlink.Common.{
  ℕ, Bool, true, false, ◌&&◌, ◌||◌, Option, none, some, Buffer, Pointer, set_at, put16, put64,
  get16, get64, ◌==◌, ◌!=◌, if◌then◌else◌, reject_if,
}
use new_mavlink.Crc.{crc16_ccitt}
use new_mavlink.Wire.{RecordHeader, type_code, type_of_code, qos_code, qos_of_code}

-- The first 36 bytes, which the check value covers.
unfoldable pub encode_front : RecordHeader → Buffer → Buffer
unfolding set_at put16 put64
encode_front h out =
    let out = set_at (set_at out 0 h.version) 1 h.flags in
    let out = set_at (set_at out 2 (type_code h.type)) 3 (qos_code h.qos) in
    let out = put16 (put16 out 4 h.source_id) 6 h.destination_id in
    let out = put64 (put64 (put64 out 8 h.session_id) 16 h.epoch) 24 h.sequence in
    put16 (put16 out 32 h.payload_len) 34 h.deadline_ms

unfoldable pub encode_header : RecordHeader → Buffer → Bool → Buffer
encode_header h out with_crc =
    put16 (put16 (encode_front h out) 36 (if with_crc then h.header_crc16 else 0)) 38 0

unfoldable pub read_header : Buffer → RecordHeader
unfolding get16 get64
read_header bytes = record {
  version = bytes 0;
  flags = bytes 1;
  type = type_of_code (bytes 2);
  qos = qos_of_code (bytes 3);
  source_id = get16 bytes 4;
  destination_id = get16 bytes 6;
  session_id = get64 bytes 8;
  epoch = get64 bytes 16;
  sequence = get64 bytes 24;
  payload_len = get16 bytes 32;
  deadline_ms = get16 bytes 34;
  header_crc16 = get16 bytes 36;
}

unfoldable pub decode_header : Pointer → Option RecordHeader
decode_header none = none
decode_header (some bytes) = reject_if (bytes 38 != 0 || bytes 39 != 0) (
    let h = read_header bytes in
    if crc16_ccitt (some bytes) 36 == h.header_crc16 then some h else none)
