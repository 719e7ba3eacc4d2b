-- ===== src/Record/Session.antt =====
-- src/record.cpp, lines 59 to 65 and 95 to 178: one side of a session. `seal` and `open` work on
-- the state as it is; `commit_replay` and `rekey` change it.
pub mod Seal
pub mod Nonces
pub mod Open
pub mod Delivery
pub mod Extent
pub mod Accepts
pub mod Rekey
pub mod Authentic
use new_mavlink.Common.{length as length_of}
use new_mavlink.Common.{
  ℕ, ◌+◌, ◌-◌, ◌^◌, Bool, true, false, not, ◌&&◌, ◌||◌, List, Option, none, some, Buffer, Pointer,
  Zeros, any_of, bytes_eq, ltb, leb, ◌==◌, ◌!=◌, if◌then◌else◌, write_bytes, u16,
}
use new_mavlink.Crc.{crc16_ccitt}
use new_mavlink.Crypto.{Ascon, aead_seal, aead_open, make_nonce, is_null}
use new_mavlink.Wire.{
  MessageType, Qos, RecordHeader, DirectionalKeys, known_type, qos_code, version_number,
  header_bytes, tag_bytes, max_payload_bytes, max_record_bytes, known_flags,
}
use new_mavlink.Record.Types.{RecordError, OpenRecord, Result, ok, err, fail_if}
use new_mavlink.Record.Replay.{ReplayWindow, empty_window, accepted, commit, reset}
use new_mavlink.Record.Header.{encode_header, decode_header}

pub record Session : Type 0 where
  pub keys : DirectionalKeys
  pub replay : ReplayWindow
  pub send_high_water : ℕ
  pub send_initialized : Bool

unfoldable pub new_session : DirectionalKeys → Session
new_session keys = record {
  keys = keys;
  replay = empty_window;
  send_high_water = 0;
  send_initialized = false;
}

unfoldable pub valid_keys : DirectionalKeys → Bool
valid_keys k =
    k.session.value != 0
    && k.session.epoch != 0
    && k.local_id != 0
    && k.peer_id != 0
    && k.local_id != k.peer_id
    && any_of (λ x. x != 0) k.tx
    && any_of (λ x. x != 0) k.rx
    && not (bytes_eq k.tx k.rx)

-- The condition of `seal` under which the header is refused.
unfoldable pub refuses_header : Session → RecordHeader → Pointer → ℕ → Bool
refuses_header s input plaintext length =
    not (known_type input.type)
    || ltb known_flags input.flags
    || ltb (qos_code Qos.explicit) (qos_code input.qos)
    || input.source_id != s.keys.local_id
    || input.destination_id != s.keys.peer_id
    || input.session_id != s.keys.session.value
    || input.epoch != s.keys.session.epoch
    || ltb max_payload_bytes length
    || is_null plaintext && length != 0
    || input.sequence == 2 ^ 64 - 1
    || s.send_initialized && leb input.sequence s.send_high_water

-- `h` before its check value is computed; `crc16_ccitt(nullptr, 0)` is a placeholder.
unfoldable pub draft_header : RecordHeader → ℕ → RecordHeader
draft_header input length = record input {
  version = version_number;
  payload_len = u16 length;
  header_crc16 = crc16_ccitt none 0;
}

-- `output` after the first call of `encode_header`.
unfoldable pub draft_written : RecordHeader → ℕ → Buffer → Buffer
draft_written input length output = encode_header (draft_header input length) output false

-- The header that goes out.
unfoldable pub sealed_header : RecordHeader → ℕ → Buffer → RecordHeader
sealed_header input length output = record (draft_header input length) {
  header_crc16 = crc16_ccitt (some (draft_written input length output)) 36;
}

-- `output` after the second call of `encode_header`.
unfoldable pub header_written : RecordHeader → ℕ → Buffer → Buffer
header_written input length output =
    encode_header (sealed_header input length output) (draft_written input length output) true

-- `p + n` on a pointer.
abbrev pub at_offset : Buffer → ℕ → Buffer
at_offset m n i = m (n + i)

pub record Sealed : Type 0 where
  pub output : Buffer
  pub output_length : ℕ

unfoldable pub seal :
    Ascon → Session → RecordHeader → Pointer → ℕ → Buffer → Session × Result Sealed
seal a s input plaintext length output =
    if not (valid_keys s.keys)
    then (s, err RecordError.invalid_keys)
    else if refuses_header s input plaintext length
    then (s, err RecordError.invalid_header)
    else let out = header_written input length output in
      let nonce = make_nonce s.keys.session input.sequence in
      elim (aead_seal a s.keys.tx nonce (some out) header_bytes plaintext length
        (some (at_offset out header_bytes)) (max_record_bytes - header_bytes)) [
          | none ↦ (s, err RecordError.authentication_failed)
          | some cipher ↦ (
            record s { send_high_water = input.sequence; send_initialized = true },
            ok (record {
              output = write_bytes out header_bytes cipher;
              output_length = header_bytes + length_of cipher;
            }),
          )
        ]

-- The condition of `open_uncommitted` on a decoded header.
unfoldable pub mismatches : Session → RecordHeader → ℕ → Bool
mismatches s h record_length =
    h.version != version_number
    || not (known_type h.type)
    || ltb known_flags h.flags
    || ltb (qos_code Qos.explicit) (qos_code h.qos)
    || h.source_id != s.keys.peer_id
    || h.destination_id != s.keys.local_id
    || h.session_id != s.keys.session.value
    || h.epoch != s.keys.session.epoch
    || ltb max_payload_bytes h.payload_len
    || record_length != header_bytes + h.payload_len + tag_bytes

-- From the deadline on, with a header that matches.
unfoldable pub open_matching : Ascon → Session → Buffer → ℕ → ℕ → RecordHeader → Result OpenRecord
open_matching a s bytes record_length now_ms h =
    fail_if (h.deadline_ms != 0 && ltb h.deadline_ms now_ms) RecordError.expired (
      fail_if (not (accepted s.replay h.sequence)) RecordError.replay
        (elim (aead_open a s.keys.rx (make_nonce s.keys.session h.sequence) (some bytes)
          header_bytes (some (at_offset bytes header_bytes)) (record_length - header_bytes)
          (some Zeros) max_payload_bytes) [
            | none ↦ err RecordError.authentication_failed
            | some plain ↦ ok (record {
              header = h;
              payload = write_bytes Zeros 0 plain;
              length = length_of plain;
            })
          ]))

unfoldable pub open_decoded :
    Ascon → Session → Buffer → ℕ → ℕ → Option RecordHeader → Result OpenRecord
open_decoded a s bytes record_length now_ms none = err RecordError.invalid_header
open_decoded a s bytes record_length now_ms (some h) =
    fail_if (mismatches s h record_length) RecordError.invalid_header
      (open_matching a s bytes record_length now_ms h)

unfoldable pub open_uncommitted : Ascon → Session → Pointer → ℕ → ℕ → Result OpenRecord
unfolding open_decoded
open_uncommitted a s none record_length now_ms =
    if not (valid_keys s.keys) then err RecordError.invalid_keys else err RecordError.invalid_length
open_uncommitted a s (some bytes) record_length now_ms =
    fail_if (not (valid_keys s.keys)) RecordError.invalid_keys (
      fail_if (ltb record_length (header_bytes + tag_bytes) || ltb max_record_bytes record_length)
        RecordError.invalid_length
        (open_decoded a s bytes record_length now_ms (decode_header (some bytes))))

unfoldable pub commit_replay : Session → OpenRecord → Session × Result (Unit {0})
commit_replay s opened =
    let (window, committed) = commit s.replay opened.header.sequence in
    if committed then (record s { replay = window }, ok tt) else (s, err RecordError.replay)

unfoldable pub refuses_keys : DirectionalKeys → DirectionalKeys → Bool
refuses_keys keys next =
    not (valid_keys next)
    || next.local_id != keys.local_id
    || next.peer_id != keys.peer_id
    || next.session.value != keys.session.value
    || leb next.session.epoch keys.session.epoch

unfoldable pub rekey : Session → DirectionalKeys → Session × Result (Unit {0})
rekey s next = if refuses_keys s.keys next then (s, err RecordError.invalid_header) else (
  record s { keys = next; replay = reset s.replay; send_high_water = 0; send_initialized = false },
  ok tt,
)
