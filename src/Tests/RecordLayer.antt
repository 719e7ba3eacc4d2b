-- ===== src/Tests/RecordLayer.antt =====
-- The record layer at concrete inputs.
use new_mavlink.Common.{
  ℕ, zero, suc, ◌+◌, ◌^◌, ◌<◌, ◌≤◌, ◌≡◌, ◌≢◌, ◌⊎◌, inl, inr, refl, sym, ap, ◌∙◌, Bool, true, false,
  List, [], ◌∷◌, ◌++◌, map, Option, none, some, Buffer, Zeros, read_bytes, write_bytes, length, All,
  arith, u8, set_at, put16, get16, ltb, if◌then◌else◌,
}
use new_mavlink.Crypto.{make_nonce, derive_directional_keys}
use new_mavlink.Crc.{crc16_ccitt}
use new_mavlink.Wire.{
  MessageType, Qos, SessionId, RecordHeader, DirectionalKeys, default_header, header_bytes,
  tag_bytes, qos_code,
}
use new_mavlink.Record.Types.{RecordError, OpenRecord, ok, err}
use new_mavlink.Record.Replay.{empty_window, accepted, commit}
use new_mavlink.Record.Replay.Window.{
  Represents, empty_window-Represents, commit-Represents, fresh, remember,
}
use new_mavlink.Record.Replay.History.{commit_all, replay_refused}
use new_mavlink.Record.Header.{encode_header, decode_header, read_header}
use new_mavlink.Record.Header.Errors.{one_byte_refused}
use new_mavlink.Record.Header.RoundTrip.{FitsHeader, decode_header-encode_header}
use new_mavlink.Record.Session.{
  Session, Sealed, new_session, draft_written, sealed_header, header_written, at_offset, seal,
  mismatches, open_uncommitted, commit_replay, rekey, refuses_header, valid_keys,
}
use new_mavlink.Record.Session.Seal.{seal_failure, seal_inv}
use new_mavlink.Record.Session.Open.{Deliverable, sealed_fits, sealed_header_crc}
use new_mavlink.Record.Session.Delivery.{delivered, open-seal}
use new_mavlink.Record.Session.Nonces.{
  Call, sent, Encrypted, AllDistinct, nonces-distinct, Ascending, sent-Ascending,
}
use new_mavlink.Record.Session.Authentic.{open-authentic, commit_each, no_replay}
use new_mavlink.Record.Session.Rekey.{rekey_lem}
use new_mavlink.Tests.Cipher.{plain_cipher, plain_cipher-IsAead}

abbrev pub key_a : List ℕ
key_a = 1 ∷ 2 ∷ 3 ∷ 4 ∷ 5 ∷ 6 ∷ 7 ∷ 8 ∷ 9 ∷ 10 ∷ 11 ∷ 12 ∷ 13 ∷ 14 ∷ 15 ∷ 16 ∷ []

abbrev pub key_b : List ℕ
key_b = 9 ∷ 9 ∷ 9 ∷ 9 ∷ 9 ∷ 9 ∷ 9 ∷ 9 ∷ 9 ∷ 9 ∷ 9 ∷ 9 ∷ 9 ∷ 9 ∷ 9 ∷ 9 ∷ []

abbrev pub session_id : SessionId
session_id = record { value = 5; epoch = 1 }

abbrev pub sender_keys : DirectionalKeys
sender_keys = record { session = session_id; local_id = 1; peer_id = 2; tx = key_a; rx = key_b }

abbrev receiver_keys : DirectionalKeys
receiver_keys = record { session = session_id; local_id = 2; peer_id = 1; tx = key_b; rx = key_a }

abbrev pub sender : Session
sender = record {
  keys = sender_keys;
  replay = empty_window;
  send_high_water = 0;
  send_initialized = false;
}

abbrev receiver : Session
receiver = record {
  keys = receiver_keys;
  replay = empty_window;
  send_high_water = 0;
  send_initialized = false;
}

abbrev position_header : RecordHeader
position_header = record default_header {
  type = MessageType.position;
  qos = Qos.state_latest;
  source_id = 1;
  destination_id = 2;
  session_id = 5;
  epoch = 1;
  sequence = 7;
}

abbrev payload : Buffer
payload i = i + 1

-- The state and the record that `seal` returns here.
abbrev sealed_record : Sealed
sealed_record = record {
  output = write_bytes (header_written position_header 3 Zeros) header_bytes (
      read_bytes payload 0 3
      ++ (0 ∷ 0 ∷ 0 ∷ 0 ∷ 0 ∷ 0 ∷ 0 ∷ 0 ∷ 0 ∷ 0 ∷ 0 ∷ 0 ∷ 0 ∷ 0 ∷ 0 ∷ 0 ∷ []));
  output_length = 59;
}

abbrev sender_after : Session
sender_after = record sender { send_high_water = 7; send_initialized = true }

sealed_here :
    seal plain_cipher sender position_header (some payload) 3 Zeros
    ≡ (sender_after, ok sealed_record)
unfolding seal valid_keys refuses_header new_mavlink.Crypto.aead_seal new_mavlink.Wire.known_type
    new_mavlink.Wire.qos_code read_bytes
sealed_here = refl

deliverable : Deliverable sender receiver position_header 0
unfolding accepted
deliverable = record {
  mirrors = record { session = refl; ids = (refl, refl); keys = (refl, refl) };
  keys = record {
    value = omega arith;
    epoch = omega arith;
    local_id = omega arith;
    peer_id = omega arith;
  };
  qos = tt;
  sequence = omega arith;
  deadline_ms = omega arith;
  in_time = inl refl;
  admitted = refl;
}

-- The record that the receiver opens.
abbrev opened_record : OpenRecord
opened_record = record {
  header = sealed_header position_header 3 Zeros;
  payload = write_bytes Zeros 0 (read_bytes payload 0 3);
  length = 3;
}

opened_here :
    open_uncommitted plain_cipher receiver (some sealed_record.output) 59 0 ≡ ok opened_record
unfolding read_bytes
opened_here =
    delivered plain_cipher plain_cipher-IsAead sender receiver position_header payload 3 Zeros
      sender_after sealed_record 0
      (seal_inv plain_cipher sender position_header (some payload) 3 Zeros sender_after
        sealed_record sealed_here)
      deliverable

open-seal_example :
    (o : OpenRecord) × (open_uncommitted plain_cipher receiver (some sealed_record.output) 59 0
      ≡ ok o)
    × (o.header ≡ sealed_header position_header 3 Zeros)
    × (o.length ≡ 3)
    × (read_bytes o.payload 0 o.length ≡ read_bytes payload 0 3)
open-seal_example =
    open-seal plain_cipher plain_cipher-IsAead sender receiver position_header payload 3 Zeros
      sender_after sealed_record 0 deliverable sealed_here

open-authentic_example :
    (decode_header (some sealed_record.output) ≡ some opened_record.header)
    × (mismatches receiver opened_record.header 59 ≡ false)
    × (plain_cipher.encrypt
          (read_bytes opened_record.payload 0 3)
          (read_bytes sealed_record.output 0 header_bytes)
          (make_nonce session_id 7)
          key_a
        ≡ some (read_bytes (at_offset sealed_record.output header_bytes) 0 (3 + tag_bytes)))
open-authentic_example =
    open-authentic plain_cipher receiver sealed_record.output 59 0 opened_record plain_cipher-IsAead
      opened_here

-- A header that the window of `receiver` takes, and one that it takes afterwards.
abbrev record_numbered : ℕ → OpenRecord
record_numbered n = record {
  header = record (sealed_header position_header 3 Zeros) { sequence = n };
  payload = Zeros;
  length = 0;
}

taken_first : (commit_replay receiver (record_numbered 6)).1 ≡ ok tt
unfolding commit_replay commit accepted
taken_first = refl

-- After number 6, number 7 is opened.
reopened :
    open_uncommitted plain_cipher
      (commit_each (commit_replay receiver (record_numbered 6)).0 [])
      (some sealed_record.output)
      59
      0
    ≡ ok opened_record
unfolding read_bytes commit_replay commit accepted
reopened =
    delivered plain_cipher plain_cipher-IsAead sender (commit_replay receiver (record_numbered 6)).0
      position_header payload 3 Zeros sender_after sealed_record 0
      (seal_inv plain_cipher sender position_header (some payload) 3 Zeros sender_after
        sealed_record sealed_here)
      (record {
        mirrors = deliverable.mirrors;
        keys = deliverable.keys;
        qos = tt;
        sequence = omega arith;
        deadline_ms = omega arith;
        in_time = inl refl;
        admitted = refl;
      })

no_replay_example : opened_record.header.sequence ≢ 6
unfolding commit_replay
no_replay_example =
    no_replay plain_cipher receiver [] (record_numbered 6) [] sealed_record.output 59 0
      opened_record empty_window-Represents taken_first reopened

abbrev call_numbered : ℕ → Call
call_numbered n = record {
  header = record position_header { sequence = n };
  plaintext = some payload;
  size = 3;
  output = Zeros;
}

abbrev calls : List Call
calls = call_numbered 7 ∷ call_numbered 7 ∷ call_numbered 8 ∷ []

-- The second call is refused.
sent_here : sent plain_cipher sender calls ≡ 7 ∷ 8 ∷ []
unfolding seal valid_keys refuses_header new_mavlink.Crypto.aead_seal new_mavlink.Wire.known_type
    new_mavlink.Wire.qos_code read_bytes
sent_here = refl

nonces-distinct_example :
    Encrypted plain_cipher sender calls
      (map (make_nonce session_id) (sent plain_cipher sender calls))
    × AllDistinct (map (make_nonce session_id) (sent plain_cipher sender calls))
nonces-distinct_example =
    nonces-distinct plain_cipher sender calls (omega arith)
      (omega arith, (omega arith, (omega arith, tt)))

sent_ascends : Ascending (sent plain_cipher sender calls)
sent_ascends = sent-Ascending plain_cipher sender calls

commit-Represents_example :
    ((commit empty_window 9).1 ≡ fresh [] 9) × Represents (commit empty_window 9).0 (remember [] 9)
commit-Represents_example = commit-Represents empty_window [] 9 empty_window-Represents

committed_nine : (commit empty_window 9).1 ≡ true
unfolding commit accepted
committed_nine = refl

refused_later : accepted (commit_all (commit empty_window 9).0 (10 ∷ 80 ∷ [])) 9 ≡ false
refused_later =
    replay_refused empty_window [] (10 ∷ 80 ∷ []) 9 empty_window-Represents committed_nine

refused_again :
    seal plain_cipher sender_after position_header (some payload) 3 Zeros
    ≡ (sender_after, err RecordError.invalid_header)
unfolding seal valid_keys refuses_header new_mavlink.Wire.known_type new_mavlink.Wire.qos_code
refused_again = refl

failed_seal_keeps : sender_after ≡ sender_after
failed_seal_keeps =
    seal_failure plain_cipher sender_after position_header (some payload) 3 Zeros sender_after
      RecordError.invalid_header refused_again

abbrev next_keys : DirectionalKeys
next_keys = record sender_keys { session = record { value = 5; epoch = 2 } }

rekey_lem_example :
    (rekey sender next_keys ≡ (sender, err RecordError.invalid_header))
    ⊎ ((rekey sender next_keys ≡ (new_session next_keys, ok tt))
        × (valid_keys next_keys ≡ true)
        × (sender_keys.session.epoch < next_keys.session.epoch)
        × (next_keys.session.value ≡ sender_keys.session.value)
        × (next_keys.local_id ≡ sender_keys.local_id)
        × (next_keys.peer_id ≡ sender_keys.peer_id))
rekey_lem_example = rekey_lem sender next_keys

header_fits : FitsHeader (sealed_header position_header 3 Zeros)
header_fits =
    sealed_fits sender position_header 3 Zeros deliverable.keys
      (seal_inv plain_cipher sender position_header (some payload) 3 Zeros sender_after
        sealed_record sealed_here).admitted
      tt (omega arith) (omega arith)

decode_header-encode_header_example :
    decode_header (
      some (
        encode_header
          (sealed_header position_header 3 Zeros)
          (draft_written position_header 3 Zeros)
          true))
    ≡ some (sealed_header position_header 3 Zeros)
decode_header-encode_header_example =
    decode_header-encode_header (sealed_header position_header 3 Zeros)
      (draft_written position_header 3 Zeros)
      (encode_header (sealed_header position_header 3 Zeros) (draft_written position_header 3 Zeros)
        true)
      header_fits (sealed_header_crc position_header 3 Zeros) (λ i lt. refl)

abbrev derived_tx : List ℕ
derived_tx = 78 ∷ 77 ∷ 45 ∷ 84 ∷ 88 ∷ 0 ∷ 0 ∷ 0 ∷ 5 ∷ 0 ∷ 0 ∷ 0 ∷ 0 ∷ 0 ∷ 0 ∷ 0 ∷ []

abbrev derived_rx : List ℕ
derived_rx = 78 ∷ 77 ∷ 45 ∷ 82 ∷ 88 ∷ 0 ∷ 0 ∷ 0 ∷ 5 ∷ 0 ∷ 0 ∷ 0 ∷ 0 ∷ 0 ∷ 0 ∷ 0 ∷ []

abbrev derived_first : DirectionalKeys
derived_first = record {
  session = session_id;
  local_id = 1;
  peer_id = 2;
  tx = derived_tx;
  rx = derived_rx;
}

abbrev derived_second : DirectionalKeys
derived_second = record {
  session = session_id;
  local_id = 2;
  peer_id = 1;
  tx = derived_rx;
  rx = derived_tx;
}

derived_here :
    derive_directional_keys plain_cipher key_a session_id 1 2 ≡ some (derived_first, derived_second)
unfolding derive_directional_keys new_mavlink.Crypto.derive_one new_mavlink.Crypto.prf_block
    new_mavlink.Crypto.prf_input new_mavlink.Crypto.key_info read_bytes write_bytes
    new_mavlink.Common.put64 new_mavlink.Common.put16 new_mavlink.Common.set_at
derived_here = refl

-- The bytes of the sealed record, and the same with another sequence number.
abbrev sealed_bytes : Buffer
sealed_bytes j = u8 (sealed_record.output j)

abbrev renumbered : Buffer
renumbered = set_at sealed_bytes 24 9

sealed_bytes-header : decode_header (some sealed_bytes) ≡ some (read_header sealed_bytes)
unfolding decode_header read_header crc16_ccitt encode_header get16 set_at put16 write_bytes
    read_bytes header_written new_mavlink.Record.Header.encode_front sealed_header
    new_mavlink.Record.Session.draft_header new_mavlink.Wire.type_code qos_code draft_written
sealed_bytes-header = refl

renumbered-other : (j : ℕ) → j < 40 → j ≢ 24 → sealed_bytes j ≡ renumbered j
unfolding set_at
renumbered-other j lt other = ground arith

renumbered-byte : renumbered 24 < 256
unfolding set_at
renumbered-byte = omega arith

renumbered-changed : sealed_bytes 24 ≢ renumbered 24
unfolding set_at put16 encode_header write_bytes header_written
    new_mavlink.Record.Header.encode_front sealed_header new_mavlink.Record.Session.draft_header
    new_mavlink.Wire.type_code qos_code draft_written read_bytes
renumbered-changed e = omega (arith, e)

one_byte_refused_example : decode_header (some renumbered) ≡ none
one_byte_refused_example =
    one_byte_refused sealed_bytes renumbered 24 renumbered-other (λ j lt. omega arith)
      renumbered-byte (read_header sealed_bytes) (omega arith) renumbered-changed
      sealed_bytes-header
