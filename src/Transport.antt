-- ===== src/Transport.antt =====
-- src/transport.cpp, lines 64 to 89, and include/new_mavlink/transport.hpp: a session on a UDP socket.
-- A method that returns false with `error` as `seal` or `open` left it, which is None, is the
-- error `none`. `buffer` after a call that fails in `seal` is the one before it: nothing reads it.
pub mod Udp
pub mod Sequences
pub mod Numbers
pub mod Delivery
pub mod Accepts
use new_mavlink.Common.{
  ℕ, ◌+◌, Bool, true, false, List, Option, none, some, Buffer, Pointer, Zeros, if◌then◌else◌,
}
use new_mavlink.Crypto.{Ascon}
use new_mavlink.Wire.{RecordHeader, max_record_bytes}
use new_mavlink.Record.Types.{RecordError, OpenRecord, Result, ok, err}
use new_mavlink.Record.Session.{Session, Sealed, seal, open_uncommitted, commit_replay}
use new_mavlink.Transport.Udp.{Network, UdpEndpoint, send_to}
use new_mavlink.Transport.Udp.{receive as receive_udp}

pub record NativeEndpoint : Type 0 where
  pub session : Session
  pub buffer : Buffer

unfoldable pub new_endpoint : Session → NativeEndpoint
new_endpoint session = record { session = session; buffer = Zeros }

-- `return udp.send_to(…)`, with `error` None.
abbrev pub returned : Bool → Result (Unit {0})
returned true = ok tt
returned false = err RecordError.none

-- From the result of `seal` on.
unfoldable pub send_sealed :
    {W : Type 0}
    → Network W
    → W
    → NativeEndpoint
    → Session × Result Sealed
    → UdpEndpoint
    → Option (List ℕ)
    → ℕ
    → W × NativeEndpoint × Result (Unit {0})
send_sealed net w e (s, err error) udp host port = (w, record e { session = s }, err error)
send_sealed net w e (s, ok sealed) udp host port =
    let (w1, sent) = send_to net w udp host port (some sealed.output) sealed.output_length in
    (w1, record { session = s; buffer = sealed.output }, returned sent)

unfoldable pub send :
    {W : Type 0}
    → Ascon
    → Network W
    → W
    → NativeEndpoint
    → RecordHeader
    → Pointer
    → ℕ
    → UdpEndpoint
    → Option (List ℕ)
    → ℕ
    → W × NativeEndpoint × Result (Unit {0})
unfolding send_sealed
send a net w e header payload size udp host port =
    send_sealed net w e (seal a e.session header payload size e.buffer) udp host port

-- From what the socket received on.
unfoldable pub open_received :
    {W : Type 0}
    → Ascon
    → NativeEndpoint
    → ℕ
    → W × Option (Buffer × ℕ)
    → W × NativeEndpoint × Result OpenRecord
open_received a e now_ms (w, none) = (w, e, err RecordError.timeout)
open_received a e now_ms (w, some (bytes, size)) =
    (w, record e { buffer = bytes }, open_uncommitted a e.session (some bytes) size now_ms)

-- The wait of one second is the source's.
unfoldable pub receive_uncommitted :
    {W : Type 0}
    → Ascon
    → Network W
    → W
    → NativeEndpoint
    → UdpEndpoint
    → ℕ
    → W × NativeEndpoint × Result OpenRecord
unfolding open_received
receive_uncommitted a net w e udp now_ms =
    open_received a e now_ms (receive_udp net w udp (some e.buffer) max_record_bytes 1000)

unfoldable pub commit : NativeEndpoint → OpenRecord → NativeEndpoint × Result (Unit {0})
commit e opened =
    let (s, result) = commit_replay e.session opened in (record e { session = s }, result)

-- What `commit` returns, and the record where it was written.
unfoldable pub commit_result : OpenRecord → Result (Unit {0}) → Result OpenRecord
commit_result opened (ok done) = ok opened
commit_result opened (err error) = err error

-- `return commit(record, error)`
unfoldable pub commit_opened :
    {W : Type 0} → W × NativeEndpoint × Result OpenRecord → W × NativeEndpoint × Result OpenRecord
unfolding commit commit_result
commit_opened (w, e, err error) = (w, e, err error)
commit_opened (w, e, ok opened) = (w, (commit e opened).0, commit_result opened (commit e opened).1)

unfoldable pub receive :
    {W : Type 0}
    → Ascon
    → Network W
    → W
    → NativeEndpoint
    → UdpEndpoint
    → ℕ
    → W × NativeEndpoint × Result OpenRecord
unfolding commit_opened
receive a net w e udp now_ms = commit_opened (receive_uncommitted a net w e udp now_ms)
