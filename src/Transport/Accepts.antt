-- ===== src/Transport/Accepts.antt =====
-- src/transport.cpp, lines 32 to 41 and 64 to 70: when `send` succeeds.
use new_mavlink.Common.{
  ℕ, ◌≤◌, ◌≡◌, refl, true, false, List, Option, some, Buffer, read_bytes, length, length-read_bytes,
  ==_refl, arith,
}
use new_mavlink.Crypto.{Ascon, Answers}
use new_mavlink.Wire.{RecordHeader}
use new_mavlink.Record.Types.{ok}
use new_mavlink.Record.Session.{valid_keys, refuses_header}
use new_mavlink.Record.Session.Nonces.{remembered}
use new_mavlink.Record.Session.Seal.{admits}
use new_mavlink.Record.Session.Accepts.{seal_lem}
use new_mavlink.Transport.Udp.{
  Network, UdpEndpoint, parse_host, sent_all, send_parsed, send_from, send_to, refuses_datagram,
}
use new_mavlink.Transport.{NativeEndpoint, send, send_sealed}

-- An open socket whose operating system takes every datagram to a host in full.
pub record TakesAll {W : Type 0} (net : Network W) (udp : UdpEndpoint) (host : Option (List ℕ))
    : Type 0 where
  pub fd : ℕ
  pub bound : udp.fd ≡ some fd
  pub address : ℕ
  pub parsed : parse_host net host ≡ some address
  pub takes :
      (w : W) (datagram : List ℕ) (port : ℕ)
      → (w' : W) × (net.send_datagram w fd datagram address port ≡ (w', some (length datagram)))

module _ {W : Type 0} (net : Network W) (udp : UdpEndpoint) (host : List ℕ)
    (network : TakesAll net udp (some host)) where
  datagram_fits :
      (bytes : Buffer) (size : ℕ)
      → 1 ≤ size
      → size ≤ 824
      → refuses_datagram (some host) (some bytes) size ≡ false
  unfolding refuses_datagram
  datagram_fits bytes size lo hi = ground arith

  send_to_lem :
      (w : W) (port : ℕ) (bytes : Buffer) (size : ℕ)
      → 1 ≤ size
      → size ≤ 824
      → (w' : W) × (send_to net w udp (some host) port (some bytes) size ≡ (w', true))
  unfolding send_to send_from send_parsed sent_all
  send_to_lem w port bytes size lo hi =
      let (w', taken) = network.takes w (read_bytes bytes 0 size) port in
      (
        w',
        rw
            (
              network.bound,
              network.parsed,
              taken,
              length-read_bytes bytes 0 size,
              datagram_fits bytes size lo hi,
              ==_refl size,
            )
            refl,
      )

  -- A header that the session does not refuse is sent, and the session remembers its number.
  pub send_lem :
      (a : Ascon) (answers : Answers a) (w : W) (e : NativeEndpoint) (h : RecordHeader)
      (plain : Buffer) (size port : ℕ)
      → valid_keys e.session.keys ≡ true
      → refuses_header e.session h (some plain) size ≡ false
      → (w' : W) × (e' : NativeEndpoint) × (send a net w e h (some plain) size udp (some host) port
          ≡ (w', e', ok tt))
        × (e'.session ≡ remembered e.session h.sequence)
  unfolding send send_sealed
  send_lem a answers w e h plain size port valid good =
      let (sealed, sealing, total) =
        seal_lem a answers e.session h plain size e.buffer valid good in
      let fits = (admits e.session h (some plain) size good).fits in
      let (w', sent) =
        send_to_lem w port sealed.output sealed.output_length (omega (arith, total))
          (omega (arith, total, fits)) in
      (
        w',
        record { session = remembered e.session h.sequence; buffer = sealed.output },
        rw (sealing, sent) refl,
        refl,
      )
