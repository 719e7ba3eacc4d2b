-- ===== src/Transport/Delivery.antt =====
-- src/transport.cpp, lines 32 to 79: from one endpoint over the network to the other.
use new_mavlink.Common.{
  ℕ, ◌+◌, ◌<◌, ◌≡◌, inl, inr, refl, sym, ap, subst, ◌∙◌, Bool, true, false, List, [], ◌∷◌, Option,
  some, Buffer, Zeros, read_bytes, write_bytes, read_bytes-write_bytes, read_bytes_inj,
  length-read_bytes, length, arith, Option-cases,
}
use new_mavlink.Crypto.{Ascon, IsAead}
use new_mavlink.Wire.{RecordHeader, header_bytes, tag_bytes, max_record_bytes}
use new_mavlink.Record.Types.{RecordError, OpenRecord, Result, ok, err}
use new_mavlink.Record.Session.{Session, Sealed, sealed_header, seal, open_uncommitted}
use new_mavlink.Record.Session.Seal.{seal_inv}
use new_mavlink.Record.Session.Open.{Deliverable}
use new_mavlink.Record.Session.Delivery.{open-seal}
use new_mavlink.Record.Session.Extent.{open_uncommitted_ext}
use new_mavlink.Transport.Udp.{
  Network, UdpEndpoint, parse_host, sent_all, send_parsed, send_from, send_to, stored,
  receive_ready,
}
use new_mavlink.Transport.Udp.{receive as receive_udp}
use new_mavlink.Transport.{
  NativeEndpoint, returned, send_sealed, send, open_received, receive_uncommitted,
}

-- A socket whose next wait of one second ends with a datagram, and what its calls make of the
-- outside.
pub record Arrives {W : Type 0} (net : Network W) (w : W) (udp : UdpEndpoint) (datagram : List ℕ)
    (w' : W) : Type 0 where
  pub fd : ℕ
  pub bound : udp.fd ≡ some fd
  pub waited : W
  pub ready : net.wait_readable w fd 1 0 ≡ (waited, true)
  pub received : net.receive_datagram waited fd max_record_bytes ≡ (w', some datagram)

-- A datagram that the operating system took in full, to an address and a port.
pub record Leaves {W : Type 0} (net : Network W) (w : W) (udp : UdpEndpoint)
    (host : Option (List ℕ)) (port : ℕ) (datagram : List ℕ) (w' : W) : Type 0 where
  pub fd : ℕ
  pub bound : udp.fd ≡ some fd
  pub address : ℕ
  pub parsed : parse_host net host ≡ some address
  pub taken : net.send_datagram w fd datagram address port ≡ (w', some (length datagram))

abbrev failed : RecordError → Result (Unit {0})
failed x = err x

refused : {x : RecordError} → failed x ≡ ok tt → ⊥
refused e = cc

module _ {W : Type 0} (net : Network W) where
  receive_lem :
      (w : W) (udp : UdpEndpoint) (bytes : Buffer) (datagram : List ℕ) (w' : W)
      → Arrives net w udp datagram w'
      → 0 < length datagram
      → receive_udp net w udp (some bytes) max_record_bytes 1000
        ≡ (w', some (write_bytes bytes 0 datagram, length datagram))
  unfolding receive_udp receive_ready stored
  receive_lem w udp bytes [] w' h lt = absurd (omega arith)
  receive_lem w udp bytes (x ∷ xs) w' h lt = rw (h.bound, h.ready, h.received) refl

  send_to_inv :
      (w : W) (udp : UdpEndpoint) (host : Option (List ℕ)) (port : ℕ) (bytes : Buffer) (size : ℕ)
      (w' : W)
      → send_to net w udp host port (some bytes) size ≡ (w', true)
      → Leaves net w udp host port (read_bytes bytes 0 size) w'
  unfolding send_to send_from send_parsed sent_all
  send_to_inv w udp host port bytes size w' e = elim (Option-cases udp.fd) [
    | inl closed ↦ absurd (ground (arith, e, closed))
    | inr (fd, bound) ↦ elim (Option-cases (parse_host net host)) [
      | inl bad ↦ absurd (ground (arith, e, bound, bad))
      | inr (address, parsed) ↦
          let result = net.send_datagram w fd (read_bytes bytes 0 size) address port in
          elim (Option-cases result.1) [
            | inl refused ↦ absurd (ground (arith, e, bound, parsed, failed))
            | inr (n, sent) ↦ record {
              fd = fd;
              bound = bound;
              address = address;
              parsed = parsed;
              taken =
                  let whole : n ≡ size = ground (arith, e, bound, parsed, sent) in
                  let out : result.0 ≡ w' = ground (arith, e, bound, parsed, sent) in
                  rw (length-read_bytes bytes 0 size) (λ i. (out i, (sent ∙ ap some whole) i));
            }
          ]
    ]
  ]

  was_sent : (sent : Bool) → returned sent ≡ ok tt → sent ≡ true
  was_sent true e = refl
  was_sent false e = absurd (refused e)

  pub send_inv :
      (a : Ascon) (w : W) (e : NativeEndpoint) (h : RecordHeader) (plain : Buffer) (size : ℕ)
      (udp : UdpEndpoint) (host : Option (List ℕ)) (port : ℕ) (w' : W) (e' : NativeEndpoint)
      → send a net w e h (some plain) size udp host port ≡ (w', e', ok tt)
      → (sealed : Sealed) × (seal a e.session h (some plain) size e.buffer
          ≡ (e'.session, ok sealed))
        × (e'.buffer ≡ sealed.output)
        × Leaves net w udp host port (read_bytes sealed.output 0 sealed.output_length) w'
  unfolding send
  send_inv a w e h plain size udp host port w' e' done =
      split (seal a e.session h (some plain) size e.buffer) done
    where
      split :
          (r : Session × Result Sealed)
          → send_sealed net w e r udp host port ≡ (w', e', ok tt)
          → (sealed : Sealed) × (r ≡ (e'.session, ok sealed))
            × (e'.buffer ≡ sealed.output)
            × Leaves net w udp host port (read_bytes sealed.output 0 sealed.output_length) w'
      split (s, err x) eq =
          absurd (refused (ap (λ (t : W × NativeEndpoint × Result (Unit {0})). t.2) eq))
      split (s, ok sealed) eq =
          let result = send_to net w udp host port (some sealed.output) sealed.output_length in
          let back = ap (λ (t : W × NativeEndpoint × Result (Unit {0})). t.2) eq in
          let out = ap (λ (t : W × NativeEndpoint × Result (Unit {0})). t.0) eq in
          let end = ap (λ (t : W × NativeEndpoint × Result (Unit {0})). t.1) eq in
          (
            sealed,
            λ i. ((end i).session, ok sealed),
            sym (λ i. (end i).buffer),
            send_to_inv w udp host port sealed.output sealed.output_length w'
                (λ i. (out i, was_sent result.1 back i)),
          )

-- What a call returns depends on the datagram and not on what the buffer held.
pub receive_arrived :
    {W : Type 0} (net : Network W) (a : Ascon) (w : W) (e : NativeEndpoint) (udp : UdpEndpoint)
    (datagram : List ℕ) (w' : W) (now_ms : ℕ)
    → Arrives net w udp datagram w'
    → 0 < length datagram
    → receive_uncommitted a net w e udp now_ms ≡ (
      w',
      record e { buffer = write_bytes e.buffer 0 datagram },
      open_uncommitted a e.session (some (write_bytes Zeros 0 datagram)) (length datagram) now_ms,
    )
unfolding receive_uncommitted open_received
receive_arrived net a w e udp datagram w' now_ms arrives lt =
    let m = write_bytes e.buffer 0 datagram in
    let m' = write_bytes Zeros 0 datagram in
    let same =
      read_bytes-write_bytes e.buffer 0 datagram ∙ sym (read_bytes-write_bytes Zeros 0 datagram) in
    let result =
      open_uncommitted_ext m m' a e.session (length datagram) now_ms
        (λ i lt. read_bytes_inj m m' 0 (length datagram) same i (omega arith) (omega arith)) in
    ap (open_received a e now_ms) (receive_lem net w udp e.buffer datagram w' arrives lt) ∙ λ i.
    (w', record e { buffer = m }, result i)

-- What was sent with a payload of this size, which the endpoint's buffer keeps.
abbrev pub on_wire : NativeEndpoint → ℕ → List ℕ
on_wire e size = read_bytes e.buffer 0 (header_bytes + (size + tag_bytes))

-- What the receiver finds in the record that it opened.
pub record Carries (e : NativeEndpoint) (h : RecordHeader) (plain : Buffer) (size : ℕ)
    (o : OpenRecord) : Type 0 where
  pub header : o.header ≡ sealed_header h size e.buffer
  pub length : o.length ≡ size
  pub payload : read_bytes o.payload 0 size ≡ read_bytes plain 0 size

module _ {W : Type 0} (net : Network W) (a : Ascon) (aead : IsAead a) where
  open_copy :
      (r : Session) (sealed : Sealed) (buffer : Buffer) (now_ms n : ℕ)
      → sealed.output_length ≡ n
      → open_uncommitted a r (some (write_bytes buffer 0 (read_bytes sealed.output 0 n))) n now_ms
        ≡ open_uncommitted a r (some sealed.output) sealed.output_length now_ms
  open_copy r sealed buffer now_ms n total =
      let copy = read_bytes sealed.output 0 n in
      let back = read_bytes-write_bytes buffer 0 copy in
      let same =
        subst (λ k. read_bytes (write_bytes buffer 0 copy) 0 k ≡ copy)
          (length-read_bytes sealed.output 0 n) back in
      rw total (
        open_uncommitted_ext (write_bytes buffer 0 copy) sealed.output a r n now_ms (λ i lt.
          read_bytes_inj (write_bytes buffer 0 copy) sealed.output 0 n same i (omega arith)
            (omega arith)))

  -- If `send` succeeds at one endpoint and the other, whose keys mirror its keys, is given the
  -- first bytes of the sender's buffer, as many as a record with that payload has, then
  -- `receive_uncommitted` returns a record with the header that was sealed and the length and
  -- bytes of the payload, and those bytes are the datagram that the sender handed to the socket,
  -- which took it in full, if the sender's numbers have their widths, the receiver's window
  -- admits the sequence number, its deadline has not passed, and the cipher satisfies the laws of
  -- an AEAD.
  pub receive-send :
      (w w1 w2 w3 : W) (e e1 f : NativeEndpoint) (h : RecordHeader) (plain : Buffer) (size : ℕ)
      (udp peer_udp : UdpEndpoint) (host : Option (List ℕ)) (port now_ms : ℕ)
      → Deliverable e.session f.session h now_ms
      → send a net w e h (some plain) size udp host port ≡ (w1, e1, ok tt)
      → Arrives net w2 peer_udp (on_wire e1 size) w3
      → (f1 : NativeEndpoint) × (o : OpenRecord) × (receive_uncommitted a net w2 f peer_udp now_ms
          ≡ (w3, f1, ok o))
        × (f1.session ≡ f.session)
        × Carries e h plain size o
        × Leaves net w udp host port (on_wire e1 size) w1
  unfolding receive_uncommitted open_received
  receive-send w w1 w2 w3 e e1 f h plain size udp peer_udp host port now_ms ready done arrives =
      let (sealed, sealing, output, left) =
        send_inv net a w e h plain size udp host port w1 e1 done in
      let inv = seal_inv a e.session h (some plain) size e.buffer e1.session sealed sealing in
      let total : sealed.output_length ≡ header_bytes + (size + tag_bytes) =
        omega (arith, inv.total, inv.cipher_size) in
      let (o, opened, header, len, payload) =
        open-seal a aead e.session f.session h plain size e.buffer e1.session sealed now_ms ready
          sealing in
      let n = header_bytes + (size + tag_bytes) in
      let datagram = read_bytes sealed.output 0 n in
      let came =
        receive_lem net w2 peer_udp f.buffer datagram w3
          (subst (λ b. Arrives net w2 peer_udp (read_bytes b 0 n) w3) output arrives)
          (omega (arith, length-read_bytes sealed.output 0 n)) in
      let f1 = record f { buffer = write_bytes f.buffer 0 datagram } in
      let opens : open_uncommitted a f.session (some f1.buffer) (length datagram) now_ms ≡ ok o =
        rw (length-read_bytes sealed.output 0 n)
          (open_copy f.session sealed f.buffer now_ms n total ∙ opened) in
      (
        f1,
        o,
        ap (open_received a f now_ms) came ∙ λ i. (w3, f1, opens i),
        refl,
        record {
          header = header;
          length = len;
          payload = subst (λ n. read_bytes o.payload 0 n ≡ read_bytes plain 0 size) len payload;
        },
        subst (λ d. Leaves net w udp host port d w1) ((λ i. read_bytes (sym output i) 0 (total i)))
            left,
      )
