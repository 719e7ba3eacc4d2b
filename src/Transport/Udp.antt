-- ===== src/Transport/Udp.antt =====
-- src/transport.cpp, lines 14 to 62, and include/new_mavlink/transport.hpp: a UDP socket. The calls
-- of the operating system are the record `Network`, an argument of whatever makes them, on a state
-- of the outside `W` that every call passes on.
use new_mavlink.Common.{
  ℕ, ◌*◌, ◌/◌, ◌%◌, Bool, true, false, not, ◌||◌, List, [], ◌∷◌, Option, none, some, Buffer,
  Pointer, write_bytes, length, ltb, ◌==◌, is_some, if◌then◌else◌,
}
use new_mavlink.Crypto.{is_null, pointed}
use new_mavlink.Wire.{max_record_bytes}

-- A descriptor that the source finds negative is `none`. An address is the number that `inet_pton`
-- writes; `send_to` and `receive_from` give `none` where the call returns -1.
pub record Network (W : Type 0) : Type 0 where
  -- ::socket(AF_INET, SOCK_DGRAM, 0)
  pub socket : W → W × Option ℕ
  -- ::setsockopt(fd, SOL_SOCKET, SO_REUSEADDR, …), whose result the source ignores
  pub set_reuse_address : W → ℕ → W
  -- ::bind(fd, …) to a port of the loopback address, and whether it returns 0
  pub bind_loopback : W → ℕ → ℕ → W × Bool
  -- ::inet_pton(AF_INET, …), `some` where it returns 1
  pub parse_address : List ℕ → Option ℕ
  -- ::sendto(fd, bytes, …) to an address and a port
  pub send_datagram : W → ℕ → List ℕ → ℕ → ℕ → W × Option ℕ
  -- ::select(fd + 1, …) on one descriptor with seconds and microseconds; whether it is positive
  pub wait_readable : W → ℕ → ℕ → ℕ → W × Bool
  -- ::recvfrom(fd, …) with a capacity: the bytes received
  pub receive_datagram : W → ℕ → ℕ → W × Option (List ℕ)
  -- ::close(fd)
  pub close_descriptor : W → ℕ → W

-- `fd_` is `none` while it is -1.
pub record UdpEndpoint : Type 0 where
  pub fd : Option ℕ

abbrev pub new_udp : UdpEndpoint
new_udp = record { fd = none }

unfoldable pub valid : UdpEndpoint → Bool
valid udp = is_some udp.fd

close_fd : {W : Type 0} → Network W → W → Option ℕ → W
close_fd net w none = w
close_fd net w (some fd) = net.close_descriptor w fd

unfoldable pub close : {W : Type 0} → Network W → W → UdpEndpoint → W × UdpEndpoint
unfolding close_fd
close net w udp = (close_fd net w udp.fd, new_udp)

-- From the socket on.
unfoldable pub bind_opened : {W : Type 0} → Network W → W → Option ℕ → ℕ → W × UdpEndpoint × Bool
unfolding close
bind_opened net w none port = (w, new_udp, false)
bind_opened net w (some fd) port =
    let udp : UdpEndpoint = record { fd = some fd } in
    let w1 = net.set_reuse_address w fd in
    let (w2, bound) = net.bind_loopback w1 fd port in
    if bound then (w2, udp, true) else (let (w3, closed) = close net w2 udp in (w3, closed, false))

unfoldable pub bind : {W : Type 0} → Network W → W → UdpEndpoint → ℕ → W × UdpEndpoint × Bool
unfolding close bind_opened
bind net w udp port =
    let (w1, closed) = close net w udp in let (w2, fd) = net.socket w1 in bind_opened net w2 fd port

-- `host` is a C string, `none` where it is null.
unfoldable pub refuses_datagram : Option (List ℕ) → Pointer → ℕ → Bool
refuses_datagram host bytes size =
    not (is_some host) || is_null bytes || size == 0 || ltb max_record_bytes size

unfoldable pub parse_host : {W : Type 0} → Network W → Option (List ℕ) → Option ℕ
parse_host net none = none
parse_host net (some host) = net.parse_address host

-- `sent == static_cast<ssize_t>(length)`
unfoldable pub sent_all : Option ℕ → ℕ → Bool
sent_all none size = false
sent_all (some sent) size = sent == size

-- From the parsed address on.
unfoldable pub send_parsed :
    {W : Type 0} → Network W → W → ℕ → Option ℕ → ℕ → Pointer → ℕ → W × Bool
unfolding sent_all
send_parsed net w fd none port bytes size = (w, false)
send_parsed net w fd (some address) port bytes size =
    let (w1, sent) = net.send_datagram w fd (pointed bytes size) address port in
    (w1, sent_all sent size)

unfoldable pub send_from :
    {W : Type 0} → Network W → W → Option ℕ → Option (List ℕ) → ℕ → Pointer → ℕ → W × Bool
unfolding send_parsed parse_host refuses_datagram
send_from net w none host port bytes size = (w, false)
send_from net w (some fd) host port bytes size =
    if refuses_datagram host bytes size
    then (w, false)
    else send_parsed net w fd (parse_host net host) port bytes size

unfoldable pub send_to :
    {W : Type 0} → Network W → W → UdpEndpoint → Option (List ℕ) → ℕ → Pointer → ℕ → W × Bool
unfolding send_from
send_to net w udp host port bytes size = send_from net w udp.fd host port bytes size

-- What `recvfrom` gave, copied to `bytes`; nothing and an empty datagram are refused.
unfoldable pub stored : {W : Type 0} → W × Option (List ℕ) → Buffer → W × Option (Buffer × ℕ)
stored (w, none) bytes = (w, none)
stored (w, some []) bytes = (w, none)
stored (w, some (x ∷ xs)) bytes = (w, some (write_bytes bytes 0 (x ∷ xs), length (x ∷ xs)))

unfoldable pub receive_ready :
    {W : Type 0} → Network W → W × Bool → ℕ → Buffer → ℕ → W × Option (Buffer × ℕ)
unfolding stored
receive_ready net (w, false) fd bytes capacity = (w, none)
receive_ready net (w, true) fd bytes capacity = stored (net.receive_datagram w fd capacity) bytes

-- The buffer after the call and the length of what was received.
unfoldable pub receive :
    {W : Type 0} → Network W → W → UdpEndpoint → Pointer → ℕ → ℕ → W × Option (Buffer × ℕ)
unfolding receive_ready
receive net w udp none capacity timeout_ms = (w, none)
receive net w udp (some bytes) capacity timeout_ms = elim udp.fd [
  | none ↦ (w, none)
  | some fd ↦
      if ltb capacity max_record_bytes
      then (w, none)
      else receive_ready net (net.wait_readable w fd (timeout_ms / 1000) (timeout_ms % 1000 * 1000))
          fd bytes capacity
]
