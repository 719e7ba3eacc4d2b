-- ===== src/Tests/Network.antt =====
-- A network with one datagram in flight, which every socket receives.
use new_mavlink.Common.{ℕ, refl, true, List, some, length}
use new_mavlink.Transport.Udp.{Network, UdpEndpoint}
use new_mavlink.Transport.Delivery.{Arrives}

abbrev pub one_datagram : Network (List ℕ)
one_datagram = record {
  socket = λ w. (w, some 3);
  set_reuse_address = λ w fd. w;
  bind_loopback = λ w fd port. (w, true);
  parse_address = λ host. some 2130706433;
  send_datagram = λ w fd bytes address port. (bytes, some (length bytes));
  wait_readable = λ w fd seconds microseconds. (w, true);
  receive_datagram = λ w fd capacity. (w, some w);
  close_descriptor = λ w fd. w;
}

abbrev pub udp : UdpEndpoint
udp = record { fd = some 3 }

-- Whatever is in flight arrives.
pub arrives : (w : List ℕ) → Arrives one_datagram w udp w w
arrives w = record { fd = 3; bound = refl; waited = w; ready = refl; received = refl }
