-- ===== src/Tests/Vehicles.antt =====
-- A whole run of the vehicle at concrete inputs.
use new_mavlink.Common.{ℕ, ◌≡◌, refl, true, List, [], ◌∷◌, some, arith}
use new_mavlink.Wire.{DirectionalKeys}
use new_mavlink.Record.Session.{new_session, valid_keys}
use new_mavlink.Transport.{new_endpoint}
use new_mavlink.Transport.Accepts.{TakesAll}
use new_mavlink.Programs.{session_id, loopback, link_keys}
use new_mavlink.Programs.VehicleEndpoint.{new_vehicle, loop}
use new_mavlink.Programs.VehicleEndpoint.Succeeds.{loop-succeeds}
use new_mavlink.Tests.Cipher.{plain_cipher, plain_cipher-Answers}
use new_mavlink.Tests.Network.{one_datagram, udp}

abbrev tx : List ℕ
tx = 78 ∷ 77 ∷ 45 ∷ 84 ∷ 88 ∷ 0 ∷ 0 ∷ 0 ∷ 1 ∷ 0 ∷ 0 ∷ 0 ∷ 0 ∷ 0 ∷ 0 ∷ 0 ∷ []

abbrev rx : List ℕ
rx = 78 ∷ 77 ∷ 45 ∷ 82 ∷ 88 ∷ 0 ∷ 0 ∷ 0 ∷ 1 ∷ 0 ∷ 0 ∷ 0 ∷ 0 ∷ 0 ∷ 0 ∷ 0 ∷ []

abbrev vehicle_keys : DirectionalKeys
vehicle_keys = record { session = session_id; local_id = 1; peer_id = 3; tx = tx; rx = rx }

abbrev proxy_keys : DirectionalKeys
proxy_keys = record { session = session_id; local_id = 3; peer_id = 1; tx = rx; rx = tx }

keys_here : link_keys plain_cipher 1 3 ≡ some (vehicle_keys, proxy_keys)
unfolding link_keys new_mavlink.Crypto.derive_directional_keys new_mavlink.Crypto.derive_one
    new_mavlink.Crypto.prf_block new_mavlink.Crypto.prf_input new_mavlink.Crypto.key_info
    new_mavlink.Common.read_bytes new_mavlink.Common.write_bytes new_mavlink.Common.put64
    new_mavlink.Common.put16 new_mavlink.Common.set_at
keys_here = refl

keys_valid : valid_keys vehicle_keys ≡ true
unfolding valid_keys
keys_valid = refl

takes_all : TakesAll one_datagram udp loopback
unfolding new_mavlink.Transport.Udp.parse_host
takes_all = record {
  fd = 3;
  bound = refl;
  address = 2130706433;
  parsed = refl;
  takes = λ w datagram port. (datagram, refl);
}

loop-succeeds_example :
    (loop 5 plain_cipher one_datagram udp 24660 350 0 []
      (new_vehicle (new_endpoint (new_session vehicle_keys)))).2
    ≡ some 0
loop-succeeds_example =
    loop-succeeds plain_cipher plain_cipher-Answers one_datagram udp takes_all 24660 350
      vehicle_keys proxy_keys [] keys_here keys_valid (omega arith)
