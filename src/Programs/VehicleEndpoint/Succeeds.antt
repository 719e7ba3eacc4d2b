-- ===== src/Programs/VehicleEndpoint/Succeeds.antt =====
-- apps/vehicle_endpoint.cpp: a whole run of the vehicle.
use new_mavlink.Common.{
  ℕ, zero, suc, ◌+◌, ◌-◌, ◌*◌, ◌/◌, ◌^◌, ◌<◌, ◌≤◌, ◌≡◌, ◌⊎◌, inl, inr, refl, ap, ◌∙◌, true, Option,
  none, some, Bool-cases, leb, ◌||◌, ◌==◌, arith,
}
use new_mavlink.Crypto.{Ascon, Answers}
use new_mavlink.Crypto.Keys.{derive_directional_keys-Mirrors}
use new_mavlink.Wire.{SessionId, DirectionalKeys}
use new_mavlink.Record.Session.{new_session, valid_keys}
use new_mavlink.Publisher.{new_publisher}
use new_mavlink.Programs.VehicleEndpoint.Ends.{loop-goes_on, loop-returns}
use new_mavlink.Transport.Udp.{Network, UdpEndpoint}
use new_mavlink.Transport.{new_endpoint}
use new_mavlink.Transport.Accepts.{TakesAll}
use new_mavlink.Programs.{psk, session_id, vehicle_id, proxy_id, loopback, link_keys}
use new_mavlink.Programs.VehicleEndpoint.{VehicleEndpoint, new_vehicle, ends, loop}
use new_mavlink.Programs.VehicleEndpoint.Sends.{IsReady, turn_lem}

module _ {W : Type 0} (a : Ascon) (answers : Answers a) (net : Network W) (udp : UdpEndpoint)
    (network : TakesAll net udp loopback) (peer_port duration_ms : ℕ) where
  ends-zero :
      (now_ms : ℕ)
      → (ends duration_ms now_ms none ≡ some 0)
        ⊎ ((ends duration_ms now_ms none ≡ none) × (now_ms < duration_ms))
  unfolding ends
  ends-zero now_ms = elim (Bool-cases (duration_ms == 0 || leb duration_ms now_ms)) [
    | inl over ↦ inl (ground (arith, over))
    | inr more ↦ inr (ground (arith, more), ground (arith, more))
  ]

  loop-sends :
      (fuel now_ms : ℕ) (w : W) (v : VehicleEndpoint)
      → IsReady v
      → v.sequence + 3 * (fuel + 1) < 2 ^ 64 - 1
      → duration_ms + 100 < 2 ^ 64
      → duration_ms ≤ now_ms + 100 * fuel
      → (loop (suc fuel) a net udp peer_port duration_ms now_ms w v).2 ≡ some 0
  loop-sends zero now_ms w v ready room small enough =
      let (code, _, _) =
        turn_lem a answers net udp network peer_port duration_ms now_ms w v ready (omega arith) in
      elim (ends-zero now_ms) [
        | inl over ↦ loop-returns a net udp peer_port duration_ms 0 now_ms w v 0 (code ∙ over)
        | inr (_, late) ↦ absurd (omega (arith, late))
      ]
  loop-sends (suc fuel) now_ms w v ready room small enough =
      let (code, ready1, count) =
        turn_lem a answers net udp network peer_port duration_ms now_ms w v ready (omega arith) in
      elim (ends-zero now_ms) [
        | inl over ↦
            loop-returns a net udp peer_port duration_ms (suc fuel) now_ms w v 0 (code ∙ over)
        | inr (more, late) ↦
            let step =
              loop-goes_on a net udp peer_port duration_ms (suc fuel) now_ms w v
                (omega (arith, late)) (code ∙ more) in
            ap (λ (t : W × VehicleEndpoint × Option ℕ). t.2) step
            ∙ loop-sends fuel (now_ms + 100) _ _ ready1 (omega (arith, count)) small (omega arith)
      ]

  -- With the keys of the link to the proxy, if they are valid, a cipher whose functions return 0,
  -- a network that takes every datagram in full, and a duration that leaves room for one more
  -- turn in 64 bits, the vehicle runs to its end with exit code 0: it is never refused by its own
  -- session.
  pub loop-succeeds :
      (first second : DirectionalKeys) (w : W)
      → link_keys a vehicle_id proxy_id ≡ some (first, second)
      → valid_keys first ≡ true
      → duration_ms + 100 < 2 ^ 64
      → (loop
          (suc ((duration_ms + 99) / 100))
          a
          net
          udp
          peer_port
          duration_ms
          0
          w
          (new_vehicle (new_endpoint (new_session first)))).2
        ≡ some 0
  unfolding link_keys new_vehicle new_endpoint new_session new_publisher
  loop-succeeds first second w derived valid small =
      let (_, session, local_id, peer_id, _, _, _, _, _) =
        derive_directional_keys-Mirrors a psk session_id vehicle_id proxy_id first second derived in
      loop-sends ((duration_ms + 99) / 100) 0 w _
        (record {
          owns = (refl, refl);
          keys = valid;
          ids = (local_id, peer_id);
          session =
              (ap (λ (s : SessionId). s.value) session, ap (λ (s : SessionId). s.epoch) session);
          later = refl;
        })
        (omega arith) small (omega arith)
