-- ===== src/Programs/ProxyService/Runs.antt =====
-- apps/proxy_service.cpp: runs of the loop.
use new_mavlink.Common.{
  ℕ, ◌+◌, ◌%◌, ◌^◌, ◌<◌, ◌≡◌, ◌≢◌, inl, inr, refl, sym, ap, subst, ◌∙◌, true, false, Option, none,
  some, List, Buffer, Zeros, write_bytes, length, Bool-cases, u64, Steps, Steps-invariant, arith,
}
use new_mavlink.Crypto.{Ascon}
use new_mavlink.Wire.{RecordHeader, DirectionalKeys}
use new_mavlink.Record.Types.{OpenRecord, Result, ok, err, Result-cases}
use new_mavlink.Record.Session.{new_session, open_uncommitted}
use new_mavlink.Record.Session.Nonces.{Later}
use new_mavlink.Record.Session.Seal.{seal_inv}
use new_mavlink.Transport.Udp.{Network, UdpEndpoint}
use new_mavlink.Transport.{NativeEndpoint, new_endpoint, send, receive_uncommitted}
use new_mavlink.Transport.{commit as commit_endpoint}
use new_mavlink.Transport.Delivery.{Arrives, receive_arrived, send_inv}
use new_mavlink.Programs.{loopback}
use new_mavlink.Programs.ProxyService.{
  ProxyService, new_service, fits_schema, out_header, relayed, relay, on_record, on_received, turn,
}

module _ {W : Type 0} (net : Network W) (a : Ascon) (udp : UdpEndpoint)
    (egress_port duration_ms elapsed : ℕ) where
  turn-rejects :
      (w w1 : W) (s : ProxyService) (f1 : NativeEndpoint) (o : OpenRecord)
      → receive_uncommitted a net w s.ingress udp (elapsed % 2 ^ 32) ≡ (w1, f1, ok o)
      → fits_schema o ≡ false
      → turn a net udp egress_port duration_ms elapsed w s
        ≡ (w1, record s { ingress = f1; received_any = true }, none)
  unfolding turn on_received on_record
  turn-rejects w w1 s f1 o came bad =
      ap (on_received a net udp egress_port duration_ms elapsed s) came ∙ rw bad refl

  -- If the record that a turn opens does not fit its schema, the program goes on, whatever the
  -- duration, and is left with its sessions and its counter as they were; the same datagram,
  -- given to the next turn at the same time, is opened again, with the same outcome.
  pub turn-again :
      (w w1 w2 w3 : W) (s : ProxyService) (f1 : NativeEndpoint) (o : OpenRecord) (datagram : List ℕ)
      → Arrives net w udp datagram w1
      → Arrives net w2 udp datagram w3
      → 0 < length datagram
      → receive_uncommitted a net w s.ingress udp (elapsed % 2 ^ 32) ≡ (w1, f1, ok o)
      → fits_schema o ≡ false
      → (s1 s2 : ProxyService) × (turn a net udp egress_port duration_ms elapsed w s
          ≡ (w1, s1, none))
        × (turn a net udp egress_port duration_ms elapsed w2 s1 ≡ (w3, s2, none))
        × (s2.ingress.session ≡ s.ingress.session)
        × (s2.egress ≡ s.egress)
        × (s2.egress_sequence ≡ s.egress_sequence)
  turn-again w w1 w2 w3 s f1 o datagram first second lt came bad =
      let once = receive_arrived net a w s.ingress udp datagram w1 (elapsed % 2 ^ 32) first lt in
      let opened = ap (λ (t : W × NativeEndpoint × Result OpenRecord). t.2) (sym once ∙ came) in
      let kept : f1.session ≡ s.ingress.session =
        ap (λ (t : W × NativeEndpoint × Result OpenRecord). t.1.session) (sym came ∙ once) in
      let s1 = record s { ingress = f1; received_any = true } in
      let twice = receive_arrived net a w2 f1 udp datagram w3 (elapsed % 2 ^ 32) second lt ∙ λ i. (
        w3,
        record f1 { buffer = write_bytes f1.buffer 0 datagram },
        (ap
                (λ r.
                  open_uncommitted a r (some (write_bytes Zeros 0 datagram)) (length datagram)
                    (elapsed % 2 ^ 32))
                kept
              ∙ opened)
            i,
      ) in
      (
        s1,
        record s1 { ingress = record f1 { buffer = write_bytes f1.buffer 0 datagram } },
        turn-rejects w w1 s f1 o came bad,
        turn-rejects w2 w3 s1 (record f1 { buffer = write_bytes f1.buffer 0 datagram }) o twice bad,
        kept,
        refl,
        refl,
      )

-- A turn that sent and does not exit with 5 sent what it was to send.
pub relayed_inv :
    {W : Type 0} (duration_ms elapsed : ℕ) (s : ProxyService)
    (out : W × NativeEndpoint × Result (Unit {0})) (w : W) (s1 : ProxyService) (code : Option ℕ)
    → relayed duration_ms elapsed s out ≡ (w, s1, code)
    → code ≢ some 5
    → (out ≡ (w, s1.egress, ok tt)) × (s1 ≡ record s { egress = s1.egress })
unfolding relayed
relayed_inv duration_ms elapsed s (w', e, err x) w s1 code eq failed =
    absurd (failed (sym (ap (λ t. t.2) eq)))
relayed_inv duration_ms elapsed s (w', e, ok x) w s1 code eq failed = (
  λ i. ((eq i).0, (eq i).1.egress, ok tt),
  sym (λ i. (eq i).1) ∙ λ i. record s { egress = (eq i).1.egress },
)

-- The counter of the service fits in 64 bits, and its egress session has remembered a smaller
-- number, if any.
pub record IsReady (s : ProxyService) : Type 0 where
  pub counter : s.egress_sequence < 2 ^ 64
  pub later : Later s.egress.session s.egress_sequence

module _ {W : Type 0} (net : Network W) (a : Ascon) (udp : UdpEndpoint)
    (egress_port duration_ms : ℕ) where
  -- A turn after which the program goes on.
  pub data ServiceStep : ProxyService → ProxyService → Type 0 where
    goes_on :
        (elapsed : ℕ) (w w' : W) (s s' : ProxyService)
        → turn a net udp egress_port duration_ms elapsed w s ≡ (w', s', none)
        → ServiceStep s s'

  sequence_of :
      (s : ProxyService) (o : OpenRecord) → (out_header s o.header).sequence ≡ s.egress_sequence
  unfolding out_header
  sequence_of s o = refl

  sends-IsReady :
      (w w1 : W) (s : ProxyService) (e1 : NativeEndpoint) (h : RecordHeader) (plain : Buffer)
      (size : ℕ)
      → h.sequence ≡ s.egress_sequence
      → send a net w s.egress h (some plain) size udp loopback egress_port ≡ (w1, e1, ok tt)
      → IsReady s
      → IsReady (record s { egress = e1; egress_sequence = u64 (s.egress_sequence + 1) })
  sends-IsReady w w1 s e1 h plain size number sent ready =
      let (sealed, sealing, _, _) =
        send_inv net a w s.egress h plain size udp loopback egress_port w1 e1 sent in
      let inv =
        seal_inv a s.egress.session h (some plain) size s.egress.buffer e1.session sealed sealing in
      let next : u64 (s.egress_sequence + 1) ≡ s.egress_sequence + 1 =
        omega (arith, ready.counter, inv.admitted.sequence, number) in
      record {
        counter = rw next (omega (arith, ready.counter, inv.admitted.sequence, number));
        later = rw (next, inv.state, number) (ground arith);
      }

  abbrev no_code : Option ℕ
  no_code = none

  not_failed : no_code ≢ some 5
  not_failed e = cc

  not_stale : some 8 ≢ no_code
  not_stale e = cc

  relayed-IsReady :
      (elapsed : ℕ) (w w' : W) (s s' : ProxyService) (h : RecordHeader) (plain : Buffer) (size : ℕ)
      → h.sequence ≡ s.egress_sequence
      → relayed duration_ms elapsed
          (record s { egress_sequence = u64 (s.egress_sequence + 1) })
          (send a net w s.egress h (some plain) size udp loopback egress_port)
        ≡ (w', s', none)
      → IsReady s
      → IsReady s'
  relayed-IsReady elapsed w w' s s' h plain size number e ready =
      let (sent, after) =
        relayed_inv duration_ms elapsed (record s { egress_sequence = u64 (s.egress_sequence + 1) })
          _ w' s' no_code e not_failed in
      subst IsReady (sym after) (sends-IsReady w w' s s'.egress h plain size number sent ready)

  abbrev code_of : W × ProxyService × Option ℕ → Option ℕ
  code_of t = t.2

  abbrev state_of : W × ProxyService × Option ℕ → ProxyService
  state_of t = t.1

  on_record-IsReady :
      (elapsed : ℕ) (w w' : W) (s s' : ProxyService) (o : OpenRecord)
      → on_record a net udp egress_port duration_ms elapsed w s o ≡ (w', s', none)
      → IsReady s
      → IsReady s'
  unfolding on_record relay out_header
  on_record-IsReady elapsed w w' s s' o e ready = elim (Bool-cases (fits_schema o)) [
    | inl fits ↦ elim (Result-cases (commit_endpoint s.ingress o).1) [
      | inl (x, committed) ↦
          let s1 = record s { ingress = (commit_endpoint s.ingress o).0; received_any = true } in
          let onward : on_record a net udp egress_port duration_ms elapsed w s o
              ≡ relayed duration_ms elapsed
                  (record s1 { egress_sequence = u64 (s.egress_sequence + 1) })
                  (send a net w s.egress (out_header s o.header) (some o.payload) o.length udp
                    loopback egress_port) =
            rw (fits, committed) refl in
          relayed-IsReady elapsed w w' s1 s' (out_header s o.header) o.payload o.length
            (sequence_of s o) (sym onward ∙ e)
            (record { counter = ready.counter; later = ready.later })
      | inr (x, stale) ↦
          let onward : code_of (on_record a net udp egress_port duration_ms elapsed w s o)
              ≡ some 8 =
            rw (fits, stale) refl in
          absurd (not_stale (sym onward ∙ ap code_of e))
    ]
    | inr bad ↦
        let onward : state_of (on_record a net udp egress_port duration_ms elapsed w s o)
            ≡ record s { received_any = true } =
          rw bad refl in
        subst IsReady (sym onward ∙ ap state_of e)
          (record { counter = ready.counter; later = ready.later })
  ]

  on_received-IsReady :
      (elapsed : ℕ) (s s' : ProxyService) (w' : W) (r : W × NativeEndpoint × Result OpenRecord)
      → on_received a net udp egress_port duration_ms elapsed s r ≡ (w', s', none)
      → IsReady s
      → IsReady s'
  unfolding on_received
  on_received-IsReady elapsed s s' w' (w, e, err x) eq ready =
      subst IsReady (ap state_of eq) (record { counter = ready.counter; later = ready.later })
  on_received-IsReady elapsed s s' w' (w, e, ok o) eq ready =
      on_record-IsReady elapsed w w' (record s { ingress = e }) s' o eq
        (record { counter = ready.counter; later = ready.later })

  step-IsReady : (s s' : ProxyService) → ServiceStep s s' → IsReady s → IsReady s'
  unfolding turn
  step-IsReady s s' (goes_on elapsed w w' _ _ e) ready =
      on_received-IsReady elapsed s s' w' _ e ready

  -- In every state that the loop reaches from the start of the service, whatever arrives, the
  -- counter fits in 64 bits and the egress session has not sent under it or a later number, so
  -- that no record is refused for its sequence number before the counter is at its end.
  pub reachable-IsReady :
      (ingress egress : DirectionalKeys) (s : ProxyService)
      → Steps ServiceStep
          (new_service (new_endpoint (new_session ingress)) (new_endpoint (new_session egress)))
          s
      → IsReady s
  unfolding new_service new_endpoint new_session
  reachable-IsReady ingress egress s run =
      Steps-invariant IsReady step-IsReady _ s run (record { counter = omega arith; later = refl })
