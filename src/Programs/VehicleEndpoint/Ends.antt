-- ===== src/Programs/VehicleEndpoint/Ends.antt =====
-- apps/vehicle_endpoint.cpp, lines 26 to 35: the loop of the vehicle ends.
use new_mavlink.Common.{
  ℕ, zero, suc, ◌+◌, ◌*◌, ◌/◌, ◌^◌, ◌<◌, ◌≤◌, ◌≡◌, ◌⊎◌, inl, inr, refl, ap, false, List, [], ◌∷◌,
  Option, none, some, Bool-cases, u64, arith, leb, ◌==◌, ◌||◌, ◌∙◌,
}
use new_mavlink.Crypto.{Ascon}
use new_mavlink.Publisher.{PublishedMessage}
use new_mavlink.Publisher.Poll.{poll}
use new_mavlink.Record.Types.{RecordError, Result, ok, err, Result-cases}
use new_mavlink.Transport.Udp.{Network, UdpEndpoint}
use new_mavlink.Transport.{NativeEndpoint, send}
use new_mavlink.Programs.{loopback}
use new_mavlink.Programs.VehicleEndpoint.{
  VehicleEndpoint, first_updates, later_update, max_helpful_snapshot_messages, out_header,
  send_messages, ends, turn, loop,
}

module _ {W : Type 0} (a : Ascon) (net : Network W) (udp : UdpEndpoint)
    (peer_port duration_ms : ℕ) where
  -- What the program does with one message.
  abbrev sending : W → VehicleEndpoint → PublishedMessage → W × NativeEndpoint × Result (Unit {0})
  sending w v m =
      send a net w v.endpoint (out_header v m.message) (some m.message.payload) m.message.length udp
        loopback peer_port

  abbrev advanced : VehicleEndpoint → NativeEndpoint → VehicleEndpoint
  advanced v endpoint = record v { endpoint = endpoint; sequence = u64 (v.sequence + 1) }

  -- One of the messages is not sent, and those before it are.
  abbrev pub Fails : W → VehicleEndpoint → List PublishedMessage → Type 0
  Fails w v [] = ⊥
  Fails w v (m ∷ rest) =
      let (w1, endpoint, result) = sending w v m in
      ((error : RecordError) × (result ≡ err error))
      ⊎ ((result ≡ ok tt) × Fails w1 (advanced v endpoint) rest)

  -- The vehicle of a turn before it sends, and the messages that it is to send.
  abbrev pub due_messages : ℕ → VehicleEndpoint → VehicleEndpoint × List PublishedMessage
  due_messages now_ms v =
      let v1 = later_update (first_updates v now_ms) duration_ms now_ms in
      let (p, messages) = poll v1.publisher now_ms false max_helpful_snapshot_messages in
      (record v1 { publisher = p }, messages)

  -- A message of one of the next turns is not sent.
  abbrev pub FailsWithin : ℕ → ℕ → W → VehicleEndpoint → Type 0
  FailsWithin zero now_ms w v = ⊥
  FailsWithin (suc turns) now_ms w v =
      let (v1, messages) = due_messages now_ms v in
      let (w2, v2, _) = turn a net udp peer_port duration_ms now_ms w v in
      Fails w v1 messages ⊎ FailsWithin turns (now_ms + 100) w2 v2

  messages-Fails :
      (w : W) (v : VehicleEndpoint) (messages : List PublishedMessage)
      → (((send_messages a net udp peer_port w v messages).2 ≡ none) × (Fails w v messages → ⊥))
        ⊎ (((send_messages a net udp peer_port w v messages).2 ≡ some 5) × Fails w v messages)
  unfolding send_messages
  messages-Fails w v [] = inl (refl, λ none_left. none_left)
  messages-Fails w v (m ∷ rest) = elim (Result-cases (sending w v m).2) [
    | inr (x, failed) ↦ inr (rw (send_messages, failed) refl, inl (x, failed))
    | inl (x, sent) ↦ elim (messages-Fails (sending w v m).0 (advanced v (sending w v m).1) rest) [
      | inl (code, fine) ↦ inl (
        rw (send_messages, sent) code,
        λ (fails : Fails w v (m ∷ rest)). elim fails [
          | inl (e, failed) ↦ absurd (ground (arith, sent, failed))
          | inr (done, more) ↦ fine more
        ],
      )
      | inr (code, fails) ↦ inr (rw (send_messages, sent) code, inr (sent, fails))
    ]
  ]

  ends-late :
      (now_ms : ℕ) (sent : Option ℕ) → ends duration_ms now_ms sent ≡ none → now_ms < duration_ms
  unfolding ends
  ends-late now_ms none e = ground arith
  ends-late now_ms (some n) e = absurd (ground arith)

  pub turn-late :
      (now_ms : ℕ) (w : W) (v : VehicleEndpoint)
      → (turn a net udp peer_port duration_ms now_ms w v).2 ≡ none
      → now_ms < duration_ms
  unfolding turn
  turn-late now_ms w v e = ends-late now_ms _ e

  pub loop-goes_on :
      (fuel now_ms : ℕ) (w : W) (v : VehicleEndpoint)
      → now_ms + 100 < 2 ^ 64
      → (turn a net udp peer_port duration_ms now_ms w v).2 ≡ none
      → loop (suc fuel) a net udp peer_port duration_ms now_ms w v
        ≡ loop fuel a net udp peer_port duration_ms
            (now_ms + 100)
            (turn a net udp peer_port duration_ms now_ms w v).0
            (turn a net udp peer_port duration_ms now_ms w v).1
  unfolding loop
  loop-goes_on fuel now_ms w v small e =
      let next : u64 (now_ms + 100) ≡ now_ms + 100 = omega arith in rw (loop, e, next) refl

  pub loop-returns :
      (fuel now_ms : ℕ) (w : W) (v : VehicleEndpoint) (code : ℕ)
      → (turn a net udp peer_port duration_ms now_ms w v).2 ≡ some code
      → (loop (suc fuel) a net udp peer_port duration_ms now_ms w v).2 ≡ some code
  unfolding loop
  loop-returns fuel now_ms w v code e = rw (loop, e) refl

  -- How the loop ends after that many turns and one, from a time on: with 0, if every message of
  -- these turns was sent, and then one turn less was not enough; with 5, if one was not.
  abbrev pub EndsWith : ℕ → ℕ → W → VehicleEndpoint → ℕ → Type 0
  EndsWith turns now_ms w v code =
      ((loop (suc turns) a net udp peer_port duration_ms now_ms w v).2 ≡ some code)
      × (((code ≡ 0)
            × (FailsWithin (suc turns) now_ms w v → ⊥)
            × ((loop turns a net udp peer_port duration_ms now_ms w v).2 ≡ none))
          ⊎ ((code ≡ 5) × FailsWithin (suc turns) now_ms w v))

  turn-ends :
      (now_ms : ℕ) (w : W) (v : VehicleEndpoint)
      → (turn a net udp peer_port duration_ms now_ms w v).2
        ≡ ends duration_ms now_ms
            (send_messages a net udp peer_port w
              (due_messages now_ms v).0
              (due_messages now_ms v).1).2
  unfolding turn
  turn-ends now_ms w v = refl

  -- A turn fails, or ends the program in time, or goes on before its time.
  turn-cases :
      (now_ms : ℕ) (w : W) (v : VehicleEndpoint)
      → (((turn a net udp peer_port duration_ms now_ms w v).2 ≡ some 5)
          × Fails w (due_messages now_ms v).0 (due_messages now_ms v).1)
        ⊎ ((Fails w (due_messages now_ms v).0 (due_messages now_ms v).1 → ⊥)
            × ((((turn a net udp peer_port duration_ms now_ms w v).2 ≡ some 0)
                  × (duration_ms ≤ now_ms))
                ⊎ (((turn a net udp peer_port duration_ms now_ms w v).2 ≡ none)
                    × (now_ms < duration_ms))))
  unfolding ends
  turn-cases now_ms w v =
      let (v1, messages) = due_messages now_ms v in
      elim (messages-Fails w v1 messages) [
        | inr (code, fails) ↦ inl (turn-ends now_ms w v ∙ rw code refl, fails)
        | inl (code, fine) ↦ inr (
          fine,
          elim (Bool-cases (duration_ms == 0 || leb duration_ms now_ms)) [
            | inl over ↦ inl (turn-ends now_ms w v ∙ rw (code, over) refl, ground (arith, over))
            | inr early ↦ inr (turn-ends now_ms w v ∙ rw (code, early) refl, ground (arith, early))
          ],
        )
      ]

  -- The last turn is the only one.
  last_turn :
      (turns now_ms : ℕ) (w : W) (v : VehicleEndpoint)
      → turns ≡ 0
      → (Fails w (due_messages now_ms v).0 (due_messages now_ms v).1 → ⊥)
      → (turn a net udp peer_port duration_ms now_ms w v).2 ≡ some 0
      → EndsWith turns now_ms w v 0
  unfolding loop
  last_turn zero now_ms w v last fine code = (
    loop-returns 0 now_ms w v 0 code,
    inl (
      refl,
      λ (fails : FailsWithin 1 now_ms w v). elim fails [
        | inl failed ↦ fine failed
        | inr nothing ↦ nothing
      ],
      refl,
    ),
  )
  last_turn (suc turns) now_ms w v last fine code = absurd (omega (arith, last))

  -- A turn before the others.
  one_more :
      (turns now_ms : ℕ) (w : W) (v : VehicleEndpoint) (code : ℕ)
      → now_ms + 100 < 2 ^ 64
      → (turn a net udp peer_port duration_ms now_ms w v).2 ≡ none
      → (Fails w (due_messages now_ms v).0 (due_messages now_ms v).1 → ⊥)
      → EndsWith turns
          (now_ms + 100)
          (turn a net udp peer_port duration_ms now_ms w v).0
          (turn a net udp peer_port duration_ms now_ms w v).1
          code
      → EndsWith (suc turns) now_ms w v code
  one_more turns now_ms w v code small on fine (returns, outcome) = (
    ap (λ (r : W × VehicleEndpoint × Option ℕ). r.2) (loop-goes_on (suc turns) now_ms w v small on)
        ∙ returns,
    elim outcome [
      | inl (zero_code, rest_fine, too_few) ↦ inl (
        zero_code,
        λ (fails : FailsWithin (suc (suc turns)) now_ms w v). elim fails [
          | inl failed ↦ fine failed
          | inr rest_fails ↦ rest_fine rest_fails
        ],
        ap (λ (r : W × VehicleEndpoint × Option ℕ). r.2) (loop-goes_on turns now_ms w v small on)
            ∙ too_few,
      )
      | inr (five, fails) ↦ inr (five, inr fails)
    ],
  )

  loop-from :
      (turns now_ms : ℕ) (w : W) (v : VehicleEndpoint)
      → duration_ms + 100 < 2 ^ 64
      → duration_ms ≤ now_ms + 100 * turns
      → now_ms + 100 * turns < duration_ms + 100
      → (code : ℕ) × EndsWith turns now_ms w v code
  loop-from zero now_ms w v small enough exact = elim (turn-cases now_ms w v) [
    | inl (code, fails) ↦ (5, (loop-returns 0 now_ms w v 5 code, inr (refl, inl fails)))
    | inr (fine, outcome) ↦ elim outcome [
      | inl (code, over) ↦ (0, last_turn 0 now_ms w v refl fine code)
      | inr (code, early) ↦ absurd (omega (arith, early, enough))
    ]
  ]
  loop-from (suc turns) now_ms w v small enough exact = elim (turn-cases now_ms w v) [
    | inl (code, fails) ↦ (5, (loop-returns (suc turns) now_ms w v 5 code, inr (refl, inl fails)))
    | inr (fine, outcome) ↦ elim outcome [
      | inl (code, over) ↦
          (0, last_turn (suc turns) now_ms w v (absurd (omega (arith, over, exact))) fine code)
      | inr (code, early) ↦
          let (w2, v2, _) = turn a net udp peer_port duration_ms now_ms w v in
          let (end, rest) =
            loop-from turns (now_ms + 100) w2 v2 small (omega (arith, enough))
              (omega (arith, exact)) in
          (end, one_more turns now_ms w v end (omega (arith, early, small)) code fine rest)
    ]
  ]

  -- For a duration that leaves room for one more turn in 64 bits, the loop of the vehicle ends
  -- within one turn and another for every 100 milliseconds begun, whatever the network and the
  -- cipher do: with exit code 5 if a message that one of these turns is to send is not sent, and
  -- otherwise with 0, and then one turn less is not enough.
  pub loop-ends :
      (w : W) (v : VehicleEndpoint)
      → duration_ms + 100 < 2 ^ 64
      → (code : ℕ) × EndsWith ((duration_ms + 99) / 100) 0 w v code
  loop-ends w v small = loop-from ((duration_ms + 99) / 100) 0 w v small (omega arith) (omega arith)
