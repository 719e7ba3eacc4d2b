-- ===== src/Programs/AdapterProbe/Ends.antt =====
-- apps/px4_adapter_probe.cpp: the wait for the acknowledgement ends.
use new_mavlink.Common.{
  ℕ, ℤ, zero, suc, ◌-◌, ◌<◌, ◌≤◌, ◌≡◌, inl, inr, refl, sym, subst, Bool, true, false, Option, none,
  some, List, [], ◌∷◌, Buffer, ltb, ◌==◌, Bool-cases, ==_iff, arith, write_bytes, length,
}
use new_mavlink.Messages.{CommandAck}
use new_mavlink.Adapter.{Mavlink, decode_command_ack, frame_bytes}
use new_mavlink.Programs.AdapterProbe.{
  Surroundings, Turn, judged, on_datagram, on_ready, turn, listen, remaining, seconds, microseconds,
}

-- A clock that does not go back, and has gone on when a datagram was received.
pub record Passes {W C M : Type 0} (s : Surroundings W C M) (time : W → ℕ) : Type 0 where
  pub reads : (w : W) → (s.now w).1 ≡ time w
  pub reading : (w : W) → time w ≤ time (s.now w).0
  pub waiting : (w : W) (fd : ℕ) (a b : ℤ) → time w ≤ time (s.wait_readable w fd a b).0
  pub receiving : (w : W) (fd n : ℕ) → time w < time (s.net.receive_datagram w fd n).0

-- The acknowledgement, where one was found, is one of the command.
abbrev pub Confirms : ℕ → Option CommandAck → Type 0
Confirms command none = Unit
Confirms command (some ack) = ack.result_code ≡ command

-- A turn leaves the loop with such a result, or goes on at a later time.
abbrev Moves : {W C : Type 0} → (W → ℕ) → ℕ → ℕ → W → W × Turn C → Type 0
Moves time command deadline w (w1, Turn.goes_on c buffer) = (time w < deadline) × (time w < time w1)
Moves time command deadline w (w1, Turn.leaves c found) = Confirms command found

module _ {W C M : Type 0} (mav : Mavlink C M) (time : W → ℕ) (command deadline : ℕ) (w w1 : W)
    (early : time w < deadline) (later : time w < time w1) where
  judged-Moves :
      (buffer : Buffer) (it : C × Option CommandAck)
      → Moves time command deadline w (w1, judged command buffer it)
  unfolding judged
  judged-Moves buffer (c, none) = (early, later)
  judged-Moves buffer (c, some ack) = elim (Bool-cases (ack.result_code == command)) [
    | inl same ↦ rw same ((==_iff ack.result_code command).0 same)
    | inr other ↦ rw other (early, later)
  ]

  on_datagram-Moves :
      (c : C) (buffer : Buffer) (received : Option (List ℕ))
      → Moves time command deadline w (w1, on_datagram mav command c buffer received)
  unfolding on_datagram
  on_datagram-Moves c buffer none = tt
  on_datagram-Moves c buffer (some []) = tt
  on_datagram-Moves c buffer (some (x ∷ xs)) =
      let buffer1 = write_bytes buffer 0 (x ∷ xs) in
      judged-Moves buffer1 (decode_command_ack mav c (some buffer1) (length (x ∷ xs)))

module _ {W C M : Type 0} (s : Surroundings W C M) (time : W → ℕ) (passes : Passes s time)
    (fd command deadline : ℕ) where
  on_ready-Moves :
      (w w1 : W) (c : C) (buffer : Buffer) (ready : Bool)
      → time w < deadline
      → time w ≤ time w1
      → Moves time command deadline w (on_ready s fd command c buffer (w1, ready))
  unfolding on_ready
  on_ready-Moves w w1 c buffer false a b = tt
  on_ready-Moves w w1 c buffer true a b =
      on_datagram-Moves s.mav time command deadline w (s.net.receive_datagram w1 fd frame_bytes).0 a
        (omega (arith, b, passes.receiving w1 fd frame_bytes)) c buffer _

  turn-Moves :
      (w : W) (c : C) (buffer : Buffer)
      → Moves time command deadline w (turn s fd command deadline w c buffer)
  unfolding turn
  turn-Moves w c buffer = elim (Bool-cases (ltb (s.now w).1 deadline)) [
    | inl early ↦
        let w2 = (s.now (s.now w).0).0 in
        let left = remaining deadline (s.now (s.now w).0).1 in
        rw early (
          on_ready-Moves w (s.wait_readable w2 fd (seconds left) (microseconds left)).0 c buffer
            (s.wait_readable w2 fd (seconds left) (microseconds left)).1
            (ground (arith, early, passes.reads w))
            (omega (
              arith,
              passes.reading w,
              passes.reading (s.now w).0,
              passes.waiting w2 fd (seconds left) (microseconds left),
            )))
    | inr late ↦ rw late tt
  ]

  -- What the rest of the loop does after a turn.
  resumed : ℕ → W × Turn C → Option (W × C × Option CommandAck)
  resumed fuel (w1, Turn.goes_on c1 buffer1) = listen s fuel fd command deadline w1 c1 buffer1
  resumed fuel (w1, Turn.leaves c1 found) = some (w1, c1, found)

  listen-resumed :
      (fuel : ℕ) (w : W) (c : C) (buffer : Buffer)
      → listen s (suc fuel) fd command deadline w c buffer
        ≡ resumed fuel (turn s fd command deadline w c buffer)
  unfolding listen resumed
  listen-resumed fuel w c buffer = go (turn s fd command deadline w c buffer)
    where
      go :
          (it : W × Turn C)
          → (elim it.1 [
            | Turn.goes_on c1 buffer1 ↦ listen s fuel fd command deadline it.0 c1 buffer1
            | Turn.leaves c1 found ↦ some (it.0, c1, found)
          ])
            ≡ resumed fuel it
      go (w1, Turn.goes_on c1 buffer1) = refl
      go (w1, Turn.leaves c1 found) = refl

  -- The loop comes to an end, with an acknowledgement of the command or with none.
  abbrev pub Ends : Option (W × C × Option CommandAck) → Type 0
  Ends result =
      (w1 : W) × (c1 : C) × (found : Option CommandAck) × (result ≡ some (w1, c1, found))
      × Confirms command found

  resumed-Ends :
      (fuel : ℕ)
      → ((w : W) (c : C) (buffer : Buffer)
          → deadline - time w < fuel
          → Ends (listen s fuel fd command deadline w c buffer))
      → (w : W) (it : W × Turn C) → deadline - time w < suc fuel
      → Moves time command deadline w it
      → Ends (resumed fuel it)
  unfolding resumed
  resumed-Ends fuel rest w (w1, Turn.goes_on c1 buffer1) h (early, later) =
      rest w1 c1 buffer1 (omega (arith, early, later, h))
  resumed-Ends fuel rest w (w1, Turn.leaves c1 found) h sound = (w1, c1, found, refl, sound)

  -- If the clock does not go back and has gone on whenever a datagram was received, the wait for
  -- the acknowledgement ends, whatever arrives, after at most one turn more than there are
  -- nanoseconds to its deadline, and an acknowledgement that it ends with is one of the command
  -- that was sent.
  pub listen-Ends :
      (fuel : ℕ) (w : W) (c : C) (buffer : Buffer)
      → deadline - time w < fuel
      → Ends (listen s fuel fd command deadline w c buffer)
  listen-Ends zero w c buffer h = absurd (omega (arith, h))
  listen-Ends (suc fuel) w c buffer h = subst Ends (sym (listen-resumed fuel w c buffer)) (
      resumed-Ends fuel (listen-Ends fuel) w (turn s fd command deadline w c buffer) h
        (turn-Moves w c buffer))
