-- ===== src/Programs/AdapterProbe.antt =====
-- apps/px4_adapter_probe.cpp: a command to the autopilot, whose acknowledgement is waited for.
pub mod Ends
use new_mavlink.Common.{
  ℕ, zero, suc, ◌+◌, ◌-◌, ◌*◌, ◌/◌, ◌%◌, ◌^◌, Bool, true, false, not, ◌&&◌, List, [], ◌∷◌, Option,
  none, some, Buffer, Zeros, write_bytes, read_bytes, length, ltb, ◌==◌, if◌then◌else◌, ℤ, pos,
  negsuc,
}
use new_mavlink.Messages.{CommandRequest, CommandAck}
use new_mavlink.Transport.Udp.{Network, sent_all}
use new_mavlink.Adapter.{
  Mavlink, MavlinkFrame, command_allowed, encode_command_long, decode_command_ack, frame_bytes,
}

-- What the program calls besides: the clock, in nanoseconds, a wait whose time may be negative, and
-- the heartbeat of the generated library.
pub record Surroundings (W C M : Type 0) : Type 0 where
  pub net : Network W
  pub mav : Mavlink C M
  -- std::chrono::steady_clock::now()
  pub now : W → W × ℕ
  -- ::select(fd + 1, …) with seconds and microseconds; whether it is positive
  pub wait_readable : W → ℕ → ℤ → ℤ → W × Bool
  -- mavlink_msg_heartbeat_pack: system, component, type, autopilot, base mode, custom mode, state
  pub heartbeat_pack : C → ℕ → ℕ → ℕ → ℕ → ℕ → ℕ → ℕ → C × M
  -- MAV_TYPE_GCS, MAV_AUTOPILOT_INVALID, MAV_STATE_ACTIVE
  pub mav_type_gcs : ℕ
  pub mav_autopilot_invalid : ℕ
  pub mav_state_active : ℕ
  -- htonl(INADDR_LOOPBACK)
  pub loopback_address : ℕ

-- `-n`
abbrev pub negative : ℕ → ℤ
negative zero = pos zero
negative (suc n) = negsuc n

-- What stays to `deadline` in milliseconds, and its parts as seconds and microseconds: each division
-- rounds towards 0.
unfoldable pub remaining : ℕ → ℕ → ℤ
remaining deadline now =
    if ltb deadline now
    then negative ((now - deadline) / 10 ^ 6)
    else pos ((deadline - now) / 10 ^ 6)

unfoldable pub seconds : ℤ → ℤ
seconds (pos n) = pos (n / 1000)
seconds (negsuc n) = negative ((n + 1) / 1000)

unfoldable pub microseconds : ℤ → ℤ
microseconds (pos n) = pos (n % 1000 * 1000)
microseconds (negsuc n) = negative ((n + 1) % 1000 * 1000)

-- The request: one argument, 1.0F for the command that arms.
unfoldable pub probe_request : ℕ → CommandRequest
probe_request command = record {
  request_id = 1;
  command_id = command;
  deadline_ms = 3000;
  arg_count = 1;
  args = (if command == 400 then 0x3f800000 else 0) ∷ 0 ∷ 0 ∷ 0 ∷ 0 ∷ 0 ∷ 0 ∷ [];
}

-- What a turn of the loop does: it goes on, with what `recvfrom` left in the buffer, or leaves the
-- loop, with the acknowledgement if it was found.
pub data Turn (C : Type 0) : Type 0 where
  goes_on : C → Buffer → Turn C
  leaves : C → Option CommandAck → Turn C

-- The last condition of the loop.
unfoldable pub judged : {C : Type 0} → ℕ → Buffer → C × Option CommandAck → Turn C
judged command buffer (c, none) = Turn.goes_on c buffer
judged command buffer (c, some ack) =
    if ack.result_code == command then Turn.leaves c (some ack) else Turn.goes_on c buffer

-- From the result of `recvfrom` on.
unfoldable pub on_datagram :
    {C M : Type 0} → Mavlink C M → ℕ → C → Buffer → Option (List ℕ) → Turn C
on_datagram mav command c buffer none = Turn.leaves c none
on_datagram mav command c buffer (some []) = Turn.leaves c none
on_datagram mav command c buffer (some (x ∷ xs)) =
    let buffer1 = write_bytes buffer 0 (x ∷ xs) in
    judged command buffer1 (decode_command_ack mav c (some buffer1) (length (x ∷ xs)))

-- From the result of `select` on.
unfoldable pub on_ready :
    {W C M : Type 0} → Surroundings W C M → ℕ → ℕ → C → Buffer → W × Bool → W × Turn C
on_ready s fd command c buffer (w, false) = (w, Turn.leaves c none)
on_ready s fd command c buffer (w, true) =
    let (w1, received) = s.net.receive_datagram w fd frame_bytes in
    (w1, on_datagram s.mav command c buffer received)

-- One turn of the loop, its condition included.
unfoldable pub turn :
    {W C M : Type 0} → Surroundings W C M → ℕ → ℕ → ℕ → W → C → Buffer → W × Turn C
turn s fd command deadline w c buffer =
    let (w1, before) = s.now w in
    let (w2, now) = s.now w1 in
    let left = remaining deadline now in
    if ltb before deadline
    then on_ready s fd command c buffer (s.wait_readable w2 fd (seconds left) (microseconds left))
    else (w1, Turn.leaves c none)

-- The loop, with fuel for its turns; `none` is out of fuel.
unfoldable pub listen :
    {W C M : Type 0}
    → Surroundings W C M
    → ℕ
    → ℕ
    → ℕ
    → ℕ
    → W
    → C
    → Buffer
    → Option (W × C × Option CommandAck)
listen s zero fd command deadline w c buffer = none
listen s (suc fuel) fd command deadline w c buffer =
    let (w1, result) = turn s fd command deadline w c buffer in
    elim result [
      | Turn.goes_on c1 buffer1 ↦ listen s fuel fd command deadline w1 c1 buffer1
      | Turn.leaves c1 found ↦ some (w1, c1, found)
    ]

-- Behind the loop: the exit code.
unfoldable pub finished :
    {W C M : Type 0} → Surroundings W C M → ℕ → W × C × Option CommandAck → W × C × ℕ
finished s fd (w, c, none) = (s.net.close_descriptor w fd, c, 6)
finished s fd (w, c, some ack) = (s.net.close_descriptor w fd, c, 0)

-- From the frame on.
unfoldable pub sends :
    {W C M : Type 0}
    → Surroundings W C M
    → ℕ
    → ℕ
    → ℕ
    → ℕ
    → W
    → C
    → Buffer
    → Option MavlinkFrame
    → Option (W × C × ℕ)
sends s fuel fd px4_port command w c buffer none = some (s.net.close_descriptor w fd, c, 4)
sends s fuel fd px4_port command w c buffer (some frame) =
    let (w1, sent) =
      s.net.send_datagram w fd (read_bytes frame.bytes 0 frame.length) s.loopback_address
        px4_port in
    let (w2, start) = s.now w1 in
    if sent_all sent frame.length
    then elim (listen s fuel fd command (start + 3 * 10 ^ 9) w2 c buffer) [
      | none ↦ none
      | some result ↦ some (finished s fd result)
    ]
    else some (s.net.close_descriptor w1 fd, c, 5)

-- From the socket on that was bound: the heartbeat, then the command.
unfoldable pub greets :
    {W C M : Type 0} → Surroundings W C M → ℕ → ℕ → ℕ → ℕ → W → C → Option (W × C × ℕ)
greets s fuel fd px4_port command w c =
    let (c1, heartbeat) =
      s.heartbeat_pack c 255 190 s.mav_type_gcs s.mav_autopilot_invalid 0 0 s.mav_state_active in
    let bytes = s.mav.to_send_buffer heartbeat in
    let (w1, ignored) = s.net.send_datagram w fd bytes s.loopback_address px4_port in
    let (c2, frame) = encode_command_long s.mav c1 (probe_request command) 255 190 1 1 in
    sends s fuel fd px4_port command w1 c2 (write_bytes Zeros 0 bytes) frame

-- From the socket on.
unfoldable pub on_socket :
    {W C M : Type 0} → Surroundings W C M → ℕ → ℕ → ℕ → ℕ → C → W × Option ℕ → Option (W × C × ℕ)
on_socket s fuel local_port px4_port command c (w, none) = some (w, c, 2)
on_socket s fuel local_port px4_port command c (w, some fd) =
    let (w1, bound) = s.net.bind_loopback w fd local_port in
    if bound
    then greets s fuel fd px4_port command w1 c
    else some (s.net.close_descriptor w1 fd, c, 3)

-- `main`: the exit code.
unfoldable pub probe :
    {W C M : Type 0} → Surroundings W C M → ℕ → ℕ → ℕ → ℕ → W → C → Option (W × C × ℕ)
probe s fuel local_port px4_port command w c =
    if command_allowed command
    then on_socket s fuel local_port px4_port command c (s.net.socket w)
    else some (w, c, 0)
