-- ===== src/Adapter/Commands.antt =====
-- src/mavlink2_adapter.cpp, lines 12 to 38: the commands that the adapter passes on.
use new_mavlink.Common.{
  ℕ, ◌≤◌, ◌≡◌, ◌≢◌, ◌⊎◌, inl, inr, subst, true, false, ◌||◌, List, some, Zeros, Bool-cases,
  read_bytes, write_bytes, read_bytes-write_bytes, length, ltb, ◌==◌, arith,
}
use new_mavlink.Messages.{CommandRequest}
use new_mavlink.Messages.Requests.{valid_command}
use new_mavlink.Adapter.{
  Mavlink, MavlinkFrame, command_allowed, refuses_command, framed, encode_command_long, frame_bytes,
}

module _ (source_system source_component target_system target_component : ℕ)
    (request : CommandRequest)
    (good : refuses_command request source_system source_component target_system target_component
      ≡ false) where
  allowed_of : (request.command_id ≡ 400) ⊎ ((request.command_id ≡ 22) ⊎ (request.command_id ≡ 21))
  unfolding refuses_command command_allowed
  allowed_of = ground (arith, good)

  valid_of : valid_command request ≡ true
  unfolding refuses_command command_allowed valid_command
  valid_of = ground (arith, good)

  addressed_of :
      (source_system ≢ 0) × (source_component ≢ 0) × (target_system ≢ 0) × (target_component ≢ 0)
  unfolding refuses_command
  addressed_of = ground (arith, good)

module _ {C M : Type 0} (mav : Mavlink C M) where
  -- What a frame that goes to the autopilot was made of.
  pub record SendsCommand (c : C) (request : CommandRequest) (source_system source_component : ℕ)
      (target_system target_component : ℕ) (frame : MavlinkFrame) : Type 0 where
    pub allowed :
        (request.command_id ≡ 400) ⊎ ((request.command_id ≡ 22) ⊎ (request.command_id ≡ 21))
    pub valid : valid_command request ≡ true
    pub addressed :
        (source_system ≢ 0) × (source_component ≢ 0) × (target_system ≢ 0) × (target_component ≢ 0)
    pub size : (1 ≤ frame.length) × (frame.length ≤ frame_bytes)
    pub bytes :
        read_bytes frame.bytes 0 frame.length
        ≡ mav.to_send_buffer
            (mav.command_long_pack c source_system source_component target_system target_component
              request.command_id 0 request.args).1

  framed_inv :
      (bytes : List ℕ) (frame : MavlinkFrame)
      → framed bytes ≡ some frame
      → (1 ≤ frame.length)
        × (frame.length ≤ frame_bytes)
        × (read_bytes frame.bytes 0 frame.length ≡ bytes)
  unfolding framed
  framed_inv bytes frame e =
      elim (Bool-cases (length bytes == 0 || ltb frame_bytes (length bytes))) [
        | inl bad ↦ absurd (ground (arith, e, bad))
        | inr good ↦
            let it : record { bytes = write_bytes Zeros 0 bytes; length = length bytes } ≡ frame =
              ground (arith, e, good) in
            subst
              (λ (f : MavlinkFrame).
                (1 ≤ f.length) × (f.length ≤ frame_bytes) × (read_bytes f.bytes 0 f.length ≡ bytes))
              it (ground (arith, good), ground (arith, good), read_bytes-write_bytes Zeros 0 bytes)
      ]

  -- If `encode_command_long` returns a frame, the command is one of the three that are allowed,
  -- the request is one that the native codec accepts too, no identifier is 0, and the frame holds
  -- at most 280 bytes, which are those of the packed message with the command and the seven
  -- arguments.
  pub encode_command_long_inv :
      (c : C) (request : CommandRequest)
      (source_system source_component target_system target_component : ℕ) (frame : MavlinkFrame)
      → (encode_command_long mav c request source_system source_component target_system
          target_component).1
        ≡ some frame
      → SendsCommand c request source_system source_component target_system target_component frame
  unfolding encode_command_long
  encode_command_long_inv c request ss sc ts tc frame e =
      elim (Bool-cases (refuses_command request ss sc ts tc)) [
        | inl bad ↦ absurd (ground (arith, e, bad))
        | inr good ↦
            let out =
              mav.to_send_buffer
                (mav.command_long_pack c ss sc ts tc request.command_id 0 request.args).1 in
            let (lo, hi, same) = framed_inv out frame (ground (arith, e, good)) in
            accepted good lo hi same
      ]
    where
      accepted :
          refuses_command request ss sc ts tc ≡ false
          → 1 ≤ frame.length
          → frame.length ≤ frame_bytes
          → read_bytes frame.bytes 0 frame.length
            ≡ mav.to_send_buffer
                (mav.command_long_pack c ss sc ts tc request.command_id 0 request.args).1
          → SendsCommand c request ss sc ts tc frame
      accepted good lo hi same = record {
        allowed = allowed_of ss sc ts tc request good;
        valid = valid_of ss sc ts tc request good;
        addressed = addressed_of ss sc ts tc request good;
        size = (lo, hi);
        bytes = same;
      }
