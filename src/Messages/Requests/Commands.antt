-- ===== src/Messages/Requests/Commands.antt =====
-- src/messages.cpp, lines 27 to 41: the round trip of a command request.
use new_mavlink.Common.{
  ℕ, ◌+◌, ◌<◌, ◌≡◌, refl, ◌^◌, List, [], ◌∷◌, true, some, none, Buffer, length, All, put32, set_at,
  get16_lem, get64_lem, get16, get64, put16, put64, put32-below, put32-Holds32, get32-below,
  reject_if, ◌||◌, if◌then◌else◌, arith, ◌∙◌, subst, ap₂, ◌!=◌,
}
use new_mavlink.Messages.{CommandRequest, command_bytes, max_args}
use new_mavlink.Messages.Requests.{
  valid_command, put_floats, get_floats, write_command, encode_command, read_command,
  decode_command,
}

-- The widths of the fields; `args` is an array of seven.
pub record FitsCommand (value : CommandRequest) : Type 0 where
  pub request_id : value.request_id < 2 ^ 64
  pub command_id : value.command_id < 2 ^ 16
  pub deadline_ms : value.deadline_ms < 2 ^ 16
  pub seven : length value.args ≡ max_args
  pub args : All (λ x. x < 2 ^ 32) value.args

put_floats-below :
    (m : Buffer) (p : ℕ) (args : List ℕ) (i : ℕ) → i < p → put_floats m p args i ≡ m i
unfolding put_floats
put_floats-below m p [] i h = refl
put_floats-below m p (x ∷ args) i h =
    put_floats-below (put32 m p x) (p + 4) args i (omega arith) ∙ put32-below m p x i h

-- The words that were written from an address on are read back.
get_floats-put_floats :
    (m : Buffer) (p : ℕ) (args : List ℕ)
    → All (λ x. x < 2 ^ 32) args
    → get_floats (length args) (put_floats m p args) p ≡ args
unfolding get_floats put_floats
get_floats-put_floats m p [] w = refl
get_floats-put_floats m p (x ∷ args) (wx, w) =
    ap₂ ◌∷◌
      (get32-below (put32 m p x) (put_floats (put32 m p x) (p + 4) args) p x wx
        (λ i h. put_floats-below (put32 m p x) (p + 4) args i h) (put32-Holds32 m p x))
      (get_floats-put_floats (put32 m p x) (p + 4) args w)

-- What stands before the arguments.
abbrev command_front : CommandRequest → Buffer → Buffer
command_front value out =
    let out = put64 out 0 value.request_id in
    let out = put16 out 8 value.command_id in
    let out = put16 out 10 value.deadline_ms in
    let out = set_at out 12 value.arg_count in set_at (set_at (set_at out 13 0) 14 0) 15 0

-- A byte of the front is untouched by the arguments behind it.
front_byte :
    (value : CommandRequest) (out : Buffer) (i : ℕ)
    → i < 16
    → write_command value out i ≡ command_front value out i
unfolding write_command
front_byte value out i h = put_floats-below (command_front value out) 16 value.args i h

module _ (value : CommandRequest) (out : Buffer) (fits : FitsCommand value) where
  abbrev written : Buffer
  written = write_command value out

  at : (i : ℕ) → i < 16 → written i ≡ command_front value out i
  at = front_byte value out

  read_request_id : get64 written 0 ≡ value.request_id
  unfolding put64 put16 set_at
  read_request_id = get64_lem written 0 value.request_id fits.request_id (
    at 0 (omega arith),
    at 1 (omega arith),
    at 2 (omega arith),
    at 3 (omega arith),
    at 4 (omega arith),
    at 5 (omega arith),
    at 6 (omega arith),
    at 7 (omega arith),
  )

  read_command_id : get16 written 8 ≡ value.command_id
  unfolding put64 put16 set_at
  read_command_id =
      get16_lem written 8 value.command_id fits.command_id (at 8 (omega arith), at 9 (omega arith))

  read_deadline_ms : get16 written 10 ≡ value.deadline_ms
  unfolding put64 put16 set_at
  read_deadline_ms =
      get16_lem written 10 value.deadline_ms fits.deadline_ms
        (at 10 (omega arith), at 11 (omega arith))

  read_arg_count : written 12 ≡ value.arg_count
  unfolding put64 put16 set_at
  read_arg_count = at 12 (omega arith)

  read_padding : (written 13 ≡ 0) × (written 14 ≡ 0) × (written 15 ≡ 0)
  unfolding put64 put16 set_at
  read_padding = (at 13 (omega arith), at 14 (omega arith), at 15 (omega arith))

  read_args : get_floats max_args written 16 ≡ value.args
  unfolding write_command
  read_args =
      subst (λ n. get_floats n (put_floats (command_front value out) 16 value.args) 16 ≡ value.args)
        fits.seven (get_floats-put_floats (command_front value out) 16 value.args fits.args)

  read_command-write_command : read_command written ≡ value
  unfolding read_command
  read_command-write_command = λ i. record {
    request_id = read_request_id i;
    command_id = read_command_id i;
    deadline_ms = read_deadline_ms i;
    arg_count = read_arg_count i;
    args = read_args i;
  }

encode_command_inv :
    (value : CommandRequest) (out bytes : Buffer) (capacity : ℕ)
    → encode_command value (some out) capacity ≡ some bytes
    → (write_command value out ≡ bytes) × (valid_command value ≡ true)
unfolding encode_command
encode_command_inv value out bytes capacity e = ground arith

accept_command :
    (m : Buffer) (v w : CommandRequest)
    → (m 13 ≡ 0) × (m 14 ≡ 0) × (m 15 ≡ 0)
    → v ≡ w
    → valid_command w ≡ true
    → reject_if
        (command_bytes != command_bytes || m 13 != 0 || m 14 != 0 || m 15 != 0)
        (if valid_command v then some v else none)
      ≡ some w
accept_command m v w (a, b, c) e valid = rw (e, a, b, c) (rw valid)

-- A command with numbers of their widths and seven arguments that `encode_command` accepts decodes
-- to the same command.
pub decode_command-encode_command :
    (value : CommandRequest) (out bytes : Buffer) (capacity : ℕ)
    → FitsCommand value
    → encode_command value (some out) capacity ≡ some bytes
    → decode_command (some bytes) command_bytes ≡ some value
unfolding decode_command
decode_command-encode_command value out bytes capacity fits e =
    let (w, valid) = encode_command_inv value out bytes capacity e in
    rw (← w) (
      accept_command (write_command value out) (read_command (write_command value out)) value
        (read_padding value out fits) (read_command-write_command value out fits) valid)
