-- ===== src/Record/Replay.antt =====
-- src/record.cpp, lines 69 to 93: the sliding window of 64 sequence numbers.
pub mod Window
pub mod History
use new_mavlink.Common.{
  ℕ, ◌-◌, ◌*◌, ◌^◌, bit_and, bit_or, Bool, true, false, ◌&&◌, ltb, leb, ◌==◌, if◌then◌else◌, u64,
  not,
}

-- Bit `d` of `bitmap` stands for the sequence number `high_water - d`.
pub record ReplayWindow : Type 0 where
  pub high_water : ℕ
  pub bitmap : ℕ
  pub initialized : Bool

-- `ReplayWindow{}`, and what `reset` makes of any window.
abbrev pub empty_window : ReplayWindow
empty_window = record { high_water = 0; bitmap = 0; initialized = false }

unfoldable pub accepted : ReplayWindow → ℕ → Bool
accepted w sequence =
    if not w.initialized
    then true
    else if ltb w.high_water sequence
    then true
    else let distance = w.high_water - sequence in
      ltb distance 64 && bit_and w.bitmap (2 ^ distance) == 0

-- `shift >= 64U ? 1ULL : ((bitmap_ << shift) | 1ULL)`
unfoldable pub shift_bitmap : ℕ → ℕ → ℕ
shift_bitmap bitmap shift = if leb 64 shift then 1 else bit_or (u64 (bitmap * 2 ^ shift)) 1

unfoldable pub commit : ReplayWindow → ℕ → ReplayWindow × Bool
unfolding shift_bitmap
commit w sequence =
    if not (accepted w sequence)
    then (w, false)
    else if not w.initialized
    then (record { high_water = sequence; bitmap = 1; initialized = true }, true)
    else if ltb w.high_water sequence
    then (
      record w { bitmap = shift_bitmap w.bitmap (sequence - w.high_water); high_water = sequence },
      true,
    )
    else (record w { bitmap = bit_or w.bitmap (2 ^ (w.high_water - sequence)) }, true)

unfoldable pub reset : ReplayWindow → ReplayWindow
reset w = empty_window
