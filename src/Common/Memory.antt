-- ===== src/Common/Memory.antt =====
-- Byte buffers as functions from an address to the byte there, and the little-endian
-- accessors that messages.cpp, record.cpp, session.cpp and crypto.cpp each declare.
use Prim.Native.Nat.{ℕ, zero, suc, ◌+◌, ◌*◌, ◌/◌, ◌%◌, ◌^◌, ◌<◌, ◌≤◌, bit_or}
use mathlib.Core.Path.{◌≡◌, refl, ◌∙◌}
use mathlib.Core.Option.{Option}
use native.Mathlib.Omega.{arith}
use new_mavlink.Common.Tests.{◌==◌, if◌then◌else◌}
use new_mavlink.Common.Words.{u8, bit_or_shift}

abbrev pub Buffer : Type 0
Buffer = ℕ → ℕ

-- A pointer argument; `none` is `nullptr`.
abbrev pub Pointer : Type 0
Pointer = Option Buffer

abbrev pub Zeros : Buffer
Zeros i = 0

unfoldable pub set_at : Buffer → ℕ → ℕ → Buffer
set_at m p v i = if i == p then v else m i

unfoldable pub put16 : Buffer → ℕ → ℕ → Buffer
unfolding set_at
put16 m p v = set_at (set_at m p (u8 v)) (p + 1) (u8 (v / 2 ^ 8))

-- for (i = first; i < first + left; ++i) p[i] = (uint8_t)(v >> 8 * i);
unfoldable pub put_loop : ℕ → ℕ → Buffer → ℕ → ℕ → Buffer
unfolding set_at
put_loop zero i m p v = m
put_loop (suc left) i m p v = put_loop left (i + 1) (set_at m (p + i) (u8 (v / 2 ^ (8 * i)))) p v

unfoldable pub put32 : Buffer → ℕ → ℕ → Buffer
unfolding put_loop
put32 = put_loop 4 0

unfoldable pub put64 : Buffer → ℕ → ℕ → Buffer
unfolding put_loop
put64 = put_loop 8 0

unfoldable pub get16 : Buffer → ℕ → ℕ
get16 m p = bit_or (m p) (m (p + 1) * 2 ^ 8)

-- for (i = first; i < first + left; ++i) v |= p[i] << 8 * i;
unfoldable pub get_loop : ℕ → ℕ → Buffer → ℕ → ℕ → ℕ
get_loop zero i m p v = v
get_loop (suc left) i m p v = get_loop left (i + 1) m p (bit_or v (m (p + i) * 2 ^ (8 * i)))

unfoldable pub get32 : Buffer → ℕ → ℕ
unfolding get_loop
get32 m p = get_loop 4 0 m p 0

unfoldable pub get64 : Buffer → ℕ → ℕ
unfolding get_loop
get64 m p = get_loop 8 0 m p 0

-- The buffer holds the little-endian bytes of a number.
abbrev pub Holds16 : Buffer → ℕ → ℕ → Type 0
Holds16 m p v = (m p ≡ u8 v) × (m (p + 1) ≡ v / 2 ^ 8 % 256)

abbrev pub Holds32 : Buffer → ℕ → ℕ → Type 0
Holds32 m p v =
    (m (p + 0) ≡ v / 2 ^ 0 % 256)
    × (m (p + 1) ≡ v / 2 ^ 8 % 256)
    × (m (p + 2) ≡ v / 2 ^ 16 % 256)
    × (m (p + 3) ≡ v / 2 ^ 24 % 256)

abbrev pub Holds64 : Buffer → ℕ → ℕ → Type 0
Holds64 m p v =
    (m (p + 0) ≡ v / 2 ^ 0 % 256)
    × (m (p + 1) ≡ v / 2 ^ 8 % 256)
    × (m (p + 2) ≡ v / 2 ^ 16 % 256)
    × (m (p + 3) ≡ v / 2 ^ 24 % 256)
    × (m (p + 4) ≡ v / 2 ^ 32 % 256)
    × (m (p + 5) ≡ v / 2 ^ 40 % 256)
    × (m (p + 6) ≡ v / 2 ^ 48 % 256)
    × (m (p + 7) ≡ v / 2 ^ 56 % 256)

pub get16_lem : (m : Buffer) (p v : ℕ) → v < 2 ^ 16 → Holds16 m p v → get16 m p ≡ v
unfolding get16
get16_lem m p v h (e, f) =
    rw (e, f, bit_or_shift 8 (v % 256) (v / 2 ^ 8 % 256) (omega arith)) (omega arith)

-- One byte more of a number that is read from its lowest byte on.
join_8 : (v : ℕ) → bit_or (v % 2 ^ 8) (v / 2 ^ 8 % 256 * 2 ^ 8) ≡ v % 2 ^ 16
join_8 v = rw (bit_or_shift 8 (v % 2 ^ 8) (v / 2 ^ 8 % 256) (omega arith)) (omega arith)

join_16 : (v : ℕ) → bit_or (v % 2 ^ 16) (v / 2 ^ 16 % 256 * 2 ^ 16) ≡ v % 2 ^ 24
join_16 v = rw (bit_or_shift 16 (v % 2 ^ 16) (v / 2 ^ 16 % 256) (omega arith)) (omega arith)

join_24 : (v : ℕ) → bit_or (v % 2 ^ 24) (v / 2 ^ 24 % 256 * 2 ^ 24) ≡ v % 2 ^ 32
join_24 v = rw (bit_or_shift 24 (v % 2 ^ 24) (v / 2 ^ 24 % 256) (omega arith)) (omega arith)

join_32 : (v : ℕ) → bit_or (v % 2 ^ 32) (v / 2 ^ 32 % 256 * 2 ^ 32) ≡ v % 2 ^ 40
join_32 v = rw (bit_or_shift 32 (v % 2 ^ 32) (v / 2 ^ 32 % 256) (omega arith)) (omega arith)

join_40 : (v : ℕ) → bit_or (v % 2 ^ 40) (v / 2 ^ 40 % 256 * 2 ^ 40) ≡ v % 2 ^ 48
join_40 v = rw (bit_or_shift 40 (v % 2 ^ 40) (v / 2 ^ 40 % 256) (omega arith)) (omega arith)

join_48 : (v : ℕ) → bit_or (v % 2 ^ 48) (v / 2 ^ 48 % 256 * 2 ^ 48) ≡ v % 2 ^ 56
join_48 v = rw (bit_or_shift 48 (v % 2 ^ 48) (v / 2 ^ 48 % 256) (omega arith)) (omega arith)

join_56 : (v : ℕ) → bit_or (v % 2 ^ 56) (v / 2 ^ 56 % 256 * 2 ^ 56) ≡ v % 2 ^ 64
join_56 v = rw (bit_or_shift 56 (v % 2 ^ 56) (v / 2 ^ 56 % 256) (omega arith)) (omega arith)

join_first : (v : ℕ) → bit_or 0 (v / 2 ^ 0 % 256 * 2 ^ 0) ≡ v % 2 ^ 8
join_first v = rw (bit_or_shift 0 0 (v / 2 ^ 0 % 256) (omega arith)) (omega arith)

pub get32_lem : (m : Buffer) (p v : ℕ) → v < 2 ^ 32 → Holds32 m p v → get32 m p ≡ v
unfolding get32
get32_lem m p v h (b0, b1, b2, b3) =
    rw (b0, b1, b2, b3, join_first v, join_8 v, join_16 v, join_24 v) (omega arith)

pub get64_lem : (m : Buffer) (p v : ℕ) → v < 2 ^ 64 → Holds64 m p v → get64 m p ≡ v
unfolding get64
get64_lem m p v h (b0, b1, b2, b3, b4, b5, b6, b7) =
    rw
      (
        b0,
        b1,
        b2,
        b3,
        b4,
        b5,
        b6,
        b7,
        join_first v,
        join_8 v,
        join_16 v,
        join_24 v,
        join_32 v,
        join_40 v,
        join_48 v,
        join_56 v,
      )
      (omega arith)

-- A write leaves the bytes below it alone.
pub set_at-below : (m : Buffer) (p v i : ℕ) → i < p → set_at m p v i ≡ m i
unfolding set_at
set_at-below m p v i h = ground arith

pub put16-below : (m : Buffer) (p v i : ℕ) → i < p → put16 m p v i ≡ m i
unfolding put16
put16-below m p v i h = ground arith

put_loop-below : (left i : ℕ) (m : Buffer) (p v j : ℕ) → j < p → put_loop left i m p v j ≡ m j
unfolding put_loop
put_loop-below zero i m p v j h = refl
put_loop-below (suc left) i m p v j h =
    put_loop-below left (i + 1) (set_at m (p + i) (u8 (v / 2 ^ (8 * i)))) p v j h
    ∙ set_at-below m (p + i) (u8 (v / 2 ^ (8 * i))) j (omega arith)

pub put32-below : (m : Buffer) (p v i : ℕ) → i < p → put32 m p v i ≡ m i
unfolding put32
put32-below = put_loop-below 4 0

pub put64-below : (m : Buffer) (p v i : ℕ) → i < p → put64 m p v i ≡ m i
unfolding put64
put64-below = put_loop-below 8 0

-- An accessor reads the bytes of its field and no others.
pub get16_ext :
    (m m' : Buffer) (p : ℕ) → ((i : ℕ) → p ≤ i → i < p + 2 → m i ≡ m' i) → get16 m p ≡ get16 m' p
unfolding get16
get16_ext m m' p h = rw (h p (omega arith) (omega arith), h (p + 1) (omega arith) (omega arith))

get_loop_ext :
    (left i : ℕ) (m m' : Buffer) (p v : ℕ)
    → ((j : ℕ) → p ≤ j → j < p + i + left → m j ≡ m' j)
    → get_loop left i m p v ≡ get_loop left i m' p v
unfolding get_loop
get_loop_ext zero i m m' p v h = refl
get_loop_ext (suc left) i m m' p v h =
    rw (h (p + i) (omega arith) (omega arith))
      (get_loop_ext left (i + 1) m m' p _ (λ j lo hi. h j lo (omega arith)))

pub get32_ext :
    (m m' : Buffer) (p : ℕ) → ((i : ℕ) → p ≤ i → i < p + 4 → m i ≡ m' i) → get32 m p ≡ get32 m' p
unfolding get32
get32_ext m m' p h = get_loop_ext 4 0 m m' p 0 (λ j lo hi. h j lo (omega arith))

pub get64_ext :
    (m m' : Buffer) (p : ℕ) → ((i : ℕ) → p ≤ i → i < p + 8 → m i ≡ m' i) → get64 m p ≡ get64 m' p
unfolding get64
get64_ext m m' p h = get_loop_ext 8 0 m m' p 0 (λ j lo hi. h j lo (omega arith))

-- A number that was written is held at its address, whatever the buffer was.
pub put32-Holds32 : (m : Buffer) (p v : ℕ) → Holds32 (put32 m p v) p v
unfolding put32
put32-Holds32 m p v = (ground arith, ground arith, ground arith, ground arith)

Holds32-below :
    (m m' : Buffer) (p v : ℕ) → ((i : ℕ) → i < p + 4 → m' i ≡ m i) → Holds32 m p v → Holds32 m' p v
Holds32-below m m' p v same (b0, b1, b2, b3) = (
  same (p + 0) (omega arith) ∙ b0,
  same (p + 1) (omega arith) ∙ b1,
  same (p + 2) (omega arith) ∙ b2,
  same (p + 3) (omega arith) ∙ b3,
)

-- A word is read back after writes above it.
pub get32-below :
    (m m' : Buffer) (p v : ℕ)
    → v < 2 ^ 32
    → ((i : ℕ) → i < p + 4 → m' i ≡ m i)
    → Holds32 m p v
    → get32 m' p ≡ v
get32-below m m' p v h same held = get32_lem m' p v h (Holds32-below m m' p v same held)
