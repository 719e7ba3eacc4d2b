-- ===== src/Common/Copy.antt =====
-- Runs of bytes copied out of a buffer and into one.
use Prim.Native.Nat.{ℕ, zero, suc, ◌+◌, ◌<◌, ◌≤◌}
use mathlib.Core.Path.{◌≡◌, refl, ap, ap₂, ◌∙◌}
use mathlib.Core.List.{List, [], ◌∷◌}
use native.Mathlib.Decide.{ℕ_discrete}
use native.Mathlib.Omega.{arith}
use new_mavlink.Common.Lists.{length}
use new_mavlink.Common.Memory.{Buffer, set_at, set_at-below}

-- `memcpy` and `std::copy` out of a buffer and into one.
unfoldable pub read_bytes : Buffer → ℕ → ℕ → List ℕ
read_bytes m p zero = []
read_bytes m p (suc left) = m p ∷ read_bytes m (p + 1) left

unfoldable pub write_bytes : Buffer → ℕ → List ℕ → Buffer
unfolding set_at
write_bytes m p [] = m
write_bytes m p (x ∷ xs) = write_bytes (set_at m p x) (p + 1) xs

pub write_bytes-below :
    (m : Buffer) (p : ℕ) (xs : List ℕ) (i : ℕ) → i < p → write_bytes m p xs i ≡ m i
unfolding write_bytes
write_bytes-below m p [] i h = refl
write_bytes-below m p (x ∷ xs) i h =
    write_bytes-below (set_at m p x) (p + 1) xs i (omega arith) ∙ set_at-below m p x i h

-- What was copied in is copied out.
pub read_bytes-write_bytes :
    (m : Buffer) (p : ℕ) (xs : List ℕ) → read_bytes (write_bytes m p xs) p (length xs) ≡ xs
unfolding read_bytes write_bytes
read_bytes-write_bytes m p [] = refl
read_bytes-write_bytes m p (x ∷ xs) =
    ap₂ ◌∷◌ (write_bytes-below (set_at m p x) (p + 1) xs p (omega arith) ∙ (ground arith))
      (read_bytes-write_bytes (set_at m p x) (p + 1) xs)

pub length-read_bytes : (m : Buffer) (p n : ℕ) → length (read_bytes m p n) ≡ n
unfolding read_bytes
length-read_bytes m p zero = refl
length-read_bytes m p (suc n) = ap suc (length-read_bytes m (p + 1) n)

-- Two buffers that agree from an address on hold the same bytes there.
pub read_bytes_ext :
    (m m' : Buffer) (p n : ℕ)
    → ((i : ℕ) → p ≤ i → i < p + n → m i ≡ m' i)
    → read_bytes m p n ≡ read_bytes m' p n
unfolding read_bytes
read_bytes_ext m m' p zero h = refl
read_bytes_ext m m' p (suc n) h =
    ap₂ ◌∷◌ (h p (omega arith) (omega arith))
      (read_bytes_ext m m' (p + 1) n (λ i lo hi. h i (omega arith) (omega arith)))

pub read_bytes_inj :
    (m m' : Buffer) (p n : ℕ)
    → read_bytes m p n ≡ read_bytes m' p n
    → (i : ℕ) → p ≤ i
    → i < p + n
    → m i ≡ m' i
unfolding read_bytes
read_bytes_inj m m' p zero e i lo hi = absurd (omega arith)
read_bytes_inj m m' p (suc n) e i lo hi = elim (ℕ_discrete i p) [
  | yes here ↦ rw here (ground arith)
  | no later ↦ read_bytes_inj m m' (p + 1) n (ground arith) i (omega arith) (omega arith)
]
