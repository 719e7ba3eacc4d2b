-- ===== src/Record/Replay/Window.antt =====
-- The window against its specification: the list of all sequence numbers committed so far.
use new_mavlink.Common.{
  ℕ, zero, suc, ◌-◌, ◌*◌, ◌^◌, ◌≤◌, ◌<◌, ◌≡◌, refl, sym, ap, ◌∙◌, inl, inr, Bool, true, false, not,
  ◌&&◌, List, [], ◌∷◌, any_of, ltb, zero_bit, ◌==◌, if◌then◌else◌, bit_and, bit, bit-lt, bit-bit_or,
  bit-pow, bit_and-pow, bit-shift, bit-mod_pow, Bool-cases, u64, arith,
}
use native.Mathlib.Decide.{dec_lt}
use native.Mathlib.Nat.{one-le-pow}
use new_mavlink.Record.Replay.{ReplayWindow, empty_window, accepted, shift_bitmap, commit}

abbrev pub contains : List ℕ → ℕ → Bool
contains seen s = any_of (λ x. x == s) seen

abbrev pub highest : List ℕ → ℕ
highest [] = 0
highest (x ∷ xs) = if ltb (highest xs) x then x else highest xs

-- The specification of `accepted`: above all that was seen, or within 64 of the highest and new.
abbrev pub fresh : List ℕ → ℕ → Bool
fresh [] s = true
fresh (x ∷ xs) s =
    let seen = x ∷ xs in
    if ltb (highest seen) s then true else ltb (highest seen - s) 64 && not (contains seen s)

-- The specification of `commit`.
abbrev pub remember : List ℕ → ℕ → List ℕ
remember seen s = if fresh seen s then s ∷ seen else seen

abbrev pub is_empty : List ℕ → Bool
is_empty [] = true
is_empty (x ∷ xs) = false

-- A window that stands for a history.
pub record Represents (w : ReplayWindow) (seen : List ℕ) : Type 0 where
  pub started : w.initialized ≡ not (is_empty seen)
  pub high : w.high_water ≡ highest seen
  pub bits :
      (d : ℕ)
      → d < 64
      → d ≤ highest seen
      → (bit w.bitmap d ≡ (if contains seen (highest seen - d) then 1 else 0))

pub empty_window-Represents : Represents empty_window []
empty_window-Represents = record {
  started = refl;
  high = refl;
  bits = λ d h k. ground (arith, zero_bit d);
}

contains_above : (seen : List ℕ) (s : ℕ) → highest seen < s → contains seen s ≡ false
contains_above [] s h = refl
contains_above (x ∷ xs) s h = ground (arith, contains_above xs s)

-- The masked word is 0 exactly if the bit is.
masked : (b d : ℕ) → (bit_and b (2 ^ d) == 0) ≡ (bit b d == 0)
masked b d = rw bit_and-pow (nonzero (bit b d) (2 ^ d) (one-le-pow d 2 (omega arith)))
  where
    nonzero : (x p : ℕ) → 0 < p → (x * p == 0) ≡ (x == 0)
    nonzero zero p h = ground arith
    nonzero (suc x) p h = ground arith

module _ (w : ReplayWindow) where
  -- `accepted` decides what the history says.
  pub accepted-fresh : (seen : List ℕ) (s : ℕ) → Represents w seen → accepted w s ≡ fresh seen s
  unfolding accepted
  accepted-fresh [] s r = ground (arith, r.started)
  accepted-fresh (x ∷ xs) s r =
      let seen = x ∷ xs in
      let back : highest seen - s ≤ highest seen = omega arith in
      elim (dec_lt (highest seen) s) [
        | yes above ↦ ground (arith, r.started, r.high)
        | no below ↦
            let e : highest seen - (highest seen - s) ≡ s = omega arith in
            ground (
              arith,
              r.started,
              r.high,
              masked w.bitmap (highest seen - s),
              r.bits (highest seen - s),
              ap (contains seen) e,
            )
      ]

bit_one : (d : ℕ) → bit 1 d ≡ (if d == 0 then 1 else 0)
bit_one d = bit-pow 0 d

bit_shifted :
    (b shift d : ℕ)
    → d < 64
    → bit (shift_bitmap b shift) d
      ≡ (if d == 0 then 1 else if ltb d shift then 0 else bit b (d - shift))
unfolding shift_bitmap
bit_shifted b shift d h = elim (dec_lt shift 64) [
  | yes small ↦ ground (
    arith,
    bit-bit_or (u64 (b * 2 ^ shift)) 1 d,
    bit_one d,
    bit-mod_pow (b * 2 ^ shift) 64 d h,
    bit-shift b shift d,
    bit-lt b (d - shift),
  )
  | no large ↦ ground (arith, bit_one d)
]

module _ (w : ReplayWindow) where
  commit_first : (s : ℕ) → Represents w [] → Represents (commit w s).0 (s ∷ [])
  unfolding commit
  commit_first s r = record {
    started = ground (arith, r.started, accepted-fresh w [] s r);
    high = ground (arith, r.started, accepted-fresh w [] s r);
    bits = λ d h k. ground (arith, r.started, accepted-fresh w [] s r, bit_one d);
  }

  commit_above :
      (seen : List ℕ) (s : ℕ)
      → Represents w seen
      → w.initialized ≡ true
      → accepted w s ≡ true
      → highest seen < s
      → Represents (commit w s).0 (s ∷ seen)
  unfolding commit
  commit_above seen s r i a above = record {
    started = ground arith;
    high = ground (arith, r.high);
    bits = λ d h k. ground (
      arith,
      r.high,
      bit_shifted w.bitmap (s - w.high_water) d h,
      r.bits (d - (s - highest seen)),
      contains_above seen (s - d),
    );
  }

  commit_within :
      (seen : List ℕ) (s : ℕ)
      → Represents w seen
      → w.initialized ≡ true
      → accepted w s ≡ true
      → s ≤ highest seen
      → Represents (commit w s).0 (s ∷ seen)
  unfolding commit
  commit_within seen s r i a below = record {
    started = ground arith;
    high = ground (arith, r.high);
    bits = λ d h k. ground (
      arith,
      r.high,
      bit-bit_or w.bitmap (2 ^ (w.high_water - s)) d,
      bit-pow (w.high_water - s) d,
      r.bits d,
      bit-lt w.bitmap d,
    );
  }

  commit_refused : (s : ℕ) → accepted w s ≡ false → (commit w s).0 ≡ w
  unfolding commit
  commit_refused s a = ground arith

  pub commit-accepted : (s : ℕ) → (commit w s).1 ≡ accepted w s
  unfolding commit
  commit-accepted s = ground arith

  commit_cases :
      (x : ℕ) (xs : List ℕ) (s : ℕ)
      → Represents w (x ∷ xs)
      → accepted w s ≡ true
      → Represents (commit w s).0 (s ∷ x ∷ xs)
  commit_cases x xs s r a = elim (dec_lt (highest (x ∷ xs)) s) [
    | yes above ↦ commit_above (x ∷ xs) s r r.started a above
    | no below ↦ commit_within (x ∷ xs) s r r.started a (omega arith)
  ]

  commit_accepted :
      (seen : List ℕ) (s : ℕ)
      → Represents w seen
      → accepted w s ≡ true
      → Represents (commit w s).0 (s ∷ seen)
  commit_accepted [] s r a = commit_first s r
  commit_accepted (x ∷ xs) s r a = commit_cases x xs s r a

  -- On a window that stands for a history of sequence numbers, `commit` accepts exactly what the
  -- specification calls fresh, which is above everything seen, or less than 64 below the highest
  -- and not seen, and the window after it stands for the history with the accepted number added.
  pub commit-Represents :
      (seen : List ℕ) (s : ℕ)
      → Represents w seen
      → ((commit w s).1 ≡ fresh seen s) × Represents (commit w s).0 (remember seen s)
  commit-Represents seen s r =
      let decided = accepted-fresh w seen s r in
      elim (Bool-cases (accepted w s)) [
        | inl a ↦ (commit-accepted s ∙ decided, rw (sym decided ∙ a) (commit_accepted seen s r a))
        | inr a ↦ (commit-accepted s ∙ decided, rw (sym decided ∙ a, commit_refused s a) r)
      ]
