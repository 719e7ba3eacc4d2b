-- ===== src/Common/Words/Step.antt =====
-- The recursion of `|`, `&` and `^` on binary digits: what one step of it says of any operands.
use Prim.Native.Nat.{
  ℕ, zero, suc, ◌+◌, ◌*◌, ◌/◌, ◌%◌, ◌≤◌, differ, max, min, bit_xor, bit_xor-bitwise, bit_or,
  bit_or-bitwise, bit_and, bit_and-bitwise, bitwise, digits,
}
use mathlib.Core.Path.{◌≡◌, ap, refl}
use mathlib.Core.Logic.{◌⊎◌, inl, inr}
use native.Mathlib.Omega.{arith}

-- `op` acts on the lowest digits by `digit`, and on the rest as on smaller numbers.
abbrev pub ByDigits : (ℕ → ℕ → ℕ) → (ℕ → ℕ → ℕ) → Type 0
ByDigits op digit = (x y : ℕ) → (op x y ≡ op (x / 2) (y / 2) * 2 + digit (x % 2) (y % 2))

module _ (rest : ℕ → ℕ) (digit : ℕ → ℕ → ℕ) where
  at_zero : (fuel y : ℕ) → digits rest digit fuel 0 y ≡ rest y
  at_zero zero y = refl
  at_zero (suc fuel) y = refl

  -- Fuel beyond the left operand changes nothing.
  surplus :
      (fuel more x y : ℕ)
      → x ≤ fuel
      → fuel ≤ more
      → digits rest digit more x y ≡ digits rest digit fuel x y
  surplus fuel more zero y enough le = rw (at_zero more y, at_zero fuel y) refl
  surplus zero more (suc x) y enough le = absurd (omega (arith, enough))
  surplus (suc fuel) zero (suc x) y enough le = absurd (omega (arith, le))
  surplus (suc fuel) (suc more) (suc x) y enough le =
      ap (λ t. t * 2 + digit (suc x % 2) (y % 2))
        (surplus fuel more (suc x / 2) (y / 2) (omega (arith, enough)) (omega (arith, le)))

  positive :
      (x y : ℕ)
      → bitwise rest digit (suc x) y
        ≡ bitwise rest digit (suc x / 2) (y / 2) * 2 + digit (suc x % 2) (y % 2)
  positive x y =
      ap (λ t. t * 2 + digit (suc x % 2) (y % 2))
        (surplus (suc x / 2) x (suc x / 2) (y / 2) (omega arith) (omega arith))

pub bit_and_step : ByDigits bit_and min
bit_and_step (suc x) y = simp bit_and-bitwise (positive (λ t. 0) min x y)
bit_and_step zero y = simp bit_and-bitwise (omega arith)

pub bit_or_step : ByDigits bit_or max
bit_or_step (suc x) y = simp bit_or-bitwise (positive (λ t. t) max x y)
bit_or_step zero y = simp bit_or-bitwise (omega arith)

parity : (x : ℕ) → (x % 2 ≡ 0) ⊎ (x % 2 ≡ 1)
parity x = omega arith

differ_mod : (x y : ℕ) → differ (x % 2) (y % 2) ≡ (x % 2 + y % 2) % 2
differ_mod x y = elim (parity x) [
  | inl even ↦ elim (parity y) [ inl e ↦ rw (even, e) refl | inr o ↦ rw (even, o) refl ]
  | inr odd ↦ elim (parity y) [ inl e ↦ rw (odd, e) refl | inr o ↦ rw (odd, o) refl ]
]

pub bit_xor_step : ByDigits bit_xor (λ u v. (u + v) % 2)
bit_xor_step zero y = simp bit_xor-bitwise (omega arith)
bit_xor_step (suc x) y =
    simp bit_xor-bitwise (omega (arith, positive (λ t. t) differ x y, differ_mod (suc x) y))
