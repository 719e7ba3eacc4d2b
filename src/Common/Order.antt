-- ===== src/Common/Order.antt =====
-- The entry with the least key, and the entries in the order of their keys.
use Prim.Native.Nat.{ℕ, ◌≤◌}
use mathlib.Core.Path.{◌≡◌, ap, ◌∙◌}
use mathlib.Core.Logic.{◌≢◌, inl, inr}
use mathlib.Core.Option.{some}
use mathlib.Core.List.{List, [], ◌∷◌}
use native.Mathlib.Omega.{arith}
use new_mavlink.Common.Tests.{ltb, if◌then◌else◌, Bool-cases}
use new_mavlink.Common.Maps.{lookup, erase, Distinct}

module _ {A : Type 0} where
  -- `it` and the loop over the candidates behind it.
  abbrev pub least : ℕ × A → List (ℕ × A) → ℕ × A
  least it [] = it
  least it (candidate ∷ rest) = least (if ltb candidate.0 it.0 then candidate else it) rest

  abbrev pub insert : ℕ × A → List (ℕ × A) → List (ℕ × A)
  insert e [] = e ∷ []
  insert e (x ∷ xs) = let rest = insert e xs in if ltb x.0 e.0 then x ∷ rest else e ∷ x ∷ xs

  -- The specification of repeated removal of the least.
  abbrev pub by_key : List (ℕ × A) → List (ℕ × A)
  by_key [] = []
  by_key (e ∷ es) = insert e (by_key es)

  insert_comm :
      (d e : ℕ × A) (xs : List (ℕ × A))
      → d.0 ≢ e.0
      → insert d (insert e xs) ≡ insert e (insert d xs)
  insert_comm d e [] ne = ground arith
  insert_comm d e (x ∷ xs) ne = ground (arith, insert_comm d e xs ne)

  least_le : (e : ℕ × A) (es : List (ℕ × A)) → (least e es).0 ≤ e.0
  least_le e [] = omega arith
  least_le e (x ∷ xs) = ground (arith, least_le (if ltb x.0 e.0 then x else e) xs)

  pub lookup-least :
      (e : ℕ × A) (es : List (ℕ × A))
      → Distinct (e ∷ es)
      → lookup (e ∷ es) (least e es).0 ≡ some (least e es).1
  lookup-least e [] d = ground arith
  lookup-least e (x ∷ xs) d = elim (Bool-cases (ltb x.0 e.0)) [
    | inl lt ↦ rw (least, lt) (ground (arith, lookup-least x xs (d.1), least_le x xs))
    | inr ge ↦
        rw (least, ge) (ground (arith, lookup-least e xs (ground arith, d.1.1), least_le e xs))
  ]

  -- Removing the least entry removes the first in the order of keys.
  pub by_key-least :
      (e : ℕ × A) (es : List (ℕ × A))
      → Distinct (e ∷ es)
      → by_key (e ∷ es) ≡ least e es ∷ by_key (erase (e ∷ es) (least e es).0)
  by_key-least e [] d = ground arith
  by_key-least e (x ∷ xs) d = elim (Bool-cases (ltb x.0 e.0)) [
    | inl lt ↦
        rw (least, lt) (ap (insert e) (by_key-least x xs d.1) ∙ ground (arith, least_le x xs))
    | inr ge ↦
        rw (least, ge)
          (insert_comm e x (by_key xs) (ground arith)
            ∙ ap (insert x) (by_key-least e xs (ground arith, d.1.1))
            ∙ ground (
              arith,
              least_le e xs,
              insert_comm x e (by_key (erase xs (least e xs).0)) (ground arith),
            ))
  ]
