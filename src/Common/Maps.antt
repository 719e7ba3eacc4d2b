-- ===== src/Common/Maps.antt =====
-- A map keyed by numbers as a list of entries, in the order in which it is iterated.
use Prim.Native.Nat.{ℕ, suc, ◌≤◌, ◌<◌}
use mathlib.Core.Path.{◌≡◌, refl}
use mathlib.Core.Logic.{◌≢◌}
use mathlib.Core.Bool.{Bool, true, false}
use mathlib.Core.Option.{Option, none, some}
use mathlib.Core.List.{List, [], ◌∷◌}
use native.Mathlib.Omega.{arith}
use new_mavlink.Common.Tests.{◌==◌, if◌then◌else◌}
use new_mavlink.Common.Lists.{length}

abbrev pub is_some {ℓ} : {A : Type ℓ} → Option A → Bool
is_some none = false
is_some (some a) = true

module _ {A : Type 0} where
  -- `find`
  abbrev pub lookup : List (ℕ × A) → ℕ → Option A
  lookup [] k = none
  lookup ((j, a) ∷ m) k = if j == k then some a else lookup m k

  -- `m[k] = a`
  abbrev pub store : List (ℕ × A) → ℕ → A → List (ℕ × A)
  store [] k a = (k, a) ∷ []
  store ((j, b) ∷ m) k a = let rest = store m k a in if j == k then (j, a) ∷ m else (j, b) ∷ rest

  -- `erase(k)`
  abbrev pub erase : List (ℕ × A) → ℕ → List (ℕ × A)
  erase [] k = []
  erase ((j, b) ∷ m) k = let rest = erase m k in if j == k then rest else (j, b) ∷ rest

  abbrev pub Misses : ℕ → List (ℕ × A) → Type 0
  Misses k m = lookup m k ≡ none

  -- No key twice.
  abbrev pub Distinct : List (ℕ × A) → Type 0
  Distinct [] = Unit {0}
  Distinct ((j, b) ∷ m) = Misses j m × Distinct m

  pub lookup-store : (m : List (ℕ × A)) (k : ℕ) (a : A) → lookup (store m k a) k ≡ some a
  lookup-store [] k a = ground arith
  lookup-store ((j, b) ∷ m) k a = ground (arith, lookup-store m k a)

  pub lookup-store_other :
      (m : List (ℕ × A)) (k j : ℕ) (a : A) → j ≢ k → lookup (store m k a) j ≡ lookup m j
  lookup-store_other [] k j a ne = ground arith
  lookup-store_other ((i, b) ∷ m) k j a ne = ground (arith, lookup-store_other m k j a ne)

  pub lookup-erase : (m : List (ℕ × A)) (k : ℕ) → lookup (erase m k) k ≡ none
  lookup-erase [] k = refl
  lookup-erase ((j, b) ∷ m) k = ground (arith, lookup-erase m k)

  pub lookup-erase_other : (m : List (ℕ × A)) (k j : ℕ) → j ≢ k → lookup (erase m k) j ≡ lookup m j
  lookup-erase_other [] k j ne = refl
  lookup-erase_other ((i, b) ∷ m) k j ne = ground (arith, lookup-erase_other m k j ne)

  pub store-Distinct : (m : List (ℕ × A)) (k : ℕ) (a : A) → Distinct m → Distinct (store m k a)
  store-Distinct [] k a d = (refl, tt)
  store-Distinct ((j, b) ∷ m) k a d =
      ground (arith, d.0, d.1, store-Distinct m k a d.1, lookup-store_other m k j a)

  pub erase_absent : (m : List (ℕ × A)) (k : ℕ) → Misses k m → erase m k ≡ m
  erase_absent [] k h = refl
  erase_absent ((j, b) ∷ m) k h = ground (arith, erase_absent m k)

  erase-Misses : (m : List (ℕ × A)) (k j : ℕ) → Misses j m → Misses j (erase m k)
  erase-Misses [] k j h = refl
  erase-Misses ((i, b) ∷ m) k j h = ground (arith, erase-Misses m k j)

  pub erase-Distinct : (m : List (ℕ × A)) (k : ℕ) → Distinct m → Distinct (erase m k)
  erase-Distinct [] k d = tt
  erase-Distinct ((j, b) ∷ m) k d =
      ground (arith, d.0, d.1, erase-Distinct m k d.1, erase-Misses m k j d.0)

  pub length-store_new :
      (m : List (ℕ × A)) (k : ℕ) (a : A) → Misses k m → length (store m k a) ≡ suc (length m)
  length-store_new [] k a h = refl
  length-store_new ((j, b) ∷ m) k a h = ground (arith, length-store_new m k a)

  pub length-store_old :
      (m : List (ℕ × A)) (k : ℕ) (a b : A) → lookup m k ≡ some b → length (store m k a) ≡ length m
  length-store_old [] k a b h = cc
  length-store_old ((j, c) ∷ m) k a b h = ground (arith, length-store_old m k a b)

  pub length-erase : (m : List (ℕ × A)) (k : ℕ) → length (erase m k) ≤ length m
  length-erase [] k = omega arith
  length-erase ((j, c) ∷ m) k = ground (arith, length-erase m k)

  pub length-erase_old :
      (m : List (ℕ × A)) (k : ℕ) (b : A) → lookup m k ≡ some b → length (erase m k) < length m
  length-erase_old [] k b h = cc
  length-erase_old ((j, c) ∷ m) k b h = ground (arith, length-erase_old m k b, length-erase m k)
