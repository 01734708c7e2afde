-- ===== src/Prelude/Maps.antt =====
-- Go maps with unsigned keys, as association lists, and maps that are total functions.
use Prim.Native.Nat.{ℕ}
use mathlib.Core.Path.{◌≡◌, refl}
use mathlib.Core.List.{List, [], ◌∷◌}
use mathlib.Core.Option.{Option, none, some}
use native.Mathlib.Omega.{arith}
use go_diameter.Prelude.Tests.{◌==◌, if◌then◌else◌}

abbrev pub Map {ℓ} : Type ℓ → Type ℓ
Map A = List (ℕ × A)

module _ {ℓ} {A : Type ℓ} where
  unfoldable pub lookup : ℕ → Map A → Option A
  unfolding if◌then◌else◌
  lookup k [] = none
  lookup k ((j, a) ∷ m) = if j == k then some a else lookup k m

  -- `delete(m, k)`.
  unfoldable pub remove : ℕ → Map A → Map A
  unfolding if◌then◌else◌
  remove k [] = []
  remove k ((j, a) ∷ m) = let rest = remove k m in if j == k then rest else (j, a) ∷ rest

  -- `m[k] = a`.
  unfoldable pub insert : ℕ → A → Map A → Map A
  unfolding if◌then◌else◌
  insert k a [] = (k, a) ∷ []
  insert k a ((j, b) ∷ m) = if j == k then (k, a) ∷ m else (j, b) ∷ insert k a m

  unfoldable pub keys : Map A → List ℕ
  keys [] = []
  keys ((j, a) ∷ m) = j ∷ keys m

  unfoldable pub update : (ℕ → A) → ℕ → A → ℕ → A
  unfolding if◌then◌else◌
  update f k a j = if j == k then a else f j

  pub lookup-insert :
      (k j : ℕ) (a : A) (m : Map A)
      → lookup j (insert k a m) ≡ (if k == j then some a else lookup j m)
  unfolding lookup insert if◌then◌else◌
  lookup-insert k j a [] = refl
  lookup-insert k j a ((i, b) ∷ m) = ground (arith, lookup-insert k j a m)

  pub lookup-remove :
      (k j : ℕ) (m : Map A) → lookup j (remove k m) ≡ (if k == j then none else lookup j m)
  unfolding lookup remove if◌then◌else◌
  lookup-remove k j [] = ground arith
  lookup-remove k j ((i, b) ∷ m) = ground (arith, lookup-remove k j m)
