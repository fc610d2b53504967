-- ===== src/Common/Dict.antt =====
-- A JavaScript `Map` with number keys: entries in the order of their first insertion.
use lendmirror.Common.Tests.{◌==◌, if◌then◌else◌, Bool-cases}
use Prim.Native.Nat.{ℕ}
use mathlib.Core.Path.{◌≡◌, refl}
use mathlib.Core.Logic.{inl, inr}
use mathlib.Core.Bool.{true, false}
use mathlib.Core.Option.{Option, none, some}
use mathlib.Core.List.{List, [], ◌∷◌}
use native.Mathlib.Omega.{arith}

module _ {ℓ} {A : Type ℓ} where
  unfoldable pub lookup : ℕ → List (ℕ × A) → Option A
  lookup k [] = none
  lookup k ((j, a) ∷ d) = if j == k then some a else lookup k d

  unfoldable pub put : ℕ → A → List (ℕ × A) → List (ℕ × A)
  put k a [] = (k, a) ∷ []
  put k a ((j, b) ∷ d) = let rest = put k a d in if j == k then (k, a) ∷ d else (j, b) ∷ rest

  pub lookup-put :
      (k i : ℕ) (a : A) (d : List (ℕ × A))
      → lookup i (put k a d) ≡ (if k == i then some a else lookup i d)
  unfolding lookup put
  lookup-put k i a [] = refl
  lookup-put k i a ((j, b) ∷ d) = elim (Bool-cases (j == k)) [
    | inl here ↦ rw here (replaced here)
    | inr other ↦ rw (other, lookup-put k i a d) (passed other)
  ]
    where
      replaced :
          (j == k) ≡ true
          → (if k == i then some a else lookup i d)
            ≡ (if k == i then some a else (if j == i then some b else lookup i d))
      replaced here = ground arith

      passed :
          (j == k) ≡ false
          → (if j == i then some b else (if k == i then some a else lookup i d))
            ≡ (if k == i then some a else (if j == i then some b else lookup i d))
      passed other = ground arith
