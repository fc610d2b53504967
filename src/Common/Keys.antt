-- ===== src/Common/Keys.antt =====
-- Equality of byte strings and membership in a list of them (`===` on keys, `includes`, `some`).
use lendmirror.Common.Tests.{◌==◌, Bool-cases}
use Prim.Native.Nat.{ℕ}
use mathlib.Core.Path.{◌≡◌, refl}
use mathlib.Core.Logic.{◌↔◌, ◌⊎◌, inl, inr}
use mathlib.Core.Bool.{Bool, true, false, ◌&&◌, ◌||◌}
use mathlib.Core.List.{List, [], ◌∷◌, ◌++◌}
use native.Mathlib.Omega.{arith}

unfoldable pub eqb : List ℕ → List ℕ → Bool
eqb [] [] = true
eqb (x ∷ xs) (y ∷ ys) = x == y && eqb xs ys
eqb _ _ = false

pub eqb_iff : (xs ys : List ℕ) → (eqb xs ys ≡ true) ↔ (xs ≡ ys)
unfolding eqb
eqb_iff [] [] = (λ _. refl, λ _. refl)
eqb_iff [] (y ∷ ys) = (λ h. cc, λ h. cc)
eqb_iff (x ∷ xs) [] = (λ h. cc, λ h. cc)
eqb_iff (x ∷ xs) (y ∷ ys) = ground (arith, eqb_iff xs ys)

unfoldable pub contains : List ℕ → List (List ℕ) → Bool
unfolding eqb
contains k [] = false
contains k (x ∷ xs) = eqb x k || contains k xs

-- No key occurs twice.
abbrev pub Distinct : List (List ℕ) → Type 0
Distinct [] = Unit
Distinct (x ∷ xs) = (contains x xs ≡ false) × Distinct xs

pub contains-append :
    (k : List ℕ) (xs ys : List (List ℕ)) → contains k (xs ++ ys) ≡ (contains k xs || contains k ys)
unfolding contains
contains-append k [] ys = refl
contains-append k (x ∷ xs) ys = ground (arith, contains-append k xs ys)

pub Distinct-concat :
    (xs : List (List ℕ)) (k : List ℕ)
    → Distinct xs
    → contains k xs ≡ false
    → Distinct (xs ++ (k ∷ []))
unfolding contains
Distinct-concat [] k d h = (refl, tt)
Distinct-concat (x ∷ xs) k d h = (
  ground (arith, contains-append x xs (k ∷ []), eqb_iff x k, eqb_iff k x),
  Distinct-concat xs k d.1 (ground arith),
)

pub contains_self : (k : List ℕ) (xs : List (List ℕ)) → contains k (k ∷ xs) ≡ true
unfolding contains
contains_self k xs = rw ((eqb_iff k k).1 refl) refl

pub Distinct-append :
    (xs ys : List (List ℕ))
    → Distinct xs
    → Distinct ys
    → ((k : List ℕ) → contains k ys ≡ true → contains k xs ≡ false)
    → Distinct (xs ++ ys)
unfolding contains
Distinct-append [] ys dx dy apart = dy
Distinct-append (x ∷ xs) ys dx dy apart = (
  rw (contains-append x xs ys, dx.0) (head_apart (Bool-cases (contains x ys))),
  Distinct-append xs ys dx.1 dy (λ k h. ground (arith, apart k h)),
)
  where
    head_apart : (contains x ys ≡ true) ⊎ (contains x ys ≡ false) → (false || contains x ys) ≡ false
    head_apart (inl there) =
        let clash : contains x (x ∷ xs) ≡ false = apart x there in
        ground (arith, contains_self x xs)
    head_apart (inr absent) = absent

-- A part in front of distinct keys.
pub Distinct-front : (xs ys : List (List ℕ)) → Distinct (xs ++ ys) → Distinct xs
unfolding contains
Distinct-front [] ys d = tt
Distinct-front (x ∷ xs) ys d =
    (ground (arith, contains-append x xs ys, d.0), Distinct-front xs ys d.1)
