-- ===== src/Common/Filter.antt =====
-- `Array.filter`, and the members of a list.
use lendmirror.Common.Tests.{if◌then◌else◌, Bool-cases}
use mathlib.Core.Path.{◌≡◌, sym, ap, ◌∙◌}
use mathlib.Core.Logic.{◌↔◌, ◌⊎◌, inl, inr}
use mathlib.Core.Bool.{Bool, true}
use mathlib.Core.List.{List, [], ◌∷◌}

module _ {A : Type 0} where
  unfoldable pub filter : (A → Bool) → List A → List A
  filter p [] = []
  filter p (x ∷ xs) = let rest = filter p xs in if p x then x ∷ rest else rest

  abbrev pub Member : A → List A → Type 0
  Member x [] = ⊥
  Member x (y ∷ ys) = (y ≡ x) ⊎ Member x ys

  Member-of-filter :
      (p : A → Bool) (x : A) (xs : List A) → Member x (filter p xs) → Member x xs × (p x ≡ true)
  unfolding filter
  Member-of-filter p x [] m = absurd m
  Member-of-filter p x (y ∷ ys) m = elim (Bool-cases (p y)) [
    | inr out ↦
        (inr (Member-of-filter p x ys (rw out at m)).0, (Member-of-filter p x ys (rw out at m)).1)
    | inl kept ↦ from_kept kept (Member-of-filter p x ys) (rw kept at m)
  ]
    where
      from_kept :
          p y ≡ true
          → (Member x (filter p ys) → Member x ys × (p x ≡ true))
          → (y ≡ x) ⊎ Member x (filter p ys)
          → Member x (y ∷ ys) × (p x ≡ true)
      from_kept kept ih (inl same) = (inl same, sym (ap p same) ∙ kept)
      from_kept kept ih (inr later) = (inr (ih later).0, (ih later).1)

  filter_of-Member :
      (p : A → Bool) (x : A) (xs : List A) → Member x xs → p x ≡ true → Member x (filter p xs)
  unfolding filter
  filter_of-Member p x [] m h = absurd m
  filter_of-Member p x (y ∷ ys) (inl same) h = rw (ap p same ∙ h) (inl same)
  filter_of-Member p x (y ∷ ys) (inr later) h = elim (Bool-cases (p y)) [
    | inl kept ↦ rw kept (inr (filter_of-Member p x ys later h))
    | inr out ↦ rw out (filter_of-Member p x ys later h)
  ]

  pub Member-filter :
      (p : A → Bool) (x : A) (xs : List A) → Member x (filter p xs) ↔ (Member x xs × (p x ≡ true))
  Member-filter p x xs = (Member-of-filter p x xs, λ h. filter_of-Member p x xs h.0 h.1)
