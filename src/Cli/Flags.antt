-- ===== src/Cli/Flags.antt =====
-- Flags are put in before the values of a constructor.
use lendmirror.Common.{
  ◌≡◌, refl, sym, ap, true, false, ◌||◌, ◌⊎◌, inl, inr, Option, none, some, List, [], ◌∷◌, ◌++◌,
  All, Bool-cases, arith, ℕ,
}
use mathlib.Core.List.{append-nil}
use lendmirror.Cli.{
  Word, has_flag, is_constructor_flag, index_after, find_index, insert_at, insert_forge_flags,
}

pub has_flag-append :
    (name : Word) (xs ys : List Word)
    → has_flag (xs ++ ys) name ≡ (has_flag xs name || has_flag ys name)
unfolding has_flag
has_flag-append name [] ys = refl
has_flag-append name (x ∷ xs) ys = ground (arith, has_flag-append name xs ys)

-- The arguments are cut at the first constructor flag, if there is one.
pub record IsCut (args front back : List Word) : Type 0 where
  pub whole : front ++ back ≡ args
  pub before : All (λ a. is_constructor_flag a ≡ false) front
  pub after :
      (back ≡ [])
      ⊎ ((a : Word) × (rest : List Word) × (back ≡ a ∷ rest) × (is_constructor_flag a ≡ true))

-- The new list is the old one with the flags at the cut.
pub record IsInserted (args flags result : List Word) : Type 0 where
  pub front : List Word
  pub back : List Word
  pub cut : IsCut args front back
  pub result_is : result ≡ front ++ (flags ++ back)

IsInserted-later :
    (a : Word) (args flags result : List Word)
    → is_constructor_flag a ≡ false
    → IsInserted args flags result
    → IsInserted (a ∷ args) flags (a ∷ result)
IsInserted-later a args flags result h i = record {
  front = a ∷ i.front;
  back = i.back;
  cut = record {
    whole = ap (λ l. a ∷ l) i.cut.whole;
    before = (h, i.cut.before);
    after = i.cut.after;
  };
  result_is = ap (λ l. a ∷ l) i.result_is;
}

insert_later :
    (a : Word) (args flags : List Word) (found : Option ℕ)
    → insert_at (index_after false found) (a ∷ args) flags ≡ a ∷ insert_at found args flags
insert_later a args flags none = refl
insert_later a args flags (some i) = refl

pub insert_forge_flags-IsInserted :
    (args flags : List Word) → IsInserted args flags (insert_forge_flags args flags)
unfolding insert_forge_flags find_index
insert_forge_flags-IsInserted [] flags = record {
  front = [];
  back = [];
  cut = record { whole = refl; before = tt; after = inl refl };
  result_is = sym (append-nil flags);
}
insert_forge_flags-IsInserted (a ∷ args) flags = elim (Bool-cases (is_constructor_flag a)) [
  | inl here ↦ rw here (record {
    front = [];
    back = a ∷ args;
    cut = record { whole = refl; before = tt; after = inr (a, args, refl, here) };
    result_is = refl;
  })
  | inr other ↦
      rw (other, insert_later a args flags (find_index is_constructor_flag args))
        (IsInserted-later a args flags (insert_forge_flags args flags) other
          (insert_forge_flags-IsInserted args flags))
]
