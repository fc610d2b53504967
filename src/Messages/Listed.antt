-- ===== src/Messages/Listed.antt =====
-- A wrapper's list of callers, which the client passes on if it is attached.
use lendmirror.Common.{
  ◌≡◌, refl, sym, ◌∙◌, true, false, Bool, ◌||◌, Option, none, some, ◌⊎◌, inl, inr, Option-cases,
}
use mathlib.Core.Path.{subst}
use lendmirror.Common.Keys.{eqb, contains}
use lendmirror.Common.Outcome.{ok}
use lendmirror.Bytes.{Bytes}
use lendmirror.Pda.{Key, FindPda}
use lendmirror.Pda.Lendmirror.{ondemand}
use lendmirror.Client.{ondemand_if_attached}
use lendmirror.Messages.Program.{ProgramState, OndemandList}
use lendmirror.Messages.Program.Checks.{check_ondemand, may_call}
use lendmirror.Messages.Reading.{IsOther}
use lendmirror.Messages.Checks.{check_ondemand-ondemand}

module _ (find_pda : FindPda) (program_id : Key) (s : ProgramState)
    (get_account : Key → Option Bytes) (authority w : Key) (otherwise : Bool) where
  abbrev list_key : Key
  list_key = ondemand find_pda program_id w

  -- The list, if it is there, is the wrapper's own; and the caller is on it, or may act otherwise.
  pub record IsListed : Type 0 where
    pub is_other : eqb list_key program_id ≡ false
    pub attached :
        (account : Bytes)
        → get_account list_key ≡ some account
        → (l : OndemandList) × (s.ondemand_list list_key ≡ some l) × (l.wrapper ≡ w)
    pub allowed :
        (otherwise ≡ true)
        ⊎ ((account : Bytes) × (get_account list_key ≡ some account)
            × ((l : OndemandList) × (s.ondemand_list list_key ≡ some l)
                × (contains authority l.callers ≡ true)))

  -- The program takes the list that is passed, or its absence, and lets the caller in.
  pub record IsLet (o : Option Key) : Type 0 where
    pub other : IsOther program_id o
    pub fine : check_ondemand find_pda program_id s w o ≡ ok tt
    pub let_in : (otherwise || may_call find_pda program_id s authority o) ≡ true

  not_attached :
      get_account list_key ≡ none → ondemand_if_attached find_pda program_id get_account w ≡ none
  unfolding ondemand_if_attached
  not_attached gone = rw (ondemand_if_attached, gone) refl

  is_attached :
      (account : Bytes)
      → get_account list_key ≡ some account
      → ondemand_if_attached find_pda program_id get_account w ≡ some list_key
  unfolding ondemand_if_attached
  is_attached account there = rw (ondemand_if_attached, there) refl

  pub listed-IsLet : IsListed → IsLet (ondemand_if_attached find_pda program_id get_account w)
  listed-IsLet st = elim (Option-cases (get_account list_key)) [
    | inl gone ↦ subst IsLet (sym (not_attached gone)) (record {
      other = tt;
      fine = refl;
      let_in = elim st.allowed [
        | inl way ↦ rw way refl
        | inr (account, there, l) ↦ absurd (clash account (sym gone ∙ there))
      ];
    })
    | inr (account, there) ↦
        let (l, listed, own) = st.attached account there in
        subst IsLet (sym (is_attached account there)) (record {
          other = st.is_other;
          fine = check_ondemand-ondemand find_pda program_id s w l listed own;
          let_in = elim st.allowed [
            | inl way ↦ rw way refl
            | inr (account', there', (l', listed', calls)) ↦ rw (listed', calls) (or_true otherwise)
          ];
        })
  ]
    where
      clash : (account : Bytes) → ◌≡◌ {A = Option Bytes} none (some account) → ⊥
      clash account h = cc

      or_true : (b : Bool) → (b || true) ≡ true
      or_true true = refl
      or_true false = refl
