-- ===== src/LivePosition/Walk.antt =====
-- The walk over the branches.
use lendmirror.Common.{ℕ, zero, suc, ◌+◌, ◌≤◌, ◌≡◌, sym, ◌∙◌, ◌≢◌, false, Option, none}
use lendmirror.Common.{List, [], ◌∷◌, ◌++◌, length, All, Bool-cases, inl, inr, arith}
use lendmirror.Common.{length-append}
use lendmirror.Common.Keys.{contains, Distinct, Distinct-concat}
use lendmirror.Common.Outcome.{Result, ok, err, Result-cases, ok-injective}
use lendmirror.Bytes.{Bytes}
use lendmirror.Pda.{Key, FindPda}
use lendmirror.Jupiter.Accounts.{DecodeError}
use lendmirror.Jupiter.Addresses.{jupiter_branch_pda}
use lendmirror.LivePosition.{walk, read_branch, Hop, missing, final, merged}

module _ (find_pda : FindPda) (get_account : Key → Option Bytes) (vaults_program : Key)
    (vault_id : ℕ) where
  abbrev pub branch_pda : ℕ → Key
  branch_pda id = jupiter_branch_pda find_pda vaults_program vault_id id

  abbrev pub run : ℕ → ℕ → List Key → Result DecodeError (List Key)
  run = walk find_pda get_account vaults_program vault_id

  -- What the walk keeps: no address twice, every one that of an account that exists, and no more
  -- than the hops made.
  pub record IsTrail (hops : ℕ) (branches : List Key) : Type 0 where
    pub distinct : Distinct branches
    pub exist : All (λ k. get_account k ≢ none) branches
    pub short : length branches ≤ hops

  -- The four ways in which a round of the walk can go.
  data Round (hops next : ℕ) (branches : List Key) (r : Result DecodeError (List Key))
      : Type 0 where
    stopped : r ≡ ok branches → Round hops next branches r
    failed : (e : DecodeError) → r ≡ err e → Round hops next branches r
    last :
        contains (branch_pda next) branches ≡ false
        → get_account (branch_pda next) ≢ none
        → r ≡ ok (branches ++ (branch_pda next ∷ []))
        → Round hops next branches r
    onward :
        (id : ℕ)
        → contains (branch_pda next) branches ≡ false
        → get_account (branch_pda next) ≢ none
        → r ≡ run hops id (branches ++ (branch_pda next ∷ []))
        → Round hops next branches r

  read_branch_there :
      (k : Key) (hop : Hop)
      → read_branch get_account k ≡ ok hop
      → hop ≢ missing
      → get_account k ≢ none
  unfolding read_branch
  read_branch_there k hop e h = λ gone. h (ground arith)

  round :
      (hops next : ℕ) (branches : List Key)
      → Round hops next branches (run (suc hops) next branches)
  unfolding walk
  round hops next branches = elim (Bool-cases (contains (branch_pda next) branches)) [
    | inl seen ↦ stopped (rw seen)
    | inr fresh ↦ elim (Result-cases (read_branch get_account (branch_pda next))) [
      | inr (e, bad) ↦ failed e (rw (fresh, bad))
      | inl (missing, read) ↦ stopped (rw (fresh, read))
      | inl (final, read) ↦ last fresh (read_branch_there _ final read (λ h. cc)) (rw (fresh, read))
      | inl (merged id, read) ↦
          onward id fresh (read_branch_there _ (merged id) read (λ h. cc)) (rw (fresh, read))
    ]
  ]

  All-concat :
      (branches : List Key) (k : Key)
      → All (λ k. get_account k ≢ none) branches
      → get_account k ≢ none
      → All (λ k. get_account k ≢ none) (branches ++ (k ∷ []))
  All-concat [] k a h = (h, tt)
  All-concat (b ∷ bs) k a h = (a.0, All-concat bs k a.1 h)

  IsTrail-push :
      (made : ℕ) (branches : List Key) (k : Key)
      → IsTrail made branches
      → contains k branches ≡ false
      → get_account k ≢ none
      → IsTrail (suc made) (branches ++ (k ∷ []))
  IsTrail-push made branches k t fresh there = record {
    distinct = Distinct-concat branches k t.distinct fresh;
    exist = All-concat branches k t.exist there;
    short = omega (arith, t.short, length-append branches (k ∷ []));
  }

  pub IsTrail-weaken :
      (made more : ℕ) (branches : List Key) → IsTrail made branches → IsTrail (made + more) branches
  IsTrail-weaken made more branches t = record {
    distinct = t.distinct;
    exist = t.exist;
    short = omega (arith, t.short);
  }

  add-suc-left : (n m : ℕ) → n + suc m ≡ suc n + m
  add-suc-left n m = omega arith

  pub walk-IsTrail :
      (hops made next : ℕ) (branches result : List Key)
      → IsTrail made branches
      → run hops next branches ≡ ok result
      → IsTrail (made + hops) result
  unfolding walk
  walk-IsTrail zero made next branches result t e =
      rw (← ok-injective e) (IsTrail-weaken made 0 branches t)
  walk-IsTrail (suc hops) made next branches result t e = elim (round hops next branches) [
    | stopped s ↦ rw (← ok-injective (sym s ∙ e)) (IsTrail-weaken made (suc hops) branches t)
    | failed x f ↦ cc
    | last fresh there l ↦
        rw (← ok-injective (sym l ∙ e), add-suc-left made hops)
          (IsTrail-weaken (suc made) hops _ (IsTrail-push made branches _ t fresh there))
    | onward id fresh there m ↦ rw (add-suc-left made hops) (
        walk-IsTrail hops (suc made) id _ result (IsTrail-push made branches _ t fresh there)
          (sym m ∙ e))
  ]
