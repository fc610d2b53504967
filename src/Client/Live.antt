-- ===== src/Client/Live.antt =====
-- What the chain holds of a position, and that the client names the accounts from which the program
-- reads it.
use lendmirror.Common.{
  ℕ, zero, suc, ◌%◌, ◌^◌, ◌≤◌, ◌<◌, ◌≡◌, refl, sym, ◌∙◌, true, false, not, ◌&&◌, Option, some, List,
  [], ◌∷◌, ◌++◌, length, All, ◌==◌, if◌then◌else◌, arith,
}
use mathlib.Core.Path.{subst}
use mathlib.Core.List.{append_assoc}
use lendmirror.Common.Keys.{contains, contains-append, contains_self}
use lendmirror.Common.Outcome.{ok}
use lendmirror.Bytes.{Bytes, to_word}
use lendmirror.Pda.{Key, FindPda}
use lendmirror.Jupiter.Ticks.{branch_merged, u16_le, u32_le}
use lendmirror.Jupiter.Accounts.{JupiterBranchFields, decode_jupiter_branch_fields}
use lendmirror.Jupiter.Addresses.{jupiter_branch_pda, branch_seeds}
use lendmirror.LivePosition.{read_branch, merged, final}
use lendmirror.LivePosition.Chain.{IsChain, addresses}
use lendmirror.Client.Program.Live.{JupiterView, branch_address, branch_by_id, walk_branches}
use lendmirror.Messages.Reading.{eqb_refl}

pub All-contains : (seen ks : List Key) → All (λ k. contains k (seen ++ ks) ≡ true) ks
All-contains seen [] = tt
All-contains seen (k ∷ ks) = (
  ground (arith, contains-append k seen (k ∷ ks), contains_self k ks),
  subst (λ l. All (λ j. contains j l ≡ true) ks) (append_assoc seen (k ∷ []) ks)
      (All-contains (seen ++ (k ∷ [])) ks),
)

module _ (find_pda : FindPda) (get_account : Key → Option Bytes) (owner : Key → Key)
    (view : JupiterView) (vaults_program : Key) (vault_id : ℕ) where
  abbrev pda : ℕ → Key
  pda id = jupiter_branch_pda find_pda vaults_program vault_id id

  -- The account of a branch: the node answers what the program reads, and it is the branch's own.
  pub record IsBranch (id : ℕ) (fields : JupiterBranchFields) : Type 0 where
    pub fits : id < 2 ^ 32
    pub account : Bytes
    pub there : get_account (pda id) ≡ some account
    pub decoded : decode_jupiter_branch_fields account ≡ ok fields
    pub on_chain : view.branch (pda id) ≡ some (record { vault_id = vault_id; fields = fields })
    pub named : fields.branch_id ≡ id
    pub owned : owner (pda id) ≡ vaults_program

  -- The branches `ids` behind `first`, each merged into the next, up to one that is not merged.
  pub record IsLast (id : ℕ) : Type 0 where
    pub fields : JupiterBranchFields
    pub branch : IsBranch id fields
    pub unmerged : (fields.status == branch_merged) ≡ false

  pub record IsLink (id next : ℕ) : Type 0 where
    pub fields : JupiterBranchFields
    pub branch : IsBranch id fields
    pub was_merged : (fields.status == branch_merged) ≡ true
    pub leads_to : fields.connected_branch_id ≡ next

  abbrev pub IsLinked : ℕ → List ℕ → Type 0
  IsLinked first [] = IsLast first
  IsLinked first (id ∷ ids) = IsLink first id × IsLinked id ids

  read_branch_lem :
      (key : Key) (account : Bytes) (fields : JupiterBranchFields)
      → get_account key ≡ some account
      → decode_jupiter_branch_fields account ≡ ok fields
      → read_branch get_account key
        ≡ ok (if fields.status == branch_merged then merged fields.connected_branch_id else final)
  unfolding read_branch
  read_branch_lem key account fields t d = ground arith

  read_last : (id : ℕ) (h : IsLast id) → read_branch get_account (pda id) ≡ ok final
  read_last id h =
      read_branch_lem (pda id) h.branch.account h.fields h.branch.there h.branch.decoded
      ∙ ground (arith, h.unmerged)

  read_link :
      (id next : ℕ) (h : IsLink id next) → read_branch get_account (pda id) ≡ ok (merged next)
  read_link id next h =
      read_branch_lem (pda id) h.branch.account h.fields h.branch.there h.branch.decoded
      ∙ ground (arith, h.was_merged, h.leads_to)

  pub linked-IsChain :
      (first : ℕ) (ids : List ℕ)
      → IsLinked first ids
      → IsChain find_pda get_account vaults_program vault_id first ids
  linked-IsChain first [] h = read_last first h
  linked-IsChain first (id ∷ ids) h = (read_link first id h.0, linked-IsChain id ids h.1)

  address_lem :
      (remaining : List Key) (id : ℕ)
      → id < 2 ^ 32
      → branch_address find_pda owner view vaults_program vault_id remaining id ≡ pda id
  unfolding branch_address jupiter_branch_pda branch_seeds u16_le u32_le to_word
  address_lem remaining id h = let small : id % 2 ^ 32 ≡ id = omega arith in rw small refl

  branch_by_id_lem :
      (remaining : List Key) (id : ℕ) (fields : JupiterBranchFields)
      → IsBranch id fields
      → contains (pda id) remaining ≡ true
      → branch_by_id find_pda owner view vaults_program vault_id remaining id ≡ ok fields
  unfolding branch_by_id
  branch_by_id_lem remaining id fields b c =
      rw (address_lem remaining id b.fits, c, b.owned, eqb_refl vaults_program, b.on_chain)
        (ground (arith, b.named))

  walk_branches_step :
      (remaining : List Key) (left id : ℕ) (fields : JupiterBranchFields)
      → branch_by_id find_pda owner view vaults_program vault_id remaining id ≡ ok fields
      → walk_branches find_pda owner view vaults_program vault_id remaining (suc left) id
        ≡ elim (fields.status == branch_merged && not (view.ends_at id)) [
          | false ↦ ok tt
          | true ↦
              walk_branches find_pda owner view vaults_program vault_id remaining left
                fields.connected_branch_id
        ]
  unfolding walk_branches
  walk_branches_step remaining left id fields e = rw e refl

  pub walk_branches_lem :
      (remaining : List Key) (left first : ℕ) (ids : List ℕ)
      → IsLinked first ids
      → All
          (λ k. contains k remaining ≡ true)
          (addresses find_pda get_account vaults_program vault_id (first ∷ ids))
      → length (first ∷ ids) ≤ left
      → walk_branches find_pda owner view vaults_program vault_id remaining left first ≡ ok tt
  walk_branches_lem remaining zero first ids h a n = absurd (omega arith)
  walk_branches_lem remaining (suc left) first [] h a n =
      walk_branches_step remaining left first h.fields
        (branch_by_id_lem remaining first h.fields h.branch a.0)
      ∙ ground (arith, h.unmerged)
  walk_branches_lem remaining (suc left) first (id ∷ ids) h a n =
      let rest =
        subst
          (λ j. walk_branches find_pda owner view vaults_program vault_id remaining left j ≡ ok tt)
          (sym h.0.leads_to) (walk_branches_lem remaining left id ids h.1 a.1 (omega arith)) in
      walk_branches_step remaining left first h.0.fields
        (branch_by_id_lem remaining first h.0.fields h.0.branch a.0)
      ∙ ground (arith, h.0.was_merged, rest)
