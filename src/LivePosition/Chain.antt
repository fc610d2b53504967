-- ===== src/LivePosition/Chain.antt =====
-- A chain of branches on chain, walked to its end.
use lendmirror.Common.{ℕ, zero, suc, ◌≤◌, ◌≡◌, refl, ap, ◌∙◌, false, Option}
use lendmirror.Common.{List, [], ◌∷◌, ◌++◌, map, length, All, arith}
use mathlib.Core.List.{append_assoc}
use lendmirror.Common.Keys.{eqb_iff, contains, Distinct, contains-append}
use lendmirror.Common.Outcome.{ok}
use lendmirror.Bytes.{Bytes}
use lendmirror.Pda.{Key, FindPda}
use lendmirror.LivePosition.{walk, read_branch, final, merged}
use lendmirror.LivePosition.Walk.{branch_pda}

module _ (find_pda : FindPda) (get_account : Key → Option Bytes) (vaults_program : Key)
    (vault_id : ℕ) where
  -- The branches `ids` behind `first`, each merged into the next, up to one that is not merged.
  abbrev pub IsChain : ℕ → List ℕ → Type 0
  IsChain first [] =
      read_branch get_account (branch_pda find_pda get_account vaults_program vault_id first)
      ≡ ok final
  IsChain first (id ∷ ids) =
      (read_branch get_account (branch_pda find_pda get_account vaults_program vault_id first)
        ≡ ok (merged id))
      × IsChain id ids

  abbrev pub addresses : List ℕ → List Key
  addresses ids = map (branch_pda find_pda get_account vaults_program vault_id) ids

  -- No address of the list is among those seen, nor occurs twice.
  abbrev Fresh : List Key → List ℕ → Type 0
  Fresh seen [] = Unit
  Fresh seen (id ∷ ids) =
      (contains (branch_pda find_pda get_account vaults_program vault_id id) seen ≡ false)
      × Fresh (seen ++ (branch_pda find_pda get_account vaults_program vault_id id ∷ [])) ids

  walk_chain :
      (hops first : ℕ) (ids : List ℕ) (seen : List Key)
      → IsChain first ids
      → Fresh seen (first ∷ ids)
      → length (first ∷ ids) ≤ hops
      → walk find_pda get_account vaults_program vault_id hops first seen
        ≡ ok (seen ++ addresses (first ∷ ids))
  unfolding walk
  walk_chain zero first ids seen c f n = absurd (omega arith)
  walk_chain (suc hops) first [] seen c f n = rw (f.0, c) refl
  walk_chain (suc hops) first (id ∷ ids) seen c f n =
      rw (f.0, c.0)
        (walk_chain hops id ids _ c.1 f.1 (omega arith)
          ∙ ap ok (
              append_assoc seen (branch_pda find_pda get_account vaults_program vault_id first ∷ [])
                _))

  Fresh-push :
      (seen : List Key) (k : Key) (ks : List Key)
      → contains k ks ≡ false
      → All (λ j. contains j seen ≡ false) ks
      → All (λ j. contains j (seen ++ (k ∷ [])) ≡ false) ks
  unfolding contains
  Fresh-push seen k [] h a = tt
  Fresh-push seen k (j ∷ ks) h a = (
    ground (arith, contains-append j seen (k ∷ []), eqb_iff j k, eqb_iff k j),
    Fresh-push seen k ks (ground arith) a.1,
  )

  Fresh-of_Distinct :
      (seen : List Key) (ids : List ℕ)
      → Distinct (addresses ids)
      → All (λ j. contains j seen ≡ false) (addresses ids)
      → Fresh seen ids
  Fresh-of_Distinct seen [] d a = tt
  Fresh-of_Distinct seen (id ∷ ids) d a = (
    a.0,
    Fresh-of_Distinct (seen ++ (branch_pda find_pda get_account vaults_program vault_id id ∷ []))
        ids d.1 (Fresh-push seen _ (addresses ids) d.0 a.1),
  )

  All-unseen : (ks : List Key) → All (λ j. contains j [] ≡ false) ks
  unfolding contains
  All-unseen [] = tt
  All-unseen (k ∷ ks) = (refl, All-unseen ks)

  -- If at most 32 branches are linked, each existing one merged into the next and the last one not
  -- merged, and their addresses differ, then the walk from the first returns exactly their
  -- addresses, in the order of the links.
  pub walk-chain :
      (first : ℕ) (ids : List ℕ)
      → IsChain first ids
      → Distinct (addresses (first ∷ ids))
      → length (first ∷ ids) ≤ 32
      → walk find_pda get_account vaults_program vault_id 32 first [] ≡ ok (addresses (first ∷ ids))
  walk-chain first ids c d n =
      walk_chain 32 first ids [] c
        (Fresh-of_Distinct [] (first ∷ ids) d (All-unseen (addresses (first ∷ ids)))) n
