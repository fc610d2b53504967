-- ===== src/Client/Custody.antt =====
-- Which wrappers the client lists.
use lendmirror.Common.{◌≡◌, sym, ◌⊎◌, ◌↔◌, true, List, [], ◌∷◌, Bool-cases, inl, inr}
use mathlib.Core.Path.{subst}
use lendmirror.Common.Keys.{eqb, eqb_iff}
use lendmirror.Pda.{Key, FindPda}
use lendmirror.Pda.Lendmirror.{wrapper}
use lendmirror.Client.{PositionWrapper, list_wrappers}

abbrev pub Among : PositionWrapper → List PositionWrapper → Type 0
Among w [] = ⊥
Among w (x ∷ xs) = (x ≡ w) ⊎ Among w xs

module _ (find_pda : FindPda) (program_id : Key) where
  -- The wrapper's address is the one that the current seed gives for its ids.
  abbrev pub IsCurrent : PositionWrapper → Type 0
  IsCurrent w = w.public_key ≡ wrapper find_pda program_id w.vault_id w.nft_id

  IsCurrent-iff :
      (w : PositionWrapper)
      → (eqb w.public_key (wrapper find_pda program_id w.vault_id w.nft_id) ≡ true) ↔ IsCurrent w
  IsCurrent-iff w = eqb_iff w.public_key (wrapper find_pda program_id w.vault_id w.nft_id)

  listed_of :
      (w : PositionWrapper) (ws : List PositionWrapper)
      → Among w (list_wrappers find_pda program_id ws)
      → Among w ws × IsCurrent w
  unfolding list_wrappers
  listed_of w [] a = absurd a
  listed_of w (x ∷ xs) a =
      elim (Bool-cases (eqb x.public_key (wrapper find_pda program_id x.vault_id x.nft_id))) [
        | inl current ↦ kept ((IsCurrent-iff x).0 current) (listed_of w xs) (rw current at a)
        | inr stale ↦ passed (listed_of w xs (rw stale at a))
      ]
    where
      passed : Among w xs × IsCurrent w → Among w (x ∷ xs) × IsCurrent w
      passed p = (inr p.0, p.1)

      kept :
          IsCurrent x
          → (Among w (list_wrappers find_pda program_id xs) → Among w xs × IsCurrent w)
          → (x ≡ w) ⊎ Among w (list_wrappers find_pda program_id xs)
          → Among w (x ∷ xs) × IsCurrent w
      kept c before (inl same) = (inl same, subst IsCurrent same c)
      kept c before (inr later) = passed (before later)

  list_of :
      (w : PositionWrapper) (ws : List PositionWrapper)
      → Among w ws
      → IsCurrent w
      → Among w (list_wrappers find_pda program_id ws)
  unfolding list_wrappers
  list_of w [] a c = absurd a
  list_of w (x ∷ xs) (inl same) c =
      rw ((IsCurrent-iff x).1 (subst IsCurrent (sym same) c)) (inl same)
  list_of w (x ∷ xs) (inr later) c =
      elim (Bool-cases (eqb x.public_key (wrapper find_pda program_id x.vault_id x.nft_id))) [
        | inl current ↦ rw current (inr (list_of w xs later c))
        | inr stale ↦ rw stale (list_of w xs later c)
      ]

  -- A wrapper is listed exactly if it is among the accounts found and its address is the one that the
  -- current seed gives for its ids.
  pub list_wrappers-IsCurrent :
      (w : PositionWrapper) (ws : List PositionWrapper)
      → Among w (list_wrappers find_pda program_id ws) ↔ (Among w ws × IsCurrent w)
  list_wrappers-IsCurrent w ws = (listed_of w ws, λ p. list_of w ws p.0 p.1)
