-- ===== src/Jupiter/Addresses/Separation.antt =====
-- Which of Jupiter's accounts can share an address.
use lendmirror.Common.{ℕ, ◌^◌, ◌<◌, ◌≡◌, refl, ap, sym, ◌∙◌, List, ◌++◌, length, get_or, arith}
use lendmirror.Common.{if◌then◌else◌, ◌==◌}
use lendmirror.Common.Int.{ℤ}
use lendmirror.Common.Text.{codes}
use lendmirror.Bytes.{Bytes, le_bytes}
use lendmirror.Pda.{seed_bytes}
use lendmirror.Pda.Pieces.{same_prefix, u16_first, u32_first, id_first, pair_eq, id_eq}
use lendmirror.Jupiter.Ticks.{u16_le, u32_le, tick_pda_seed, normalize_tick, liquidation_group}
use lendmirror.Jupiter.Ticks.Seeds.{IsI32, tick_pda_seed_iff}
use lendmirror.Jupiter.Addresses.{
  position_seeds, position_mint_seeds, vault_state_seeds, vault_config_seeds, tick_seeds,
  branch_seeds, tick_id_liquidation_seeds,
}

-- The accounts of one Vaults program.
pub data JupiterAccount : Type 0 where
  position position_mint : ℕ → ℕ → JupiterAccount
  vault_state vault_config : ℕ → JupiterAccount
  tick : ℕ → ℤ → JupiterAccount
  branch : ℕ → ℕ → JupiterAccount
  tick_id_liquidation : ℕ → ℤ → ℕ → JupiterAccount

pub seeds : JupiterAccount → List Bytes
unfolding position_seeds position_mint_seeds vault_state_seeds vault_config_seeds tick_seeds
    branch_seeds tick_id_liquidation_seeds
seeds (position v n) = position_seeds v n
seeds (position_mint v n) = position_mint_seeds v n
seeds (vault_state v) = vault_state_seeds v
seeds (vault_config v) = vault_config_seeds v
seeds (tick v t) = tick_seeds v t
seeds (branch v b) = branch_seeds v b
seeds (tick_id_liquidation v t i) = tick_id_liquidation_seeds v t i

-- The ids are in the range of their fields.
abbrev pub InRange : JupiterAccount → Type 0
InRange (position v n) = (v < 2 ^ 16) × (n < 2 ^ 32)
InRange (position_mint v n) = (v < 2 ^ 16) × (n < 2 ^ 32)
InRange (vault_state v) = v < 2 ^ 16
InRange (vault_config v) = v < 2 ^ 16
InRange (tick v t) = (v < 2 ^ 16) × IsI32 t
InRange (branch v b) = (v < 2 ^ 16) × (b < 2 ^ 32)
InRange (tick_id_liquidation v t i) = (v < 2 ^ 16) × IsI32 t × (i < 2 ^ 32)

-- The same account: ticks count as normalised, and the ids of one group share an account.
abbrev pub Same : JupiterAccount → JupiterAccount → Type 0
Same (position v n) (position w m) = (v ≡ w) × (n ≡ m)
Same (position_mint v n) (position_mint w m) = (v ≡ w) × (n ≡ m)
Same (vault_state v) (vault_state w) = v ≡ w
Same (vault_config v) (vault_config w) = v ≡ w
Same (tick v t) (tick w u) = (v ≡ w) × (normalize_tick t ≡ normalize_tick u)
Same (branch v b) (branch w c) = (v ≡ w) × (b ≡ c)
Same (tick_id_liquidation v t i) (tick_id_liquidation w u j) =
    (v ≡ w) × (normalize_tick t ≡ normalize_tick u) × (liquidation_group i ≡ liquidation_group j)
Same _ _ = ⊥

-- The length of the seeds tells the kinds apart, but for two, which differ in the first byte.
abbrev kind_of_bytes : Bytes → ℕ
kind_of_bytes bs = if length bs == 14 then get_or bs 0 0 else length bs

abbrev kind : JupiterAccount → ℕ
kind (position v n) = 112
kind (position_mint v n) = 19
kind (vault_state v) = 13
kind (vault_config v) = 118
kind (tick v t) = 10
kind (branch v b) = 12
kind (tick_id_liquidation v t i) = 29

kind-seeds : (a : JupiterAccount) → kind_of_bytes (seed_bytes (seeds a)) ≡ kind a
unfolding seeds u16_le u32_le tick_pda_seed le_bytes
kind-seeds (position v n) = refl
kind-seeds _ = refl

group-lt : (i : ℕ) → i < 2 ^ 32 → liquidation_group i < 2 ^ 32
unfolding liquidation_group
group-lt i h = omega arith

tick_first :
    (t u : ℤ) {us vs : Bytes}
    → IsI32 t
    → IsI32 u
    → tick_pda_seed t ++ us ≡ tick_pda_seed u ++ vs
    → (normalize_tick t ≡ normalize_tick u) × (us ≡ vs)
unfolding tick_pda_seed
tick_first t u {us} {vs} p q e =
    let (here, later) = u32_first _ _ {us = us} {vs = vs} e in
    ((tick_pda_seed_iff t u p q).0 here, later)

Same-of_kind :
    (a b : JupiterAccount)
    → kind a ≡ kind b
    → InRange a
    → InRange b
    → seed_bytes (seeds a) ≡ seed_bytes (seeds b)
    → Same a b
unfolding seeds
Same-of_kind (position v n) (position w m) k p q e = pair_eq (codes "position") v w n m p q e
Same-of_kind (position_mint v n) (position_mint w m) k p q e =
    pair_eq (codes "position_mint") v w n m p q e
Same-of_kind (vault_state v) (vault_state w) k p q e = id_eq (codes "vault_state") v w p q e
Same-of_kind (vault_config v) (vault_config w) k p q e = id_eq (codes "vault_config") v w p q e
Same-of_kind (tick v t) (tick w u) k p q e =
    let (here, later) = u16_first v w p.0 q.0 (same_prefix (codes "tick") e) in
    (here, (tick_first t u p.1 q.1 later).0)
Same-of_kind (branch v n) (branch w m) k p q e = pair_eq (codes "branch") v w n m p q e
Same-of_kind (tick_id_liquidation v t i) (tick_id_liquidation w u j) k p q e =
    let (here, later) = u16_first v w p.0 q.0 (same_prefix (codes "tick_id_liquidation") e) in
    let (ticks, groups) = tick_first t u p.1 q.1 later in
    (here, ticks, (id_first _ _ (group-lt i p.2) (group-lt j q.2) groups).0)
Same-of_kind _ _ k p q e = absurd (omega arith)

-- Two of Jupiter's accounts have the same seeds, read one after the other, only if they are the
-- same account, with ids in the range of their fields.
pub seeds_separate :
    (a b : JupiterAccount)
    → InRange a
    → InRange b
    → seed_bytes (seeds a) ≡ seed_bytes (seeds b)
    → Same a b
seeds_separate a b p q e =
    Same-of_kind a b (sym (kind-seeds a) ∙ ap kind_of_bytes e ∙ kind-seeds b) p q e
