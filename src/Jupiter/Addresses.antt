-- ===== src/Jupiter/Addresses.antt =====
-- lib/client/jupiter.ts, lines 147-185: the addresses of Jupiter's accounts.
pub mod Separation
use lendmirror.Common.{ℕ, List, [], ◌∷◌}
use lendmirror.Common.Int.{ℤ, pos}
use lendmirror.Common.Text.{codes}
use lendmirror.Bytes.{Bytes}
use lendmirror.Pda.{Key, FindPda}
use lendmirror.Jupiter.Ticks.{u16_le, u32_le, tick_pda_seed, liquidation_group}

unfoldable pub position_seeds : ℕ → ℕ → List Bytes
position_seeds vault_id nft_id = codes "position" ∷ u16_le vault_id ∷ u32_le (pos nft_id) ∷ []

unfoldable pub position_mint_seeds : ℕ → ℕ → List Bytes
position_mint_seeds vault_id nft_id =
    codes "position_mint" ∷ u16_le vault_id ∷ u32_le (pos nft_id) ∷ []

unfoldable pub vault_state_seeds : ℕ → List Bytes
vault_state_seeds vault_id = codes "vault_state" ∷ u16_le vault_id ∷ []

unfoldable pub vault_config_seeds : ℕ → List Bytes
vault_config_seeds vault_id = codes "vault_config" ∷ u16_le vault_id ∷ []

unfoldable pub tick_seeds : ℕ → ℤ → List Bytes
tick_seeds vault_id tick = codes "tick" ∷ u16_le vault_id ∷ tick_pda_seed tick ∷ []

unfoldable pub branch_seeds : ℕ → ℕ → List Bytes
branch_seeds vault_id branch_id = codes "branch" ∷ u16_le vault_id ∷ u32_le (pos branch_id) ∷ []

unfoldable pub tick_id_liquidation_seeds : ℕ → ℤ → ℕ → List Bytes
tick_id_liquidation_seeds vault_id tick tick_id =
    codes "tick_id_liquidation"
    ∷ u16_le vault_id
    ∷ tick_pda_seed tick
    ∷ u32_le (pos (liquidation_group tick_id))
    ∷ []

module _ (find_pda : FindPda) (vaults_program : Key) where
  unfoldable pub jupiter_position_pda : ℕ → ℕ → Key
  jupiter_position_pda vault_id nft_id = find_pda vaults_program (position_seeds vault_id nft_id)

  unfoldable pub jupiter_position_mint_pda : ℕ → ℕ → Key
  jupiter_position_mint_pda vault_id nft_id =
      find_pda vaults_program (position_mint_seeds vault_id nft_id)

  unfoldable pub jupiter_vault_state_pda : ℕ → Key
  jupiter_vault_state_pda vault_id = find_pda vaults_program (vault_state_seeds vault_id)

  unfoldable pub jupiter_vault_config_pda : ℕ → Key
  jupiter_vault_config_pda vault_id = find_pda vaults_program (vault_config_seeds vault_id)

  unfoldable pub jupiter_tick_pda : ℕ → ℤ → Key
  jupiter_tick_pda vault_id tick = find_pda vaults_program (tick_seeds vault_id tick)

  unfoldable pub jupiter_branch_pda : ℕ → ℕ → Key
  jupiter_branch_pda vault_id branch_id = find_pda vaults_program (branch_seeds vault_id branch_id)

  unfoldable pub jupiter_tick_id_liquidation_pda : ℕ → ℤ → ℕ → Key
  jupiter_tick_id_liquidation_pda vault_id tick tick_id =
      find_pda vaults_program (tick_id_liquidation_seeds vault_id tick tick_id)
