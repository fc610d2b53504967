-- ===== src/Client/Constraints.antt =====
-- The constraints on the accounts of a refresh, and that the accounts which the client names meet them.
use lendmirror.Common.{ℕ, ◌<◌, ◌^◌, ◌%◌, ◌≡◌, refl, Option, none, some, List, [], ◌∷◌, arith}
use lendmirror.Common.Text.{codes}
use lendmirror.Common.Outcome.{ok}
use lendmirror.Bytes.{Bytes, le_bytes, to_word}
use lendmirror.Pda.{Key, FindPda}
use lendmirror.Pda.Lendmirror.{wrapper}
use lendmirror.Jupiter.Ticks.{u16_le, u32_le}
use lendmirror.Jupiter.Accounts.{}
use lendmirror.Jupiter.Addresses.{
  position_seeds, vault_state_seeds, vault_config_seeds, jupiter_position_pda,
  jupiter_vault_state_pda, jupiter_vault_config_pda,
}
use lendmirror.LivePosition.{LiveAccounts}
use lendmirror.Client.{RefreshInput, ondemand_if_attached, refresh_input}
use lendmirror.Client.Program.Live.{}
use lendmirror.Client.Situation.{}
use lendmirror.Client.Reading.{context_of}
use lendmirror.Client.Program.{
  RefreshState, check_refresh_accounts, check_jupiter, check_optional_owner, may_refresh,
}
use lendmirror.Messages.Reading.{IsOther, eqb_refl}
use lendmirror.Messages.Checks.{check_wrapper-wrapper, check_store-oapp}
use lendmirror.Messages.Listed.{IsListed, IsLet, listed-IsLet}

module _ (find_pda : FindPda) (program_id : Key) (s : RefreshState)
    (get_account : Key → Option Bytes) (authority : Key) (vault_id nft_id : ℕ)
    (vaults_program : Key) where
  abbrev pub own_wrapper : Key
  own_wrapper = wrapper find_pda program_id vault_id nft_id

  abbrev IsOwned : Option Key → Type 0
  IsOwned none = Unit
  IsOwned (some key) = s.shared.owner key ≡ vaults_program

  -- What the chain holds: the wrapper, its list of callers if one is attached, and Jupiter's accounts
  -- under the program that the Store names. The caller owns the wrapper, is a snapshotter of the
  -- Store, or is on the attached list.
  pub record IsRefreshState (tick : Key) (tick_id_liquidation : Option Key) : Type 0 where
    pub nft_fits : nft_id < 2 ^ 32
    pub wrapper_there : s.shared.wrapper_ids own_wrapper ≡ some (vault_id, nft_id)
    pub list :
        IsListed find_pda program_id s.shared get_account authority own_wrapper
          (may_refresh find_pda program_id s own_wrapper authority)
    pub same_vaults : vaults_program ≡ s.vaults_program
    pub position_owned :
        s.shared.owner (jupiter_position_pda find_pda vaults_program vault_id nft_id)
        ≡ vaults_program
    pub state_owned :
        s.shared.owner (jupiter_vault_state_pda find_pda vaults_program vault_id) ≡ vaults_program
    pub config_owned :
        s.shared.owner (jupiter_vault_config_pda find_pda vaults_program vault_id) ≡ vaults_program
    pub tick_owned : s.shared.owner tick ≡ vaults_program
    pub liquidation_owned : IsOwned tick_id_liquidation
    pub liquidation_other : IsOther program_id tick_id_liquidation

  position_lem :
      nft_id < 2 ^ 32
      → jupiter_position_pda find_pda vaults_program vault_id nft_id
        ≡ find_pda vaults_program (codes "position" ∷ le_bytes 2 vault_id ∷ le_bytes 4 nft_id ∷ [])
  unfolding jupiter_position_pda position_seeds u16_le u32_le to_word
  position_lem fits = let small : nft_id % 2 ^ 32 ≡ nft_id = omega arith in rw small refl

  state_lem :
      jupiter_vault_state_pda find_pda vaults_program vault_id
      ≡ find_pda vaults_program (codes "vault_state" ∷ le_bytes 2 vault_id ∷ [])
  unfolding jupiter_vault_state_pda vault_state_seeds u16_le
  state_lem = refl

  config_lem :
      jupiter_vault_config_pda find_pda vaults_program vault_id
      ≡ find_pda vaults_program (codes "vault_config" ∷ le_bytes 2 vault_id ∷ [])
  unfolding jupiter_vault_config_pda vault_config_seeds u16_le
  config_lem = refl

  check_jupiter_lem :
      (key : Key) (seeds : List Bytes)
      → key ≡ find_pda vaults_program seeds
      → s.shared.owner key ≡ vaults_program
      → check_jupiter find_pda program_id s vaults_program key seeds ≡ ok tt
  check_jupiter_lem key seeds e o = rw (← e, eqb_refl key, o, eqb_refl vaults_program) refl

  check_optional_owner_lem :
      (o : Option Key)
      → IsOwned o
      → check_optional_owner find_pda program_id s vaults_program o ≡ ok tt
  check_optional_owner_lem none h = refl
  check_optional_owner_lem (some key) h = rw (h, eqb_refl vaults_program) refl

  abbrev pub input_of : Key → LiveAccounts → RefreshInput
  input_of tick live =
      refresh_input find_pda program_id get_account authority vault_id nft_id vaults_program tick
        live

  pub let_lem :
      (tick : Key) (l : Option Key)
      → IsRefreshState tick l
      → IsLet find_pda program_id s.shared get_account authority own_wrapper
          (may_refresh find_pda program_id s own_wrapper authority)
          (ondemand_if_attached find_pda program_id get_account own_wrapper)
  let_lem tick l st =
      listed-IsLet find_pda program_id s.shared get_account authority own_wrapper
        (may_refresh find_pda program_id s own_wrapper authority) st.list

  pub checked_lem :
      (tick : Key) (live : LiveAccounts)
      → IsRefreshState tick live.tick_id_liquidation
      → check_refresh_accounts find_pda program_id s (context_of (input_of tick live)) ≡ ok tt
  unfolding check_refresh_accounts refresh_input
  checked_lem tick live st =
      let l = let_lem tick live.tick_id_liquidation st in
      rw
        (
          check_store-oapp find_pda program_id s.shared,
          check_wrapper-wrapper find_pda program_id s.shared vault_id nft_id st.nft_fits
              st.wrapper_there,
          st.wrapper_there,
          l.let_in,
          l.fine,
          ← st.same_vaults,
          eqb_refl vaults_program,
          check_jupiter_lem (jupiter_position_pda find_pda vaults_program vault_id nft_id)
              (codes "position" ∷ le_bytes 2 vault_id ∷ le_bytes 4 nft_id ∷ [])
              (position_lem st.nft_fits) st.position_owned,
          check_jupiter_lem (jupiter_vault_state_pda find_pda vaults_program vault_id)
              (codes "vault_state" ∷ le_bytes 2 vault_id ∷ []) state_lem st.state_owned,
          check_jupiter_lem (jupiter_vault_config_pda find_pda vaults_program vault_id)
              (codes "vault_config" ∷ le_bytes 2 vault_id ∷ []) config_lem st.config_owned,
          st.tick_owned,
          eqb_refl vaults_program,
        )
        (check_optional_owner_lem live.tick_id_liquidation st.liquidation_owned)
