-- ===== src/Client.antt =====
-- lib/client/lendmirror.ts, lines 249-493: what the LendMirror class gives to the instructions that
-- keep a position's wrapper. `ata owner mint program` is the associated token account.
pub mod Custody
pub mod Program
pub mod Reading
pub mod Refresh
pub mod Live
pub mod Situation
pub mod Constraints
pub mod Accepted
use lendmirror.Common.{ℕ, Bool, true, false, Option, none, some, List, [], ◌∷◌, map, if◌then◌else◌}
use lendmirror.Common.Keys.{eqb}
use lendmirror.Common.Outcome.{Result, ok, err, ◌>>=◌, require, map_err}
use lendmirror.Bytes.{Bytes}
use lendmirror.Pda.{Key, FindPda}
use lendmirror.Pda.Lendmirror.{oapp, wrapper, wrapper_authority, ondemand, jup_position}
use lendmirror.Jupiter.Accounts.{DecodeError, decode_jupiter_position_fields}
use lendmirror.Jupiter.Addresses.{
  jupiter_position_pda, jupiter_position_mint_pda, jupiter_vault_state_pda,
  jupiter_vault_config_pda, jupiter_tick_pda,
}
use lendmirror.LivePosition.{LiveAccounts, collect_live_position_accounts}
use lendmirror.Ix.{AccountMeta, readonly}
use lendmirror.Known.{token_program, associated_token_program}

pub data ClientError : Type 0 where
  -- `No Jupiter position for vault … nft …`
  no_position : ClientError
  decoding : DecodeError → ClientError

pub record PositionWrapper : Type 0 where
  pub public_key : Key
  pub vault_id : ℕ
  pub nft_id : ℕ

pub record DepositNftInput : Type 0 where
  pub authority : Key
  pub store : Key
  pub wrapper : Key
  pub wrapper_authority : Key
  pub vaults_program : Key
  pub position_mint : Key
  pub source_nft_ata : Key
  pub wrapper_nft_ata : Key
  pub token_program : Key
  pub associated_token_program : Key

pub record ReleaseNftInput : Type 0 where
  pub admin : Key
  pub store : Key
  pub wrapper : Key
  pub wrapper_authority : Key
  pub owner : Key
  pub position_mint : Key
  pub wrapper_nft_ata : Key
  pub owner_nft_ata : Key
  pub token_program : Key
  pub associated_token_program : Key

-- What `refresh_wrapper` is given, with its remaining accounts.
pub record RefreshInput : Type 0 where
  pub authority : Key
  pub store : Key
  pub wrapper : Key
  pub vaults_program : Key
  pub position : Key
  pub vault_state : Key
  pub vault_config : Key
  pub tick : Key
  pub tick_id_liquidation : Option Key
  pub ondemand : Option Key
  pub remaining : List AccountMeta

-- What `get_jupiter_position` is given, with its remaining accounts.
pub record GetPositionInput : Type 0 where
  pub authority : Key
  pub payer : Key
  pub store : Key
  pub vaults_program : Key
  pub position : Key
  pub vault_state : Key
  pub vault_config : Key
  pub tick : Key
  pub tick_id_liquidation : Option Key
  pub position_store : Key
  pub vault_id : ℕ
  pub nft_id : ℕ
  pub remaining : List AccountMeta

module _ (find_pda : FindPda) (program_id : Key) where
  -- `listWrappers`, of all accounts with the wrapper's tag.
  unfoldable pub list_wrappers : List PositionWrapper → List PositionWrapper
  list_wrappers [] = []
  list_wrappers (w ∷ ws) =
      let rest = list_wrappers ws in
      if eqb w.public_key (wrapper find_pda program_id w.vault_id w.nft_id) then w ∷ rest else rest

  module _ (ata : Key → Key → Key → Key) where
    unfoldable pub deposit_position_nft :
        (authority : Key) → (vault_id nft_id : ℕ) → (vaults_program : Key) → DepositNftInput
    deposit_position_nft authority vault_id nft_id vaults_program =
        let w = wrapper find_pda program_id vault_id nft_id in
        let w_authority = wrapper_authority find_pda program_id w in
        let position_mint = jupiter_position_mint_pda find_pda vaults_program vault_id nft_id in
        record {
          authority = authority;
          store = oapp find_pda program_id;
          wrapper = w;
          wrapper_authority = w_authority;
          vaults_program = vaults_program;
          position_mint = position_mint;
          source_nft_ata = ata authority position_mint token_program;
          wrapper_nft_ata = ata w_authority position_mint token_program;
          token_program = token_program;
          associated_token_program = associated_token_program;
        }

    unfoldable pub release_position_nft :
        (admin : Key) → (vault_id nft_id : ℕ) → (owner position_mint : Key) → ReleaseNftInput
    release_position_nft admin vault_id nft_id owner position_mint =
        let w = wrapper find_pda program_id vault_id nft_id in
        let w_authority = wrapper_authority find_pda program_id w in
        record {
          admin = admin;
          store = oapp find_pda program_id;
          wrapper = w;
          wrapper_authority = w_authority;
          owner = owner;
          position_mint = position_mint;
          wrapper_nft_ata = ata w_authority position_mint token_program;
          owner_nft_ata = ata owner position_mint token_program;
          token_program = token_program;
          associated_token_program = associated_token_program;
        }

  module _ (get_account : Key → Option Bytes) where
    unfoldable pub ondemand_if_attached : Key → Option Key
    ondemand_if_attached w =
        let key = ondemand find_pda program_id w in
        elim (get_account key) [ none ↦ none | some account ↦ some key ]

    unfoldable pub refresh_input :
        (authority : Key)
        → (vault_id nft_id : ℕ) → (vaults_program tick : Key) → LiveAccounts
        → RefreshInput
    refresh_input authority vault_id nft_id vaults_program tick live =
        let w = wrapper find_pda program_id vault_id nft_id in
        record {
          authority = authority;
          store = oapp find_pda program_id;
          wrapper = w;
          vaults_program = vaults_program;
          position = jupiter_position_pda find_pda vaults_program vault_id nft_id;
          vault_state = jupiter_vault_state_pda find_pda vaults_program vault_id;
          vault_config = jupiter_vault_config_pda find_pda vaults_program vault_id;
          tick = tick;
          tick_id_liquidation = live.tick_id_liquidation;
          ondemand = ondemand_if_attached w;
          remaining = map readonly live.branches;
        }

    unfoldable pub refresh_wrapper :
        (authority : Key)
        → (vault_id nft_id : ℕ) → (vaults_program : Key) → Result ClientError RefreshInput
    refresh_wrapper authority vault_id nft_id vaults_program = do
      account ←
          require (get_account (jupiter_position_pda find_pda vaults_program vault_id nft_id))
            no_position
      fields ← map_err decoding (decode_jupiter_position_fields account)
      live ←
          map_err decoding
            (collect_live_position_accounts find_pda get_account vaults_program vault_id fields)
      ok (
          refresh_input authority vault_id nft_id vaults_program
            (jupiter_tick_pda find_pda vaults_program vault_id fields.tick) live)

    unfoldable pub get_position_input :
        (authority payer : Key)
        → (vault_id nft_id : ℕ) → (vaults_program tick : Key) → LiveAccounts
        → GetPositionInput
    get_position_input authority payer vault_id nft_id vaults_program tick live = record {
      authority = authority;
      payer = payer;
      store = oapp find_pda program_id;
      vaults_program = vaults_program;
      position = jupiter_position_pda find_pda vaults_program vault_id nft_id;
      vault_state = jupiter_vault_state_pda find_pda vaults_program vault_id;
      vault_config = jupiter_vault_config_pda find_pda vaults_program vault_id;
      tick = tick;
      tick_id_liquidation = live.tick_id_liquidation;
      position_store = jup_position find_pda program_id vault_id nft_id;
      vault_id = vault_id;
      nft_id = nft_id;
      remaining = map readonly live.branches;
    }

    -- The payer is the authority unless another is given.
    unfoldable pub get_jupiter_position :
        (authority : Key)
        → (vault_id nft_id : ℕ) → (vaults_program : Key) → (payer : Option Key)
        → Result ClientError GetPositionInput
    get_jupiter_position authority vault_id nft_id vaults_program payer = do
      account ←
          require (get_account (jupiter_position_pda find_pda vaults_program vault_id nft_id))
            no_position
      fields ← map_err decoding (decode_jupiter_position_fields account)
      live ←
          map_err decoding
            (collect_live_position_accounts find_pda get_account vaults_program vault_id fields)
      ok (
          get_position_input authority (elim payer [ none ↦ authority | some p ↦ p ]) vault_id
            nft_id vaults_program (jupiter_tick_pda find_pda vaults_program vault_id fields.tick)
            live)
