-- ===== src/Client/Refresh.antt =====
-- The two instructions that read a position live.
use lendmirror.Common.{
  ℕ, ◌≡◌, refl, sym, ◌∙◌, Option, none, some, List, map, Option-cases, inl, inr, arith,
}
use mathlib.Core.Path.{subst}
use lendmirror.Common.Outcome.{ok, Result-cases, ok-injective}
use lendmirror.Bytes.{Bytes}
use lendmirror.Pda.{Key, FindPda}
use lendmirror.Jupiter.Accounts.{JupiterPositionFields, decode_jupiter_position_fields}
use lendmirror.Jupiter.Addresses.{jupiter_position_pda, jupiter_tick_pda}
use lendmirror.Ix.{AccountMeta, readonly}
use lendmirror.LivePosition.{LiveAccounts, collect_live_position_accounts}
use lendmirror.LivePosition.Cases.{IsLive, collect-IsLive}
use lendmirror.Client.{
  RefreshInput, GetPositionInput, refresh_input, get_position_input, refresh_wrapper,
  get_jupiter_position,
}

module _ (find_pda : FindPda) (program_id : Key) (get_account : Key → Option Bytes)
    (authority : Key) (vault_id nft_id : ℕ) (vaults_program : Key) where
  -- What the program can walk: the remaining accounts are the live branches, readable only, all
  -- existing and different, and the tick is that of the position's own account.
  pub record IsReadable (tick : Key) (tick_id_liquidation : Option Key)
      (remaining : List AccountMeta) : Type 0 where
    pub account : Bytes
    pub fields : JupiterPositionFields
    pub live : LiveAccounts
    pub there :
        get_account (jupiter_position_pda find_pda vaults_program vault_id nft_id) ≡ some account
    pub decoded : decode_jupiter_position_fields account ≡ ok fields
    pub tick_is : tick ≡ jupiter_tick_pda find_pda vaults_program vault_id fields.tick
    pub liquidation_is : tick_id_liquidation ≡ live.tick_id_liquidation
    pub remaining_are : remaining ≡ map readonly live.branches
    pub is_live : IsLive find_pda get_account vaults_program vault_id live

  -- Both instructions, on the same accounts of the position.
  pub record IsRefresh (input : RefreshInput) (payer : Option Key) : Type 0 where
    pub readable : IsReadable input.tick input.tick_id_liquidation input.remaining
    pub other : GetPositionInput
    pub built :
        get_jupiter_position find_pda program_id get_account authority vault_id nft_id
          vaults_program payer
        ≡ ok other
    pub same_position : other.position ≡ input.position
    pub same_tick : other.tick ≡ input.tick
    pub same_liquidation : other.tick_id_liquidation ≡ input.tick_id_liquidation
    pub same_remaining : other.remaining ≡ input.remaining

  module _ (account : Bytes) (fields : JupiterPositionFields) (live : LiveAccounts)
      (t : get_account (jupiter_position_pda find_pda vaults_program vault_id nft_id)
        ≡ some account)
      (d : decode_jupiter_position_fields account ≡ ok fields)
      (c : collect_live_position_accounts find_pda get_account vaults_program vault_id fields
        ≡ ok live) where
    refreshed : RefreshInput
    refreshed =
        refresh_input find_pda program_id get_account authority vault_id nft_id vaults_program
          (jupiter_tick_pda find_pda vaults_program vault_id fields.tick) live

    refresh_lem :
        refresh_wrapper find_pda program_id get_account authority vault_id nft_id vaults_program
        ≡ ok refreshed
    unfolding refresh_wrapper refreshed
    refresh_lem = rw (t, d, c) refl

    refreshed-IsRefresh : (payer : Option Key) → IsRefresh refreshed payer
    unfolding refreshed refresh_input get_jupiter_position get_position_input
    refreshed-IsRefresh payer = record {
      readable = record {
        account = account;
        fields = fields;
        live = live;
        there = t;
        decoded = d;
        tick_is = refl;
        liquidation_is = refl;
        remaining_are = refl;
        is_live = collect-IsLive find_pda get_account vaults_program vault_id fields live c;
      };
      other =
          get_position_input find_pda program_id get_account authority
            (elim payer [ none ↦ authority | some p ↦ p ]) vault_id nft_id vaults_program
            (jupiter_tick_pda find_pda vaults_program vault_id fields.tick) live;
      built = rw (t, d, c) refl;
      same_position = refl;
      same_tick = refl;
      same_liquidation = refl;
      same_remaining = refl;
    }

  -- If the refresh of a wrapper is built, then its accounts are those of the position as it is on
  -- chain, and the instruction that reads the position is built too, on the same accounts.
  pub refresh_wrapper-IsRefresh :
      (input : RefreshInput) (payer : Option Key)
      → refresh_wrapper find_pda program_id get_account authority vault_id nft_id vaults_program
        ≡ ok input
      → IsRefresh input payer
  unfolding refresh_wrapper
  refresh_wrapper-IsRefresh input payer e =
      elim (Option-cases
        (get_account (jupiter_position_pda find_pda vaults_program vault_id nft_id))) [
          | inl gone ↦ ground arith
          | inr (account, t) ↦ elim (Result-cases (decode_jupiter_position_fields account)) [
            | inr (x, failed) ↦ ground arith
            | inl (fields, d) ↦
                elim (Result-cases (
                  collect_live_position_accounts find_pda get_account vaults_program vault_id
                    fields)) [
                      | inr (x, failed) ↦ ground arith
                      | inl (live, c) ↦
                          subst (λ i. IsRefresh i payer)
                            (ok-injective (sym (refresh_lem account fields live t d c) ∙ e))
                            (refreshed-IsRefresh account fields live t d c payer)
                    ]
          ]
        ]
