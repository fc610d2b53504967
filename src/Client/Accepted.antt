-- ===== src/Client/Accepted.antt =====
-- The program on chain accepts the refresh that the client builds.
use lendmirror.Common.{ℕ, ◌≡◌, refl, Option, some, List, [], ◌∷◌, inl, inr, arith}
use lendmirror.Common.{true, Bool-cases, ◌==◌, ap, map}
use lendmirror.Ix.{readonly}
use lendmirror.Common.Text.{codes}
use lendmirror.Common.Outcome.{ok}
use lendmirror.Bytes.{Bytes, le_bytes}
use lendmirror.Pda.{Key, FindPda}
use lendmirror.Jupiter.Ticks.{u16_le, u32_le}
use lendmirror.Jupiter.Accounts.{
  JupiterPositionFields, JupiterTickFields, decode_jupiter_position_fields,
  decode_jupiter_tick_fields,
}
use lendmirror.Jupiter.Addresses.{
  jupiter_position_pda, jupiter_vault_state_pda, jupiter_vault_config_pda, jupiter_tick_pda,
  tick_seeds,
}
use lendmirror.LivePosition.{LiveAccounts, collect_live_position_accounts}
use lendmirror.Client.{RefreshInput, ondemand_if_attached, refresh_input, refresh_wrapper}
use lendmirror.Jupiter.Ticks.{normalize_tick, tick_pda_seed}
use lendmirror.Common.Int.{eqb_ℤ}
use lendmirror.Client.Program.Live.{
  JupiterView, seed_of_tick, compute_position_snapshot, read_live, read_flushed,
}
use lendmirror.Client.Situation.{
  IsSituation, situation-from_tick, situation-read_live, situation_supply,
}
use lendmirror.Client.Reading.{context_of, read_refresh_context-metas}
use lendmirror.Client.Program.{
  RefreshContext, RefreshState, read_refresh_context, check_refresh_accounts,
}
use lendmirror.Instructions.Refresh.{refresh_instruction}
use lendmirror.Messages.Reading.{eqb_refl}
use lendmirror.Client.Constraints.{IsRefreshState, own_wrapper, input_of, let_lem, checked_lem}

module _ (find_pda : FindPda) (program_id : Key) (s : RefreshState)
    (get_account : Key → Option Bytes) (authority : Key) (vault_id nft_id : ℕ)
    (vaults_program : Key) (view : JupiterView) where
  -- The refresh is built; the program reads its ten accounts, with the branches behind them, no
  -- constraint fails, and nor does a check of the accounts from which it reads the position.
  pub record IsAcceptedRefresh (tick : Key) (l : Option Key) (branches : List Key) : Type 0 where
    pub input : RefreshInput
    pub built :
        refresh_wrapper find_pda program_id get_account authority vault_id nft_id vaults_program
        ≡ ok input
    pub context : RefreshContext
    pub read :
        read_refresh_context program_id (refresh_instruction program_id input).keys
        ≡ ok (context, map readonly branches)
    pub caller : context.authority ≡ authority
    pub ids : s.shared.wrapper_ids context.wrapper ≡ some (vault_id, nft_id)
    pub named : (context.tick ≡ tick) × (context.tick_id_liquidation ≡ l)
    pub checked : check_refresh_accounts find_pda program_id s context ≡ ok tt
    pub computed :
        compute_position_snapshot find_pda s.shared.owner view vaults_program vault_id branches
          nft_id context
        ≡ ok tt

  -- The position and its tick: the node answers what the program reads, and they are the wrapper's own.
  pub record IsPositionState (fields : JupiterPositionFields) (tick : JupiterTickFields)
      : Type 0 where
    pub account : Bytes
    pub there :
        get_account (jupiter_position_pda find_pda vaults_program vault_id nft_id) ≡ some account
    pub decoded : decode_jupiter_position_fields account ≡ ok fields
    pub on_chain :
        view.position (jupiter_position_pda find_pda vaults_program vault_id nft_id) ≡ some fields
    pub vault : fields.vault_id ≡ vault_id
    pub nft : fields.nft_id ≡ nft_id
    pub tick_account : Bytes
    pub tick_there :
        get_account (jupiter_tick_pda find_pda vaults_program vault_id fields.tick)
        ≡ some tick_account
    pub tick_decoded : decode_jupiter_tick_fields tick_account ≡ ok tick
    pub tick_on_chain :
        view.tick (jupiter_tick_pda find_pda vaults_program vault_id fields.tick)
        ≡ some (record { vault_id = vault_id; fields = tick })
    pub tick_named : eqb_ℤ tick.tick (normalize_tick fields.tick) ≡ true
    pub prices : view.reads_prices (jupiter_vault_state_pda find_pda vaults_program vault_id) ≡ true
    pub tokens :
        view.reads_tokens (jupiter_vault_config_pda find_pda vaults_program vault_id) ≡ true

  eq_lem : (n : ℕ) → (n == n) ≡ true
  eq_lem n = ground arith

  module _ (fields : JupiterPositionFields) (tick : JupiterTickFields) (l : Option Key)
      (branches : List Key) where
    abbrev live : LiveAccounts
    live = record { tick_id_liquidation = l; branches = branches }

    abbrev tick_key : Key
    tick_key = jupiter_tick_pda find_pda vaults_program vault_id fields.tick

    abbrev built_input : RefreshInput
    built_input =
        input_of find_pda program_id s get_account authority vault_id nft_id vaults_program tick_key
          live

    collect_lem :
        IsPositionState fields tick
        → IsSituation find_pda get_account s.shared.owner view vaults_program vault_id fields tick l
            branches
        → collect_live_position_accounts find_pda get_account vaults_program vault_id fields
          ≡ ok live
    unfolding collect_live_position_accounts
    collect_lem p h = elim (Bool-cases fields.is_supply_only) [
      | inl supply ↦ rw supply (
          ap ok (
            situation_supply find_pda get_account s.shared.owner view vaults_program vault_id fields
              tick l branches h supply))
      | inr debt ↦
          rw (debt, p.tick_there, p.tick_decoded)
            (situation-from_tick find_pda get_account s.shared.owner view vaults_program vault_id
              fields tick l branches h debt)
    ]

    tick_key_lem :
        find_pda vaults_program (codes "tick" ∷ le_bytes 2 vault_id ∷ seed_of_tick fields.tick ∷ [])
        ≡ tick_key
    unfolding jupiter_tick_pda tick_seeds u16_le u32_le tick_pda_seed
    tick_key_lem = refl

    computed_lem :
        IsPositionState fields tick
        → IsSituation find_pda get_account s.shared.owner view vaults_program vault_id fields tick l
            branches
        → compute_position_snapshot find_pda s.shared.owner view vaults_program vault_id branches
            nft_id
            (context_of (built_input))
          ≡ ok tt
    unfolding compute_position_snapshot refresh_input read_live read_flushed
    computed_lem p h =
        rw
          (
            p.on_chain,
            p.vault,
            p.nft,
            eq_lem vault_id,
            eq_lem nft_id,
            tick_key_lem,
            eqb_refl tick_key,
            p.tick_on_chain,
            eq_lem vault_id,
            p.tick_named,
            p.prices,
            p.tokens,
          )
          (situation-read_live find_pda get_account s.shared.owner view vaults_program vault_id
            fields tick l branches h)

    built_lem :
        IsPositionState fields tick
        → IsSituation find_pda get_account s.shared.owner view vaults_program vault_id fields tick l
            branches
        → refresh_wrapper find_pda program_id get_account authority vault_id nft_id vaults_program
          ≡ ok (built_input)
    unfolding refresh_wrapper
    built_lem p h = rw (p.there, p.decoded, collect_lem p h) refl

    read_lem :
        IsRefreshState find_pda program_id s get_account authority vault_id nft_id vaults_program
          tick_key l
        → read_refresh_context program_id (refresh_instruction program_id (built_input)).keys
          ≡ ok (context_of (built_input), map readonly branches)
    unfolding refresh_input refresh_instruction
    read_lem st =
        read_refresh_context-metas program_id built_input
          (ondemand_if_attached find_pda program_id get_account (
            own_wrapper find_pda program_id s get_account authority vault_id nft_id vaults_program))
          l refl refl
          (let_lem find_pda program_id s get_account authority vault_id nft_id vaults_program
            tick_key l st).other
          st.liquidation_other

    -- If the chain holds the wrapper and Jupiter's accounts, and the caller may refresh
    -- (IsRefreshState), the node answers of the position and its tick what the program reads
    -- (IsPositionState), and the position is not liquidated, is wiped out, or has its debt on a
    -- chain of at most 32 branches (IsSituation), then the refresh is built, and the program on
    -- chain reads its ten accounts in its own order, the wrapper writable and the caller signing,
    -- with exactly the branches of that chain behind them. None of the constraints on the accounts
    -- fails, and the program finds the tick, the record of the liquidation and every branch that it
    -- looks for. The amounts that it computes from them are not part of this.
    pub refresh_wrapper-IsAccepted :
        IsRefreshState find_pda program_id s get_account authority vault_id nft_id vaults_program
          tick_key l
        → IsPositionState fields tick
        → IsSituation find_pda get_account s.shared.owner view vaults_program vault_id fields tick l
            branches
        → IsAcceptedRefresh tick_key l branches
    unfolding refresh_input
    refresh_wrapper-IsAccepted st p h = record {
      input = built_input;
      built = built_lem p h;
      context = context_of (built_input);
      read = read_lem st;
      caller = refl;
      ids = st.wrapper_there;
      named = (refl, refl);
      checked =
          checked_lem find_pda program_id s get_account authority vault_id nft_id vaults_program
            tick_key live st;
      computed = computed_lem p h;
    }
