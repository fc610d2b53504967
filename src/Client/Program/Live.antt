-- ===== src/Client/Program/Live.antt =====
-- programs/lendmirror/src/instructions/get_jupiter_position.rs, lines 107-217 (compute_position_snapshot),
-- with liquidation_record and walk_branches of live_position.rs: from which accounts the program reads
-- a position. The amounts that it computes from them are left out.
use lendmirror.Common.{
  ℕ, zero, suc, ◌+◌, ◌/◌, ◌%◌, ◌^◌, Bool, true, false, not, ◌&&◌, ◌||◌, Option, none, some, List,
  [], ◌∷◌, ltb, ◌==◌, if◌then◌else◌,
}
use lendmirror.Common.Int.{ℤ, add_ℕ, eqb_ℤ}
use lendmirror.Common.Keys.{eqb, contains}
use lendmirror.Common.Text.{codes}
use lendmirror.Common.Outcome.{Result, ok, err, ◌>>=◌, ◌>>◌, guard, require}
use lendmirror.Bytes.{Bytes, le_bytes, to_word}
use lendmirror.Pda.{Key, FindPda}
use lendmirror.Jupiter.Ticks.{branch_merged, normalize_tick, jupiter_tick_pda_offset}
use lendmirror.Jupiter.Accounts.{
  JupiterPositionFields, JupiterTickFields, JupiterBranchFields, JupiterTickIdLiquidationSlot,
}
use lendmirror.Client.Program.{RefreshContext}

pub data LiveError : Type 0 where
  -- the decoders' own errors, and an account that is not there
  undecodable : LiveError
  position_id_mismatch tick_pda_mismatch missing_liquidation_record missing_branch_account :
      LiveError
  branch_chain_too_long invalid_jupiter_account : LiveError

pub record TickAccount : Type 0 where
  pub vault_id : ℕ
  pub fields : JupiterTickFields

pub record BranchAccount : Type 0 where
  pub vault_id : ℕ
  pub fields : JupiterBranchFields

-- What decode_position, decode_tick, decode_tick_id_liquidation and decode_branch read from an
-- account, and whether decode_vault_state_prices and decode_vault_tokens can. The program counts a
-- tick or a slot as fully liquidated if the byte is 1. `ends_at`: whether the debt factor is at its
-- maximum after a merged branch.
pub record JupiterView : Type 0 where
  pub position : Key → Option JupiterPositionFields
  pub tick : Key → Option TickAccount
  pub flushed : Key → Option (ℕ → JupiterTickIdLiquidationSlot)
  pub branch : Key → Option BranchAccount
  pub reads_prices : Key → Bool
  pub reads_tokens : Key → Bool
  pub ends_at : ℕ → Bool

pub record LiquidationRecord : Type 0 where
  pub is_fully_liquidated : Bool
  pub branch_id : ℕ

unfoldable pub liquidation_record :
    (position_tick_id : ℕ)
    → JupiterTickFields
    → Option (ℕ → JupiterTickIdLiquidationSlot)
    → LiquidationRecord
liquidation_record position_tick_id tick flushed =
    if tick.total_ids == position_tick_id
    then (record {
      is_fully_liquidated = tick.is_fully_liquidated;
      branch_id = tick.liquidation_branch_id;
    })
    else elim flushed [
      | none ↦ record { is_fully_liquidated = false; branch_id = 0 }
      | some slots ↦ record {
        is_fully_liquidated = (slots ((position_tick_id + 2) % 3)).is_fully_liquidated;
        branch_id = (slots ((position_tick_id + 2) % 3)).liquidation_branch_id;
      }
    ]

-- `tick_pda_seed` of tick_math.rs
abbrev pub seed_of_tick : ℤ → Bytes
seed_of_tick tick =
    le_bytes 4 (to_word (2 ^ 32) (add_ℕ (normalize_tick tick) jupiter_tick_pda_offset))

abbrev pub is_given : {A : Type 0} → Option A → Bool
is_given none = false
is_given (some x) = true

module _ (find_pda : FindPda) (owner : Key → Key) (view : JupiterView) (vaults_program : Key)
    (vault_id : ℕ) (remaining_accounts : List Key) where
  unfoldable pub branch_address : ℕ → Key
  branch_address branch_id =
      find_pda vaults_program (codes "branch" ∷ le_bytes 2 vault_id ∷ le_bytes 4 branch_id ∷ [])

  unfoldable pub tick_id_liquidation_address : ℤ → ℕ → Key
  tick_id_liquidation_address tick tick_id = find_pda vaults_program (
      codes "tick_id_liquidation"
      ∷ le_bytes 2 vault_id
      ∷ seed_of_tick tick
      ∷ le_bytes 4 ((tick_id + 2) / 3)
      ∷ [])

  -- The closure that `walk_branches` is given.
  unfoldable pub branch_by_id : ℕ → Result LiveError JupiterBranchFields
  branch_by_id branch_id = do
    guard (contains (branch_address branch_id) remaining_accounts) missing_branch_account
    guard (eqb (owner (branch_address branch_id)) vaults_program) invalid_jupiter_account
    decoded ← require (view.branch (branch_address branch_id)) undecodable
    guard (decoded.vault_id == vault_id && decoded.fields.branch_id == branch_id)
        invalid_jupiter_account
    ok decoded.fields

  -- The loop of `walk_branches` with `left` more branches before the chain is too long.
  unfoldable pub walk_branches : (left branch_id : ℕ) → Result LiveError (Unit {0})
  walk_branches zero branch_id = branch_by_id branch_id >>= λ branch. err branch_chain_too_long
  walk_branches (suc left) branch_id = branch_by_id branch_id >>= λ branch.
      elim (branch.status == branch_merged && not (view.ends_at branch_id)) [
        | false ↦ ok tt
        | true ↦ walk_branches left branch.connected_branch_id
      ]

  unfoldable pub read_flushed :
      JupiterPositionFields
      → Option Key
      → Result LiveError (Option (ℕ → JupiterTickIdLiquidationSlot))
  read_flushed position none = ok none
  read_flushed position (some account) = do
    guard
        (eqb account (tick_id_liquidation_address (normalize_tick position.tick) position.tick_id))
        tick_pda_mismatch
    slots ← require (view.flushed account) undecodable
    ok (some slots)

  -- MAX_BRANCH_HOPS is 32, so 33 branches may be read.
  unfoldable pub read_live :
      JupiterPositionFields → JupiterTickFields → Option Key → Result LiveError (Unit {0})
  read_live position tick tick_id_liquidation =
      if not position.is_supply_only && (tick.is_liquidated || ltb position.tick_id tick.total_ids)
      then (do
        flushed ← read_flushed position tick_id_liquidation
        guard (tick.total_ids == position.tick_id || is_given flushed) missing_liquidation_record
        let found = liquidation_record position.tick_id tick flushed in
            if found.is_fully_liquidated then ok tt else walk_branches 33 found.branch_id)
      else ok tt

  unfoldable pub compute_position_snapshot : ℕ → RefreshContext → Result LiveError (Unit {0})
  compute_position_snapshot nft_id c = do
    position ← require (view.position c.position) undecodable
    guard (position.vault_id == vault_id && position.nft_id == nft_id) position_id_mismatch
    guard
        (eqb c.tick (
          find_pda vaults_program
            (codes "tick" ∷ le_bytes 2 vault_id ∷ seed_of_tick position.tick ∷ [])))
        tick_pda_mismatch
    tick ← require (view.tick c.tick) undecodable
    guard (tick.vault_id == vault_id && eqb_ℤ tick.fields.tick (normalize_tick position.tick))
        tick_pda_mismatch
    guard (view.reads_prices c.vault_state) undecodable
    guard (view.reads_tokens c.vault_config) undecodable
    read_live position tick.fields c.tick_id_liquidation
