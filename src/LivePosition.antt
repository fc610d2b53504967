-- ===== src/LivePosition.antt =====
-- lib/client/lendmirror.ts, lines 127-190: the liquidation accounts of a position, and the chain of
-- branches that the program will walk. `get_account` is what the RPC node answers: the data of an
-- account, or none where it does not exist.
pub mod Walk
pub mod Cases
pub mod Chain
use lendmirror.Common.{ℕ, zero, suc, ◌+◌, Bool, true, false, not, ◌||◌, Option, none, some}
use lendmirror.Common.{List, [], ◌∷◌, ◌++◌, ltb, ◌==◌, if◌then◌else◌, get_elem?}
use lendmirror.Common.Int.{ℤ}
use lendmirror.Common.Keys.{contains}
use lendmirror.Common.Outcome.{Result, ok, err, ◌>>=◌, ◌>>◌, require}
use lendmirror.Bytes.{Bytes}
use lendmirror.Pda.{Key, FindPda}
use lendmirror.Jupiter.Ticks.{branch_merged, normalize_tick, liquidation_slot_index}
use lendmirror.Jupiter.Accounts.{
  DecodeError, range, JupiterPositionFields, JupiterTickFields, JupiterBranchFields,
  decode_jupiter_tick_fields, decode_jupiter_branch_fields, decode_jupiter_tick_id_liquidation,
}
use lendmirror.Jupiter.Addresses.{
  jupiter_tick_pda, jupiter_branch_pda, jupiter_tick_id_liquidation_pda,
}

pub record LiveAccounts : Type 0 where
  pub tick_id_liquidation : Option Key
  pub branches : List Key

abbrev pub nothing : LiveAccounts
nothing = record { tick_id_liquidation = none; branches = [] }

pub data Hop : Type 0 where
  missing final : Hop
  merged : ℕ → Hop

-- Where the walk over the branches begins.
pub record Start : Type 0 where
  pub tick_id_liquidation : Option Key
  pub is_fully_liquidated : Bool
  pub branch_id : ℕ

-- A branch's account: missing, the end of the chain, or merged into another branch.
unfoldable pub read_branch : (Key → Option Bytes) → Key → Result DecodeError Hop
read_branch get_account branch_pda = elim (get_account branch_pda) [
  | none ↦ ok missing
  | some account ↦ do
    decoded ← decode_jupiter_branch_fields account
    ok (if decoded.status == branch_merged then merged decoded.connected_branch_id else final)
]

module _ (find_pda : FindPda) (get_account : Key → Option Bytes) (vaults_program : Key)
    (vault_id : ℕ) where
  -- The loop over at most `hops` more branches; `next` is the id to read.
  unfoldable pub walk : ℕ → ℕ → List Key → Result DecodeError (List Key)
  walk zero next branches = ok branches
  walk (suc hops) next branches =
      let branch_pda = jupiter_branch_pda find_pda vaults_program vault_id next in
      if contains branch_pda branches
      then ok branches
      else (read_branch get_account branch_pda >>= λ hop. elim hop [
        | missing ↦ ok branches
        | final ↦ ok (branches ++ (branch_pda ∷ []))
        | merged id ↦ walk hops id (branches ++ (branch_pda ∷ []))
      ])

  -- The tick's own record, unless a newer id of the tick holds it, in a liquidation account.
  unfoldable pub find_start : JupiterPositionFields → JupiterTickFields → Result DecodeError Start
  find_start position tick =
      let on_tick : Start = record {
        tick_id_liquidation = none;
        is_fully_liquidated = tick.is_fully_liquidated;
        branch_id = tick.liquidation_branch_id;
      } in
      if tick.total_ids == position.tick_id
      then ok on_tick
      else let liq =
          jupiter_tick_id_liquidation_pda find_pda vaults_program vault_id
            (normalize_tick position.tick) position.tick_id in
        elim (get_account liq) [
          | none ↦ ok on_tick
          | some account ↦ do
            slots ← decode_jupiter_tick_id_liquidation account
            slot ← require (get_elem? slots (liquidation_slot_index position.tick_id)) range
            ok (record {
              tick_id_liquidation = some liq;
              is_fully_liquidated = slot.is_fully_liquidated;
              branch_id = slot.liquidation_branch_id;
            })
        ]

  -- The branches, unless nothing of the debt is left.
  unfoldable pub walk_from : Start → Result DecodeError LiveAccounts
  walk_from start =
      if start.is_fully_liquidated
      then ok (record { tick_id_liquidation = start.tick_id_liquidation; branches = [] })
      else (do
        branches ← walk 32 start.branch_id []
        ok (record { tick_id_liquidation = start.tick_id_liquidation; branches = branches }))

  -- A position is touched by a liquidation if its tick was, or if the tick was used again since.
  unfoldable pub from_tick :
      JupiterPositionFields → JupiterTickFields → Result DecodeError LiveAccounts
  unfolding find_start walk_from
  from_tick position tick =
      if tick.is_liquidated || ltb position.tick_id tick.total_ids
      then (find_start position tick >>= walk_from)
      else ok nothing

  unfoldable pub collect_live_position_accounts :
      JupiterPositionFields → Result DecodeError LiveAccounts
  unfolding from_tick
  collect_live_position_accounts position =
      if position.is_supply_only
      then ok nothing
      else elim (get_account (jupiter_tick_pda find_pda vaults_program vault_id position.tick)) [
        | none ↦ ok nothing
        | some account ↦ decode_jupiter_tick_fields account >>= from_tick position
      ]
