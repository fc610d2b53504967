-- ===== src/Jupiter/Accounts.antt =====
-- lib/client/jupiter.ts, lines 38-141: decoding of the Jupiter Vaults accounts.
-- `view.getInt32` and the like throw past the end of the data; the length checks come first.
pub mod Decoding
use lendmirror.Common.{ℕ, ◌+◌, ◌^◌, Bool, List, [], ◌∷◌, length, get_elem?, leb}
use lendmirror.Common.Int.{ℤ}
use lendmirror.Common.Outcome.{Result, ok, err, ◌>>=◌, ◌>>◌, guard, require, map_err}
use lendmirror.Bytes.{Bytes, read_le, is_nonzero_at, of_word}

pub data DecodeError : Type 0 where
  -- the account is too small
  too_small : DecodeError
  -- an access past the end of the data
  range : DecodeError

-- `view.getUint16(offset, true)`, `getUint32`, `getBigUint64` for w = 2, 4, 8.
abbrev pub get_uint : ℕ → ℕ → Bytes → Result DecodeError ℕ
get_uint w offset data' = map_err (λ _. range) (read_le w offset data')

-- `view.getInt32(offset, true)`
abbrev pub get_int32 : ℕ → Bytes → Result DecodeError ℤ
get_int32 offset data' = do x ← get_uint 4 offset data'; ok (of_word (2 ^ 32) x)

pub record JupiterPositionFields : Type 0 where
  pub vault_id : ℕ
  pub nft_id : ℕ
  pub is_supply_only : Bool
  pub tick : ℤ
  pub tick_id : ℕ
  pub supply_amount : ℕ
  pub dust_debt_amount : ℕ

unfoldable pub decode_jupiter_position_fields : Bytes → Result DecodeError JupiterPositionFields
decode_jupiter_position_fields data' = do
  guard (leb 71 (length data')) too_small
  vault_id ← get_uint 2 8 data'
  nft_id ← get_uint 4 10 data'
  tick ← get_int32 47 data'
  tick_id ← get_uint 4 51 data'
  supply_amount ← get_uint 8 55 data'
  dust_debt_amount ← get_uint 8 63 data'
  ok (record {
    vault_id = vault_id;
    nft_id = nft_id;
    is_supply_only = is_nonzero_at 46 data';
    tick = tick;
    tick_id = tick_id;
    supply_amount = supply_amount;
    dust_debt_amount = dust_debt_amount;
  })

unfoldable pub decode_jupiter_position_tick : Bytes → Result DecodeError ℤ
decode_jupiter_position_tick data' = do
  fields ← decode_jupiter_position_fields data'
  ok fields.tick

pub record JupiterTickFields : Type 0 where
  pub tick : ℤ
  pub is_liquidated : Bool
  pub total_ids : ℕ
  pub is_fully_liquidated : Bool
  pub liquidation_branch_id : ℕ
  pub debt_factor : ℕ

unfoldable pub decode_jupiter_tick_fields : Bytes → Result DecodeError JupiterTickFields
decode_jupiter_tick_fields data' = do
  guard (leb 40 (length data')) too_small
  tick ← get_int32 10 data'
  total_ids ← get_uint 4 15 data'
  liquidation_branch_id ← get_uint 4 28 data'
  debt_factor ← get_uint 8 32 data'
  ok (record {
    tick = tick;
    is_liquidated = is_nonzero_at 14 data';
    total_ids = total_ids;
    is_fully_liquidated = is_nonzero_at 27 data';
    liquidation_branch_id = liquidation_branch_id;
    debt_factor = debt_factor;
  })

pub record JupiterBranchFields : Type 0 where
  pub branch_id : ℕ
  pub status : ℕ
  pub minima_tick : ℤ
  pub minima_tick_partials : ℕ
  pub debt_factor : ℕ
  pub connected_branch_id : ℕ

-- `status: data[14]` would be `undefined` past the end; that case is the error `range` here.
unfoldable pub decode_jupiter_branch_fields : Bytes → Result DecodeError JupiterBranchFields
decode_jupiter_branch_fields data' = do
  guard (leb 43 (length data')) too_small
  branch_id ← get_uint 4 10 data'
  status ← require (get_elem? data' 14) range
  minima_tick ← get_int32 15 data'
  minima_tick_partials ← get_uint 4 19 data'
  debt_factor ← get_uint 8 31 data'
  connected_branch_id ← get_uint 4 39 data'
  ok (record {
    branch_id = branch_id;
    status = status;
    minima_tick = minima_tick;
    minima_tick_partials = minima_tick_partials;
    debt_factor = debt_factor;
    connected_branch_id = connected_branch_id;
  })

pub record JupiterTickIdLiquidationSlot : Type 0 where
  pub is_fully_liquidated : Bool
  pub liquidation_branch_id : ℕ
  pub debt_factor : ℕ

-- One round of the loop, at its offset.
unfoldable pub decode_slot : ℕ → Bytes → Result DecodeError JupiterTickIdLiquidationSlot
decode_slot offset data' = do
  liquidation_branch_id ← get_uint 4 (offset + 1) data'
  debt_factor ← get_uint 8 (offset + 5) data'
  ok (record {
    is_fully_liquidated = is_nonzero_at offset data';
    liquidation_branch_id = liquidation_branch_id;
    debt_factor = debt_factor;
  })

-- The three rounds of the loop, at offsets 18, 31 and 44.
unfoldable pub decode_jupiter_tick_id_liquidation :
    Bytes → Result DecodeError (List JupiterTickIdLiquidationSlot)
unfolding decode_slot
decode_jupiter_tick_id_liquidation data' = do
  guard (leb 57 (length data')) too_small
  first ← decode_slot 18 data'
  second ← decode_slot (18 + 13) data'
  third ← decode_slot (18 + 13 + 13) data'
  ok (first ∷ second ∷ third ∷ [])
