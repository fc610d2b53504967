-- ===== src/Jupiter/Accounts/Decoding.antt =====
-- The length checks are exactly what the reads need: each decoder is the plain reading of its fields,
-- behind one test of the length.
use lendmirror.Common.{
  ℕ, ◌+◌, ◌^◌, ◌≤◌, ◌<◌, ◌≡◌, inl, inr, Bool-cases, [], ◌∷◌, length, get_or, get_elem?, some, leb,
  arith,
}
use lendmirror.Common.{if◌then◌else◌, true, zero, suc, refl}
use lendmirror.Common.Int.{ℤ}
use lendmirror.Common.Outcome.{ok, err}
use lendmirror.Bytes.{Bytes, le_value, slice, read_le, is_nonzero_at, of_word}
use lendmirror.Jupiter.Accounts.{too_small}
use lendmirror.Jupiter.Accounts.{JupiterPositionFields, decode_jupiter_position_fields}
use lendmirror.Jupiter.Accounts.{JupiterTickFields, decode_jupiter_tick_fields}
use lendmirror.Jupiter.Accounts.{JupiterBranchFields, decode_jupiter_branch_fields}
use lendmirror.Jupiter.Accounts.{JupiterTickIdLiquidationSlot, decode_jupiter_tick_id_liquidation}

-- The number in the bytes from `from` up to `to`, lowest first.
pub uint_at : ℕ → ℕ → Bytes → ℕ
uint_at from to bs = le_value (slice from to bs)

pub int32_at : ℕ → ℕ → Bytes → ℤ
int32_at from to bs = of_word (2 ^ 32) (uint_at from to bs)

read_le_within :
    (w offset n : ℕ) (bs : Bytes)
    → leb n (length bs) ≡ true
    → offset + w ≤ n
    → read_le w offset bs ≡ ok (uint_at offset (offset + w) bs)
unfolding read_le uint_at
read_le_within w offset n bs h k = ground arith

-- The fields where the Vaults program's accounts have them.
pub position_at : Bytes → JupiterPositionFields
position_at bs = record {
  vault_id = uint_at 8 10 bs;
  nft_id = uint_at 10 14 bs;
  is_supply_only = is_nonzero_at 46 bs;
  tick = int32_at 47 51 bs;
  tick_id = uint_at 51 55 bs;
  supply_amount = uint_at 55 63 bs;
  dust_debt_amount = uint_at 63 71 bs;
}

pub tick_at : Bytes → JupiterTickFields
tick_at bs = record {
  tick = int32_at 10 14 bs;
  is_liquidated = is_nonzero_at 14 bs;
  total_ids = uint_at 15 19 bs;
  is_fully_liquidated = is_nonzero_at 27 bs;
  liquidation_branch_id = uint_at 28 32 bs;
  debt_factor = uint_at 32 40 bs;
}

pub branch_at : Bytes → JupiterBranchFields
branch_at bs = record {
  branch_id = uint_at 10 14 bs;
  status = get_or bs 14 0;
  minima_tick = int32_at 15 19 bs;
  minima_tick_partials = uint_at 19 23 bs;
  debt_factor = uint_at 31 39 bs;
  connected_branch_id = uint_at 39 43 bs;
}

pub slot_at : ℕ → Bytes → JupiterTickIdLiquidationSlot
slot_at offset bs = record {
  is_fully_liquidated = is_nonzero_at offset bs;
  liquidation_branch_id = uint_at (offset + 1) (offset + 5) bs;
  debt_factor = uint_at (offset + 5) (offset + 13) bs;
}

-- A position account is refused exactly when it is shorter than 71 bytes; otherwise every field is
-- read from its place, and no read lies past the end.
pub decode_position_lem :
    (bs : Bytes)
    → decode_jupiter_position_fields bs
      ≡ (if leb 71 (length bs) then ok (position_at bs) else err too_small)
unfolding decode_jupiter_position_fields position_at int32_at
decode_position_lem bs = elim (Bool-cases (leb 71 (length bs))) [
  | inl h ↦ rw (
    h,
    read_le_within 2 8 71 bs h (omega arith),
    read_le_within 4 10 71 bs h (omega arith),
    read_le_within 4 47 71 bs h (omega arith),
    read_le_within 4 51 71 bs h (omega arith),
    read_le_within 8 55 71 bs h (omega arith),
    read_le_within 8 63 71 bs h (omega arith),
  )
  | inr h ↦ rw h
]

-- A tick account is refused exactly when it is shorter than 40 bytes; otherwise every field is read
-- from its place, and no read lies past the end.
decode_tick_lem :
    (bs : Bytes)
    → decode_jupiter_tick_fields bs
      ≡ (if leb 40 (length bs) then ok (tick_at bs) else err too_small)
unfolding decode_jupiter_tick_fields tick_at int32_at
decode_tick_lem bs = elim (Bool-cases (leb 40 (length bs))) [
  | inl h ↦ rw (
    h,
    read_le_within 4 10 40 bs h (omega arith),
    read_le_within 4 15 40 bs h (omega arith),
    read_le_within 4 28 40 bs h (omega arith),
    read_le_within 8 32 40 bs h (omega arith),
  )
  | inr h ↦ rw h
]

get_elem?_of_le : (i n : ℕ) (bs : Bytes) → i < length bs → get_elem? bs i ≡ some (get_or bs i 0)
get_elem?_of_le i n [] h = absurd (omega arith)
get_elem?_of_le zero n (b ∷ bs) h = refl
get_elem?_of_le (suc i) n (b ∷ bs) h = get_elem?_of_le i n bs (omega arith)

get_elem?_within :
    (i n : ℕ) (bs : Bytes)
    → leb n (length bs) ≡ true
    → i < n
    → get_elem? bs i ≡ some (get_or bs i 0)
get_elem?_within i n bs h k = get_elem?_of_le i n bs (ground arith)

-- A branch account is refused exactly when it is shorter than 43 bytes; otherwise every field is read
-- from its place, and no read lies past the end.
decode_branch_lem :
    (bs : Bytes)
    → decode_jupiter_branch_fields bs
      ≡ (if leb 43 (length bs) then ok (branch_at bs) else err too_small)
unfolding decode_jupiter_branch_fields branch_at int32_at
decode_branch_lem bs = elim (Bool-cases (leb 43 (length bs))) [
  | inl h ↦ rw (
    h,
    read_le_within 4 10 43 bs h (omega arith),
    read_le_within 4 15 43 bs h (omega arith),
    read_le_within 4 19 43 bs h (omega arith),
    read_le_within 8 31 43 bs h (omega arith),
    read_le_within 4 39 43 bs h (omega arith),
    get_elem?_within 14 43 bs h (omega arith),
  )
  | inr h ↦ rw h
]

-- A liquidation account is refused exactly when it is shorter than 57 bytes; otherwise its three slots
-- are read from their places, 13 bytes apart, and no read lies past the end.
decode_tick_id_liquidation_lem :
    (bs : Bytes)
    → decode_jupiter_tick_id_liquidation bs ≡ (
        if leb 57 (length bs)
        then ok (slot_at 18 bs ∷ slot_at 31 bs ∷ slot_at 44 bs ∷ [])
        else err too_small)
unfolding decode_jupiter_tick_id_liquidation slot_at
decode_tick_id_liquidation_lem bs = elim (Bool-cases (leb 57 (length bs))) [
  | inl h ↦ rw (
    h,
    read_le_within 4 19 57 bs h (omega arith),
    read_le_within 8 23 57 bs h (omega arith),
    read_le_within 4 32 57 bs h (omega arith),
    read_le_within 8 36 57 bs h (omega arith),
    read_le_within 4 45 57 bs h (omega arith),
    read_le_within 8 49 57 bs h (omega arith),
  )
  | inr h ↦ rw h
]

-- The other three decoders refuse exactly the accounts that are too short for their last field (40
-- bytes for a tick, 43 for a branch, 57 for a liquidation record); otherwise every field is read from
-- its place, the three slots of a record 13 bytes apart.
pub decode_accounts_lem :
    (bs : Bytes)
    → (decode_jupiter_tick_fields bs
        ≡ (if leb 40 (length bs) then ok (tick_at bs) else err too_small))
      × (decode_jupiter_branch_fields bs
          ≡ (if leb 43 (length bs) then ok (branch_at bs) else err too_small))
      × (decode_jupiter_tick_id_liquidation bs ≡ (
          if leb 57 (length bs)
          then ok (slot_at 18 bs ∷ slot_at 31 bs ∷ slot_at 44 bs ∷ [])
          else err too_small))
decode_accounts_lem bs =
    (decode_tick_lem bs, decode_branch_lem bs, decode_tick_id_liquidation_lem bs)
