-- ===== src/Snapshot/Body.antt =====
-- The body of the message as `PositionSnapshotMsgCodec` (contracts/libs), the EVM side of the format,
-- reads it.
use lendmirror.Common.{ℕ, ◌+◌, ◌-◌, ◌^◌, ◌<◌, ◌≡◌, refl, ap, ◌∙◌, [], ◌∷◌, ◌++◌, length, drop}
use lendmirror.Common.{arith, Bool, get_or, not, ◌==◌}
use lendmirror.Common.Int.{ℤ, pos, negsuc, ◌≤ℤ◌}
use lendmirror.Bytes.{
  Bytes, be_bytes, be_value, be_value-be_bytes, length-be_bytes, of_word, to_word,
}
use lendmirror.Bytes.{slice, of_word-to_word, bit}
use lendmirror.Bytes.Layout.{skip, slice_at, get_or_at}
use lendmirror.Snapshot.{PositionSnapshotFields}
use lendmirror.Jupiter.Ticks.Seeds.{IsI32, to_word-lt}

unfoldable pub be_at : ℕ → ℕ → Bytes → ℕ
be_at from to bs = be_value (slice from to bs)

-- `decodeBody`: the fields of a body of 225 bytes.
unfoldable pub decode_body : Bytes → PositionSnapshotFields
decode_body body = record {
  position = slice 0 32 body;
  vault_id = be_at 32 34 body;
  nft_id = be_at 34 38 body;
  position_mint = slice 38 70 body;
  supply_token = slice 70 102 body;
  borrow_token = slice 102 134 body;
  col_raw = be_at 134 142 body;
  debt_raw = be_at 142 150 body;
  dust_debt = be_at 150 158 body;
  net_debt = be_at 158 166 body;
  tick = of_word (2 ^ 32) (be_at 166 170 body);
  tick_id = be_at 170 174 body;
  stored_col_raw = be_at 174 182 body;
  stored_debt_raw = be_at 182 190 body;
  stored_tick = of_word (2 ^ 32) (be_at 190 194 body);
  is_supply_only = not (get_or body 194 0 == 0);
  is_liquidated = not (get_or body 195 0 == 0);
  is_fully_liquidated = not (get_or body 196 0 == 0);
  branch_id = be_at 197 201 body;
  vault_supply_exchange_price = be_at 201 209 body;
  vault_borrow_exchange_price = be_at 209 217 body;
  snapshot_time = of_word (2 ^ 64) (be_at 217 225 body);
}

-- Every number is in the range of its field.
pub record InRange (s : PositionSnapshotFields) : Type 0 where
  pub vault_id : s.vault_id < 2 ^ 16
  pub nft_id : s.nft_id < 2 ^ 32
  pub col_raw : s.col_raw < 2 ^ 64
  pub debt_raw : s.debt_raw < 2 ^ 64
  pub dust_debt : s.dust_debt < 2 ^ 64
  pub net_debt : s.net_debt < 2 ^ 64
  pub tick : IsI32 s.tick
  pub tick_id : s.tick_id < 2 ^ 32
  pub stored_col_raw : s.stored_col_raw < 2 ^ 64
  pub stored_debt_raw : s.stored_debt_raw < 2 ^ 64
  pub stored_tick : IsI32 s.stored_tick
  pub branch_id : s.branch_id < 2 ^ 32
  pub vault_supply_exchange_price : s.vault_supply_exchange_price < 2 ^ 64
  pub vault_borrow_exchange_price : s.vault_borrow_exchange_price < 2 ^ 64
  pub snapshot_time :
      (negsuc (2 ^ 63 - 1) ≤ℤ s.snapshot_time) × (s.snapshot_time ≤ℤ pos (2 ^ 63 - 1))

to_word64-lt : (z : ℤ) → to_word (2 ^ 64) z < 2 ^ 64
unfolding to_word
to_word64-lt (pos n) = omega arith
to_word64-lt (negsuc n) = omega arith

-- One field of `w` bytes at an offset, and the offset of the next.
pub word_at :
    (w offset n : ℕ) (body rest : Bytes)
    → drop offset body ≡ be_bytes w n ++ rest
    → n < 256 ^ w
    → (be_at offset (offset + w) body ≡ n) × (drop (offset + w) body ≡ rest)
unfolding be_at
word_at w offset n body rest e h = (
  rw (slice_at offset w body (be_bytes w n) rest e (length-be_bytes w n)) (be_value-be_bytes w n h),
  skip offset w body (be_bytes w n) rest e (length-be_bytes w n),
)

pub key_at :
    (offset : ℕ) (key body rest : Bytes)
    → drop offset body ≡ key ++ rest
    → length key ≡ 32
    → (slice offset (offset + 32) body ≡ key) × (drop (offset + 32) body ≡ rest)
key_at offset key body rest e h =
    (slice_at offset 32 body key rest e h, skip offset 32 body key rest e h)

pub flag_at :
    (offset : ℕ) (flag : Bool) (body rest : Bytes)
    → drop offset body ≡ bit flag ∷ rest
    → (not (get_or body offset 0 == 0) ≡ flag) × (drop (offset + 1) body ≡ rest)
flag_at offset flag body rest e = (
  rw (get_or_at offset (bit flag) body rest e) (ground arith),
  skip offset 1 body (bit flag ∷ []) rest e refl,
)

pub int_at :
    (offset : ℕ) (z : ℤ) (body rest : Bytes)
    → drop offset body ≡ be_bytes 4 (to_word (2 ^ 32) z) ++ rest
    → IsI32 z
    → (of_word (2 ^ 32) (be_at offset (offset + 4) body) ≡ z) × (drop (offset + 4) body ≡ rest)
int_at offset z body rest e h =
    let (here, later) = word_at 4 offset (to_word (2 ^ 32) z) body rest e (to_word-lt z) in
    (ap (of_word (2 ^ 32)) here ∙ of_word-to_word (2 ^ 31) z (omega arith) h.0 h.1, later)

pub time_at :
    (offset : ℕ) (z : ℤ) (body rest : Bytes)
    → drop offset body ≡ be_bytes 8 (to_word (2 ^ 64) z) ++ rest
    → (negsuc (2 ^ 63 - 1) ≤ℤ z) × (z ≤ℤ pos (2 ^ 63 - 1))
    → (of_word (2 ^ 64) (be_at offset (offset + 8) body) ≡ z) × (drop (offset + 8) body ≡ rest)
time_at offset z body rest e h =
    let (here, later) = word_at 8 offset (to_word (2 ^ 64) z) body rest e (to_word64-lt z) in
    (ap (of_word (2 ^ 64)) here ∙ of_word-to_word (2 ^ 63) z (omega arith) h.0 h.1, later)
