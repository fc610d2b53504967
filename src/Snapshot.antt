-- ===== src/Snapshot.antt =====
-- lib/client/lendmirror.ts, lines 60-125: the position snapshot as a message.
pub mod Layout
pub mod Body
pub mod RoundTrip
use lendmirror.Common.{ℕ, ◌+◌, ◌^◌, Bool, List, [], ◌∷◌, length, ◌==◌}
use lendmirror.Common.Int.{ℤ}
use lendmirror.Common.Outcome.{Result, ok, err, ◌>>=◌, ◌>>◌, guard, map_err}
use lendmirror.Bytes.{Bytes, be_bytes, to_word, bit, zeros}
use lendmirror.Bytes.Writes.{Write, write_all}

abbrev pub position_snapshot_body_len : ℕ
position_snapshot_body_len = 225

pub record PositionSnapshotFields : Type 0 where
  pub position : Bytes
  pub vault_id : ℕ
  pub nft_id : ℕ
  pub position_mint : Bytes
  pub supply_token : Bytes
  pub borrow_token : Bytes
  pub col_raw : ℕ
  pub debt_raw : ℕ
  pub dust_debt : ℕ
  pub net_debt : ℕ
  pub tick : ℤ
  pub tick_id : ℕ
  pub stored_col_raw : ℕ
  pub stored_debt_raw : ℕ
  pub stored_tick : ℤ
  pub is_supply_only : Bool
  pub is_liquidated : Bool
  pub is_fully_liquidated : Bool
  pub branch_id : ℕ
  pub vault_supply_exchange_price : ℕ
  pub vault_borrow_exchange_price : ℕ
  pub snapshot_time : ℤ

pub data KeyField : Type 0 where
  position position_mint supply_token borrow_token : KeyField

pub data SnapshotError : Type 0 where
  -- `<name> must be 32 bytes`
  must_be_32_bytes : KeyField → SnapshotError
  -- a write past the end of the buffer
  range : SnapshotError

unfoldable pub require32 : KeyField → Bytes → Result SnapshotError (Unit {0})
require32 name bytes = guard (length bytes == 32) (must_be_32_bytes name)

-- The setters of `DataView` write the highest byte first unless told otherwise.
unfoldable pub snapshot_writes : PositionSnapshotFields → List Write
snapshot_writes snap =
    (28, be_bytes 4 position_snapshot_body_len)
    ∷ (32, snap.position)
    ∷ (64, be_bytes 2 snap.vault_id)
    ∷ (66, be_bytes 4 snap.nft_id)
    ∷ (70, snap.position_mint)
    ∷ (102, snap.supply_token)
    ∷ (134, snap.borrow_token)
    ∷ (166, be_bytes 8 snap.col_raw)
    ∷ (174, be_bytes 8 snap.debt_raw)
    ∷ (182, be_bytes 8 snap.dust_debt)
    ∷ (190, be_bytes 8 snap.net_debt)
    ∷ (198, be_bytes 4 (to_word (2 ^ 32) snap.tick))
    ∷ (202, be_bytes 4 snap.tick_id)
    ∷ (206, be_bytes 8 snap.stored_col_raw)
    ∷ (214, be_bytes 8 snap.stored_debt_raw)
    ∷ (222, be_bytes 4 (to_word (2 ^ 32) snap.stored_tick))
    ∷ (226, bit snap.is_supply_only ∷ [])
    ∷ (227, bit snap.is_liquidated ∷ [])
    ∷ (228, bit snap.is_fully_liquidated ∷ [])
    ∷ (229, be_bytes 4 snap.branch_id)
    ∷ (233, be_bytes 8 snap.vault_supply_exchange_price)
    ∷ (241, be_bytes 8 snap.vault_borrow_exchange_price)
    ∷ (249, be_bytes 8 (to_word (2 ^ 64) snap.snapshot_time))
    ∷ []

unfoldable pub encode_position_snapshot : PositionSnapshotFields → Result SnapshotError Bytes
unfolding snapshot_writes require32
encode_position_snapshot snap = do
  require32 position snap.position
  require32 position_mint snap.position_mint
  require32 supply_token snap.supply_token
  require32 borrow_token snap.borrow_token
  map_err (λ _. range) (write_all (snapshot_writes snap) (zeros (32 + position_snapshot_body_len)))
