-- ===== src/Snapshot/Layout.antt =====
-- Where the encoder puts each field, and what it refuses.
use lendmirror.Common.{◌≡◌, refl, ◌++◌, length, length-append, arith}
use lendmirror.Common.{Option, none, some, Option-cases, inl, inr, ◌==◌, if◌then◌else◌}
use lendmirror.Common.Outcome.{ok, err}
use lendmirror.Bytes.{Bytes, length-be_bytes, zeros}
use lendmirror.Bytes.Writes.{write_all-Contiguous, pieces, Contiguous}
use lendmirror.Snapshot.{PositionSnapshotFields, must_be_32_bytes, KeyField}
use lendmirror.Snapshot.{position, position_mint, supply_token, borrow_token}
use lendmirror.Snapshot.{snapshot_writes, encode_position_snapshot}

-- The four keys have 32 bytes.
pub record HasKeys (s : PositionSnapshotFields) : Type 0 where
  pub position : length s.position ≡ 32
  pub position_mint : length s.position_mint ≡ 32
  pub supply_token : length s.supply_token ≡ 32
  pub borrow_token : length s.borrow_token ≡ 32

snapshot_writes-Contiguous :
    (s : PositionSnapshotFields) → HasKeys s → Contiguous 28 (snapshot_writes s)
unfolding snapshot_writes
snapshot_writes-Contiguous s h = omega (arith, length-be_bytes)

pub length-pieces :
    (s : PositionSnapshotFields) → HasKeys s → 229 ≡ length (pieces (snapshot_writes s))
unfolding snapshot_writes
length-pieces s h = simp (length-append, length-be_bytes) (omega arith)

-- The first key that does not have 32 bytes.
pub first_bad_key : PositionSnapshotFields → Option KeyField
first_bad_key s =
    if length s.position == 32
    then if length s.position_mint == 32
      then if length s.supply_token == 32
        then if length s.borrow_token == 32 then none else some borrow_token
        else some supply_token
      else some position_mint
    else some position

-- The message: 28 zeros, the length of the body, and the fields one behind the other.
unfoldable pub layout : PositionSnapshotFields → Bytes
layout s = zeros 28 ++ pieces (snapshot_writes s)

pub encode_lem :
    (s : PositionSnapshotFields) → HasKeys s → encode_position_snapshot s ≡ ok (layout s)
unfolding encode_position_snapshot layout
encode_lem s h =
    rw
      (
        h.position,
        h.position_mint,
        h.supply_token,
        h.borrow_token,
        write_all-Contiguous (snapshot_writes s) (zeros 28) 229 (snapshot_writes-Contiguous s h)
            (length-pieces s h),
      )
      refl

HasKeys-of_first_bad_key : (s : PositionSnapshotFields) → first_bad_key s ≡ none → HasKeys s
unfolding first_bad_key
HasKeys-of_first_bad_key s e = ground arith

refused :
    (s : PositionSnapshotFields) (k : KeyField)
    → first_bad_key s ≡ some k
    → encode_position_snapshot s ≡ err (must_be_32_bytes k)
unfolding encode_position_snapshot first_bad_key
refused s k e = ground arith

-- Encoding fails exactly when a key does not have 32 bytes, and names the first such key in the
-- order position, position mint, supply token, borrow token. Otherwise it returns the whole
-- message: no write lies outside the buffer.
pub encode_cases :
    (s : PositionSnapshotFields)
    → encode_position_snapshot s
      ≡ elim (first_bad_key s) [ none ↦ ok (layout s) | some k ↦ err (must_be_32_bytes k) ]
encode_cases s = elim (Option-cases (first_bad_key s)) [
  | inl good ↦ rw good (encode_lem s (HasKeys-of_first_bad_key s good))
  | inr (k, bad) ↦ rw bad (refused s k bad)
]
