-- ===== src/Bytes/Cells.antt =====
-- Words in bytes, and reads and writes at an offset.
use lendmirror.Common.{ℕ, zero, suc, ◌+◌, ◌-◌, ◌*◌, ◌/◌, ◌%◌, ◌^◌, ◌<◌}
use lendmirror.Common.{
  Bool, true, not, none, some, get_elem?, ◌==◌, List, [], ◌∷◌, ◌++◌, take, drop, length, replicate,
}
use lendmirror.Common.{ltb, leb, if◌then◌else◌}
use lendmirror.Common.Int.{ℤ, pos, negsuc}
use lendmirror.Common.Outcome.{Result, ok, err}
use mathlib.Core.List.{reverse}

abbrev pub Bytes : Type 0
Bytes = List ℕ

abbrev pub IsByte : ℕ → Type 0
IsByte b = b < 256

-- The low `w` bytes of `n`, lowest first and highest first. Higher bytes are dropped, as the
-- setters of `DataView` do.
unfoldable pub le_bytes : ℕ → ℕ → Bytes
le_bytes zero n = []
le_bytes (suc w) n = (n % 256) ∷ le_bytes w (n / 256)

unfoldable pub be_bytes : ℕ → ℕ → Bytes
be_bytes w n = reverse (le_bytes w n)

unfoldable pub le_value : Bytes → ℕ
le_value [] = 0
le_value (b ∷ bs) = b + 256 * le_value bs

unfoldable pub be_value : Bytes → ℕ
be_value bs = le_value (reverse bs)

-- A signed number as a word of modulus `m` (two's complement), and back.
unfoldable pub to_word : ℕ → ℤ → ℕ
to_word m (pos n) = n % m
to_word m (negsuc n) = m - 1 - n % m

unfoldable pub of_word : ℕ → ℕ → ℤ
of_word m x = if ltb x (m / 2) then pos x else negsuc (m - 1 - x)

abbrev pub zeros : ℕ → Bytes
zeros n = replicate n 0

-- `new Uint8Array(…).subarray(from, to)`
abbrev pub slice : ℕ → ℕ → Bytes → Bytes
slice from to bs = take (to - from) (drop from bs)

-- What an access out of range throws.
pub data RangeError : Type 0 where
  out_of_range : RangeError

-- `view.getUint…(offset, true)` over `w` bytes.
unfoldable pub read_le : ℕ → ℕ → Bytes → Result RangeError ℕ
read_le w offset bs =
    if leb (offset + w) (length bs)
    then ok (le_value (slice offset (offset + w) bs))
    else err out_of_range

-- `view.getUint…(offset)` over `w` bytes, highest first.
unfoldable pub read_be : ℕ → ℕ → Bytes → Result RangeError ℕ
read_be w offset bs =
    if leb (offset + w) (length bs)
    then ok (be_value (slice offset (offset + w) bs))
    else err out_of_range

-- `data[i] !== 0`, which holds of the `undefined` that a read past the end gives.
unfoldable pub is_nonzero_at : ℕ → Bytes → Bool
is_nonzero_at i bs = elim (get_elem? bs i) [ none ↦ true | some b ↦ not (b == 0) ]

-- `out.set(src, offset)`
unfoldable pub write_at : ℕ → Bytes → Bytes → Result RangeError Bytes
write_at offset src out =
    if leb (offset + length src) (length out)
    then ok (take offset out ++ (src ++ drop (offset + length src) out))
    else err out_of_range

-- `writeBigUInt64LE`, `writeUInt32LE` and their kin refuse a number that does not fit.
unfoldable pub checked_le : ℕ → ℕ → Result RangeError Bytes
checked_le w n = if ltb n (256 ^ w) then ok (le_bytes w n) else err out_of_range

unfoldable pub checked_be : ℕ → ℕ → Result RangeError Bytes
checked_be w n = if ltb n (256 ^ w) then ok (be_bytes w n) else err out_of_range

abbrev pub bit : Bool → ℕ
bit b = if b then 1 else 0
