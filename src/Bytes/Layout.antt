-- ===== src/Bytes/Layout.antt =====
-- Reads in a byte array that is laid out as a row of pieces. `drop offset bs ≡ piece ++ rest` says
-- that the piece stands at the offset.
use lendmirror.Common.{ℕ, zero, suc, ◌+◌, ◌-◌, ◌^◌, ◌≤◌, ◌<◌, ◌≡◌, refl, sym, ap, ◌∙◌, arith}
use lendmirror.Common.{Bool, true, leb, [], ◌∷◌, ◌++◌, drop, length, some}
use lendmirror.Common.{get_elem?, get_or, take-append, drop-append, length-append, length-drop}
use lendmirror.Common.Outcome.{ok}
use lendmirror.Bytes.Cells.{Bytes, le_bytes, be_bytes, le_value, bit, slice}
use lendmirror.Bytes.Cells.{read_le, read_be, is_nonzero_at}
use lendmirror.Bytes.Laws.{length-le_bytes, length-be_bytes, le_value-le_bytes, be_value-be_bytes}
use Prim.Native.Nat.add

drop-drop : (i k : ℕ) (bs : Bytes) → drop (i + k) bs ≡ drop k (drop i bs)
drop-drop zero k bs = rw (add.zero k) refl
drop-drop (suc i) zero [] = rw (add.suc i 0) refl
drop-drop (suc i) (suc k) [] = rw (add.suc i (suc k)) refl
drop-drop (suc i) k (b ∷ bs) = rw (add.suc i k) (drop-drop i k bs)

-- The piece behind one of `k` bytes.
pub skip :
    (offset k : ℕ) (bs piece rest : Bytes)
    → drop offset bs ≡ piece ++ rest
    → length piece ≡ k
    → drop (offset + k) bs ≡ rest
skip offset k bs piece rest e n = rw (drop-drop offset k bs, e, ← n) (drop-append piece rest)

-- A piece that is there lies within the array.
pub piece_fits :
    (offset w : ℕ) (bs piece rest : Bytes)
    → drop offset bs ≡ piece ++ rest
    → length piece ≡ w
    → 0 < w
    → offset + w ≤ length bs
piece_fits offset w bs piece rest e n p =
    omega (arith, length-drop offset bs, ap length e, length-append piece rest)

slice_piece :
    (offset w : ℕ) (bs piece rest : Bytes)
    → drop offset bs ≡ piece ++ rest
    → length piece ≡ w
    → slice offset (offset + w) bs ≡ piece
slice_piece offset w bs piece rest e n = rw (cut offset w, e, ← n) (take-append piece rest)
  where
    cut : (i k : ℕ) → i + k - i ≡ k
    cut i k = omega arith

pub slice_at :
    (offset w : ℕ) (bs piece rest : Bytes)
    → drop offset bs ≡ piece ++ rest
    → length piece ≡ w
    → slice offset (offset + w) bs ≡ piece
slice_at = slice_piece

pub read_le_at :
    (w offset n : ℕ) (bs rest : Bytes)
    → drop offset bs ≡ le_bytes w n ++ rest
    → 0 < w
    → n < 256 ^ w
    → read_le w offset bs ≡ ok n
unfolding read_le
read_le_at w offset n bs rest e p h =
    let within : leb (offset + w) (length bs) ≡ true =
      ground (arith, piece_fits offset w bs (le_bytes w n) rest e (length-le_bytes w n) p) in
    rw (within, slice_piece offset w bs (le_bytes w n) rest e (length-le_bytes w n))
      (ap ok (le_value-le_bytes w n h))

pub read_be_at :
    (w offset n : ℕ) (bs rest : Bytes)
    → drop offset bs ≡ be_bytes w n ++ rest
    → 0 < w
    → n < 256 ^ w
    → read_be w offset bs ≡ ok n
unfolding read_be
read_be_at w offset n bs rest e p h =
    let within : leb (offset + w) (length bs) ≡ true =
      ground (arith, piece_fits offset w bs (be_bytes w n) rest e (length-be_bytes w n) p) in
    rw (within, slice_piece offset w bs (be_bytes w n) rest e (length-be_bytes w n))
      (ap ok (be_value-be_bytes w n h))

pub get_elem?_at :
    (offset b : ℕ) (bs rest : Bytes) → drop offset bs ≡ b ∷ rest → get_elem? bs offset ≡ some b
get_elem?_at offset b [] rest e = elim_nil offset e
  where
    elim_nil : (i : ℕ) → drop i [] ≡ b ∷ rest → get_elem? [] i ≡ some b
    elim_nil zero h = cc
    elim_nil (suc i) h = cc
get_elem?_at zero b (x ∷ bs) rest e = cc
get_elem?_at (suc i) b (x ∷ bs) rest e = get_elem?_at i b bs rest e

pub get_or_at :
    (offset b : ℕ) (bs rest : Bytes) → drop offset bs ≡ b ∷ rest → get_or bs offset 0 ≡ b
get_or_at zero b [] rest e = cc
get_or_at (suc i) b [] rest e = cc
get_or_at zero b (x ∷ bs) rest e = cc
get_or_at (suc i) b (x ∷ bs) rest e = get_or_at i b bs rest e

pub is_nonzero_at-bit :
    (offset : ℕ) (f : Bool) (bs rest : Bytes)
    → drop offset bs ≡ bit f ∷ rest
    → is_nonzero_at offset bs ≡ f
unfolding is_nonzero_at
is_nonzero_at-bit offset f bs rest e =
    rw (get_elem?_at offset (bit f) bs rest e, is_nonzero_at) (ground arith)

pub le_bytes_injective :
    (w n m : ℕ) → n < 256 ^ w → m < 256 ^ w → le_bytes w n ≡ le_bytes w m → n ≡ m
le_bytes_injective w n m p q e =
    sym (le_value-le_bytes w n p) ∙ ap le_value e ∙ le_value-le_bytes w m q
