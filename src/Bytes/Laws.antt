-- ===== src/Bytes/Laws.antt =====
-- Round trips of words, and what a run of contiguous writes leaves behind.
use lendmirror.Common.{ℕ, zero, suc, ◌+◌, ◌-◌, ◌*◌, ◌/◌, ◌^◌, ◌≤◌, ◌<◌, ◌≡◌, refl, ap, sym, ◌∙◌}
use lendmirror.Common.{true, leb, [], ◌∷◌, ◌++◌, drop, length, arith}
use lendmirror.Common.{take-append, length-append, length-replicate}
use lendmirror.Common.Int.{ℤ, pos, negsuc, ◌≤ℤ◌}
use lendmirror.Common.Outcome.{ok}
use lendmirror.Bytes.Cells.{Bytes, le_bytes, be_bytes, le_value, be_value, to_word, of_word}
use lendmirror.Bytes.Cells.{zeros, write_at}
use Prim.Native.Nat.add
use native.Mathlib.Nat.{mod-eq_of_lt}
use mathlib.Core.List.{reverse, reverse_aux, reverse-reverse, append_assoc}

length-reverse_aux : (xs ys : Bytes) → length (reverse_aux xs ys) ≡ length xs + length ys
length-reverse_aux [] ys = omega arith
length-reverse_aux (x ∷ xs) ys = omega (arith, length-reverse_aux xs (x ∷ ys))

length-reverse : (xs : Bytes) → length (reverse xs) ≡ length xs
length-reverse xs = omega (arith, length-reverse_aux xs [])

pub length-le_bytes : (w n : ℕ) → length (le_bytes w n) ≡ w
unfolding le_bytes
length-le_bytes zero n = refl
length-le_bytes (suc w) n = ap suc (length-le_bytes w (n / 256))

pub length-be_bytes : (w n : ℕ) → length (be_bytes w n) ≡ w
unfolding be_bytes
length-be_bytes w n = length-reverse (le_bytes w n) ∙ length-le_bytes w n

pub le_value-le_bytes : (w n : ℕ) → n < 256 ^ w → le_value (le_bytes w n) ≡ n
unfolding le_bytes le_value
le_value-le_bytes zero n h = omega arith
le_value-le_bytes (suc w) n h = omega (arith, le_value-le_bytes w (n / 256) (omega arith))

pub be_value-be_bytes : (w n : ℕ) → n < 256 ^ w → be_value (be_bytes w n) ≡ n
unfolding be_bytes be_value
be_value-be_bytes w n h = rw (reverse-reverse (le_bytes w n)) (le_value-le_bytes w n h)

n-lt-two : (h n : ℕ) → 0 < h → n ≤ h - 1 → n < 2 * h
n-lt-two h n p q = omega arith

of_word_pos : (h n : ℕ) → 0 < h → n ≤ h - 1 → of_word (2 * h) (to_word (2 * h) (pos n)) ≡ pos n
unfolding of_word to_word
of_word_pos h n p hi = rw (mod-eq_of_lt (n-lt-two h n p hi)) (ground arith)

of_word_negsuc :
    (h n : ℕ) → 0 < h → n ≤ h - 1 → of_word (2 * h) (to_word (2 * h) (negsuc n)) ≡ negsuc n
unfolding of_word to_word
of_word_negsuc h n p hi = rw (mod-eq_of_lt (n-lt-two h n p hi)) (ground arith)

-- A signed number that fits comes back from its word.
pub of_word-to_word :
    (h : ℕ) (z : ℤ)
    → 0 < h
    → negsuc (h - 1) ≤ℤ z
    → z ≤ℤ pos (h - 1)
    → of_word (2 * h) (to_word (2 * h) z) ≡ z
of_word-to_word h (pos n) p lo hi = of_word_pos h n p (omega arith)
of_word-to_word h (negsuc n) p lo hi = of_word_negsuc h n p (omega arith)

pub length-zeros : (n : ℕ) → length (zeros n) ≡ n
length-zeros n = length-replicate n 0

drop-zeros : (n k : ℕ) → drop n (zeros (n + k)) ≡ zeros k
drop-zeros zero k = rw (add.zero k) refl
drop-zeros (suc n) k = rw (add.suc n k) (drop-zeros n k)

drop-append_more : (m : ℕ) (xs ys : Bytes) → drop (length xs + m) (xs ++ ys) ≡ drop m ys
drop-append_more m [] ys = rw (add.zero m) refl
drop-append_more m (x ∷ xs) ys = rw (add.suc (length xs) m) (drop-append_more m xs ys)

fits_in_zeros :
    (done src : Bytes) (k : ℕ)
    → leb (length done + length src) (length (done ++ zeros (length src + k))) ≡ true
fits_in_zeros done src k =
    ground (arith, length-append done (zeros (length src + k)), length-zeros (length src + k))

-- A write where the written part ends, in a buffer of zeros.
pub write_at-zeros :
    (done src : Bytes) (offset total k : ℕ)
    → length done ≡ offset
    → total ≡ length src + k
    → write_at offset src (done ++ zeros total) ≡ ok ((done ++ src) ++ zeros k)
unfolding write_at
write_at-zeros done src offset total k at fits =
    rw (← at, fits, fits_in_zeros done src k, take-append, drop-append_more, drop-zeros)
      (ap ok (sym (append_assoc done src (zeros k))))
