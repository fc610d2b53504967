-- ===== src/Bridge/Writable.antt =====
-- The bitmap of the registry is read as Chainlink's two words of 128 bits.
use lendmirror.Common.{
  ℕ, zero, suc, ◌+◌, ◌-◌, ◌*◌, ◌/◌, ◌%◌, ◌^◌, ◌<◌, ◌≡◌, refl, sym, ap, ◌∙◌, true, [], ◌∷◌, ltb,
  ◌==◌, get_or, All, take, drop, arith, Bool-cases, inl, inr,
}
use native.Mathlib.Nat.{div-div-eq-div-mul, zero-div, pow-succ'}
use Prim.Native.Nat.add
use lendmirror.Bytes.{Bytes, IsByte, le_value}
use lendmirror.Bridge.TokenAccounts.{is_writable, word_bit}

-- Bit `p` of a number.
abbrev pub bit_at : ℕ → ℕ → ℕ
bit_at x p = x / 2 ^ p % 2

low_bit : (b v r : ℕ) → r < 8 → (b + 256 * v) / 2 ^ r % 2 ≡ b / 2 ^ r % 2
low_bit b v zero h = omega arith
low_bit b v (suc zero) h = omega arith
low_bit b v (suc (suc zero)) h = omega arith
low_bit b v (suc (suc (suc zero))) h = omega arith
low_bit b v (suc (suc (suc (suc zero)))) h = omega arith
low_bit b v (suc (suc (suc (suc (suc zero))))) h = omega arith
low_bit b v (suc (suc (suc (suc (suc (suc zero)))))) h = omega arith
low_bit b v (suc (suc (suc (suc (suc (suc (suc zero))))))) h = omega arith
low_bit b v (suc (suc (suc (suc (suc (suc (suc (suc r)))))))) h = absurd (omega arith)

pow-eight : (p : ℕ) → 2 ^ (8 + p) ≡ 256 * 2 ^ p
pow-eight p =
    let eight : 8 + p ≡ suc (suc (suc (suc (suc (suc (suc (suc p))))))) = omega arith in
    rw eight (omega (arith, double))
  where
    double : (n : ℕ) → 2 ^ suc n ≡ 2 * 2 ^ n
    double n = pow-succ' 2 n

high_bit : (b v p : ℕ) → b < 256 → (b + 256 * v) / 2 ^ (8 + p) % 2 ≡ v / 2 ^ p % 2
high_bit b v p h =
    let shift : (b + 256 * v) / 256 ≡ v = omega arith in
    rw (pow-eight p, ← div-div-eq-div-mul (b + 256 * v) 256 (2 ^ p), shift) refl

-- Bit `8 q + r` of a row of bytes, lowest first, is bit `r` of byte `q`.
bit-le_value :
    (q r : ℕ) (bs : Bytes)
    → r < 8
    → All IsByte bs
    → bit_at (le_value bs) (8 * q + r) ≡ bit_at (get_or bs q 0) r
unfolding le_value
bit-le_value q r [] h a = rw (zero-div (2 ^ (8 * q + r)), zero-div (2 ^ r)) refl
bit-le_value zero r (b ∷ bs) h a =
    let here : 8 * 0 + r ≡ r = omega arith in rw here (low_bit b (le_value bs) r h)
bit-le_value (suc q) r (b ∷ bs) h a =
    let next : 8 * suc q + r ≡ 8 + (8 * q + r) = omega arith in
    rw next (high_bit b (le_value bs) (8 * q + r) a.0 ∙ bit-le_value q r bs h a.1)

get_or-drop : (k i : ℕ) (bs : Bytes) → get_or (drop k bs) i 0 ≡ get_or bs (k + i) 0
get_or-drop zero i bs = rw (add.zero i) refl
get_or-drop (suc k) i [] = refl
get_or-drop (suc k) i (b ∷ bs) = rw (add.suc k i) (get_or-drop k i bs)

get_or-take : (n i : ℕ) (bs : Bytes) → i < n → get_or (take n bs) i 0 ≡ get_or bs i 0
get_or-take zero i bs h = absurd (omega arith)
get_or-take (suc n) i [] h = refl
get_or-take (suc n) zero (b ∷ bs) h = refl
get_or-take (suc n) (suc i) (b ∷ bs) h = get_or-take n i bs (omega arith)

All-drop : (k : ℕ) (bs : Bytes) → All IsByte bs → All IsByte (drop k bs)
All-drop zero bs a = a
All-drop (suc k) [] a = tt
All-drop (suc k) (b ∷ bs) a = All-drop k bs a.1

All-take : (k : ℕ) (bs : Bytes) → All IsByte bs → All IsByte (take k bs)
All-take zero bs a = tt
All-take (suc k) [] a = tt
All-take (suc k) (b ∷ bs) a = (a.0, All-take k bs a.1)

-- The word that starts at byte `16 * word`.
abbrev pub word_of : Bytes → ℕ → ℕ
word_of bits word = le_value (take 16 (drop (word * 16) bits))

word_bit_lem :
    (bits : Bytes) (word position : ℕ)
    → All IsByte bits
    → position < 128
    → word_bit bits word position ≡ (bit_at (word_of bits word) position == 1)
unfolding word_bit
word_bit_lem bits word position a h =
    let cut : 8 * (position / 8) + position % 8 ≡ position = omega arith in
    ap (λ x. x == 1)
      (sym (
        ap (bit_at (word_of bits word)) (sym cut)
        ∙ bit-le_value (position / 8) (position % 8) (take 16 (drop (word * 16) bits)) (omega arith)
            (All-take 16 _ (All-drop (word * 16) bits a))
        ∙ ap (λ b. bit_at b (position % 8))
            (get_or-take 16 (position / 8) (drop (word * 16) bits) (omega arith)
              ∙ get_or-drop (word * 16) (position / 8) bits)))

-- For each of the 256 entries that a lookup table can have, the entry is taken as writable exactly
-- if bit 127 - index % 128 is set in word index / 128 of the bitmap, read as numbers of 128 bits.
pub is_writable_lem :
    (bits : Bytes) (index : ℕ)
    → All IsByte bits
    → index < 256
    → is_writable bits index ≡ (bit_at (word_of bits (index / 128)) (127 - index % 128) == 1)
unfolding is_writable
is_writable_lem bits index a h = elim (Bool-cases (ltb index 128)) [
  | inl low ↦
      let word : index / 128 ≡ 0 = ground arith in
      let rest : index % 128 ≡ index = ground arith in
      rw (low, word, rest) (word_bit_lem bits 0 (127 - index) a (omega arith))
  | inr high ↦
      let word : index / 128 ≡ 1 = ground arith in
      let rest : index % 128 ≡ index - 128 = ground arith in
      let within : ltb index 256 ≡ true = ground arith in
      rw (high, within, word, rest) (word_bit_lem bits 1 (127 - (index - 128)) a (omega arith))
]
