-- ===== src/Hex.antt =====
-- Hexadecimal text: `Buffer.toString('hex')`, which writes two digits for a byte, and
-- `Buffer.from(text, 'hex')`, which stops before the first pair that is not two digits.
use lendmirror.Common.{ℕ, suc, ◌+◌, ◌-◌, ◌*◌, ◌/◌, ◌%◌, ◌≤◌, ◌<◌, ◌≡◌, refl, ◌&&◌}
use lendmirror.Common.{
  Option, none, some, List, [], ◌∷◌, All, length, ltb, leb, if◌then◌else◌, arith,
}
use lendmirror.Bytes.{Bytes, IsByte}

unfoldable pub hex_digit : ℕ → ℕ
hex_digit n = if ltb n 10 then 48 + n else 87 + n

unfoldable pub to_hex : Bytes → List ℕ
to_hex [] = []
to_hex (b ∷ bs) = hex_digit (b / 16) ∷ hex_digit (b % 16) ∷ to_hex bs

-- A digit in either case.
unfoldable pub digit_value : ℕ → Option ℕ
digit_value c =
    if leb 48 c && leb c 57
    then some (c - 48)
    else if leb 97 c && leb c 102
    then some (c - 87)
    else if leb 65 c && leb c 70
    then some (c - 55)
    else none

-- The byte of two digits before the rest, or nothing if one of them is none.
unfoldable pub from_pair : Option ℕ → Option ℕ → Bytes → Bytes
from_pair none l more = []
from_pair (some h) none more = []
from_pair (some h) (some l) more = (16 * h + l) ∷ more

unfoldable pub from_hex : List ℕ → Bytes
from_hex [] = []
from_hex (c ∷ []) = []
from_hex (c ∷ d ∷ cs) = from_pair (digit_value c) (digit_value d) (from_hex cs)

pub digit_value-hex_digit : (n : ℕ) → n < 16 → digit_value (hex_digit n) ≡ some n
unfolding digit_value hex_digit
digit_value-hex_digit n h = ground arith

pub from_hex-to_hex : (bs : Bytes) → All IsByte bs → from_hex (to_hex bs) ≡ bs
unfolding from_hex to_hex from_pair
from_hex-to_hex [] a = refl
from_hex-to_hex (b ∷ bs) a =
    let whole : 16 * (b / 16) + b % 16 ≡ b = omega arith in
    rw
      (
        digit_value-hex_digit (b / 16) (omega (arith, a.0)),
        digit_value-hex_digit (b % 16) (omega arith),
        from_hex-to_hex bs a.1,
        whole,
      )
      refl

pub length-to_hex : (bs : Bytes) → length (to_hex bs) ≡ 2 * length bs
unfolding to_hex
length-to_hex [] = refl
length-to_hex (b ∷ bs) = omega (arith, length-to_hex bs)

pub length-from_hex : (cs : List ℕ) → 2 * length (from_hex cs) ≤ length cs
unfolding from_hex from_pair
length-from_hex [] = omega arith
length-from_hex (c ∷ []) = omega arith
length-from_hex (c ∷ d ∷ cs) =
    omega
      (arith, length-from_pair (digit_value c) (digit_value d) (from_hex cs), length-from_hex cs)
  where
    length-from_pair :
        (h l : Option ℕ) (more : Bytes) → length (from_pair h l more) ≤ suc (length more)
    length-from_pair none l more = omega arith
    length-from_pair (some h) none more = omega arith
    length-from_pair (some h) (some l) more = omega arith
