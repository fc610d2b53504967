-- ===== src/Bridge/Receiver.antt =====
-- The receiver of a bridge: a 20-byte address as 32 bytes.
use lendmirror.Common.{
  ℕ, ◌+◌, ◌≡◌, refl, List, ◌++◌, length, All, ◌==◌, drop, arith, true, leb, ◌≢◌, ◌⊎◌, inl, inr,
  Bool-cases, length-append, length-drop,
}
use mathlib.Core.List.{append-nil}
use lendmirror.Common.Outcome.{ok, err}
use lendmirror.Common.Text.{codes}
use lendmirror.Bytes.{Bytes, IsByte, zeros, write_at}
use lendmirror.Hex.{to_hex, from_hex, from_hex-to_hex, length-to_hex, length-from_hex}
use lendmirror.Bridge.{evm_address_to_32, strip_0x, not_an_address}

-- The hexadecimal text of 20 bytes, with `0x` before it, is turned into 12 zeros and those bytes.
evm_address_to_32-to_hex :
    (bs : Bytes)
    → All IsByte bs
    → length bs ≡ 20
    → evm_address_to_32 (codes "0x" ++ to_hex bs) ≡ ok (zeros 12 ++ bs)
unfolding evm_address_to_32 strip_0x write_at
evm_address_to_32-to_hex bs a n =
    let digits : length (to_hex bs) ≡ 40 = omega (arith, length-to_hex bs) in
    rw (digits, from_hex-to_hex bs a, n, append-nil bs) refl

-- Any text of 40 characters behind an optional `0x` is turned into 32 bytes, whether or not the
-- characters are hexadecimal digits; every other text is refused.
pub evm_address_to_32-length :
    (address : List ℕ)
    → ((length (strip_0x address) ≡ 40)
        × (out : Bytes) × (evm_address_to_32 address ≡ ok out)
        × (length out ≡ 32))
      ⊎ ((length (strip_0x address) ≢ 40) × (evm_address_to_32 address ≡ err not_an_address))
unfolding evm_address_to_32 write_at
evm_address_to_32-length address = elim (Bool-cases (length (strip_0x address) == 40)) [
  | inl forty ↦
      let n : length (strip_0x address) ≡ 40 = ground arith in
      let bytes = from_hex (strip_0x address) in
      let fits : leb (12 + length bytes) 32 ≡ true =
        ground (arith, length-from_hex (strip_0x address)) in
      inl (
        n,
        zeros 12 ++ (bytes ++ drop (12 + length bytes) (zeros 32)),
        rw (n, fits) refl,
        omega (
          arith,
          length-append (zeros 12) (bytes ++ drop (12 + length bytes) (zeros 32)),
          length-append bytes (drop (12 + length bytes) (zeros 32)),
          length-drop (12 + length bytes) (zeros 32),
          length-from_hex (strip_0x address),
          n,
        ),
      )
  | inr other ↦ inr (λ n. ground arith, rw other refl)
]
