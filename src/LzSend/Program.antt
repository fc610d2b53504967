-- ===== src/LzSend/Program.antt =====
-- programs/lendmirror/src/bridges.rs, lines 61-122, and instructions/bridge_tokens.rs, lines 724-743:
-- how the program on chain reads and checks the issuer's send.
use lendmirror.Common.{ℕ, ◌-◌, ◌/◌, ◌^◌, ◌<◌, ◌≡◌, refl, true, false, ◌&&◌, ◌||◌, arith}
use lendmirror.Common.{
  [], ◌∷◌, ◌++◌, Option, none, some, length, take, drop, leb, ◌==◌, if◌then◌else◌,
}
use lendmirror.Common.{take-append, drop-append, length-append}
use lendmirror.Common.Keys.{eqb}
use lendmirror.Common.Outcome.{Result, ok, err, ◌>>=◌, ◌>>◌, guard}
use lendmirror.Bytes.{Bytes, le_bytes, le_value, length-le_bytes, le_value-le_bytes}
use lendmirror.LzSend.{oft_send_discriminator}

pub data SendError : Type 0 where
  -- the bytes are no `send`
  not_a_send : SendError
  missing_bridge_send : SendError

pub record OftSendParams : Type 0 where
  pub dst_eid : ℕ
  pub to : Bytes
  pub amount_ld : ℕ
  pub min_amount_ld : ℕ
  pub options : Bytes
  pub compose_msg : Option Bytes
  pub native_fee : ℕ
  pub lz_token_fee : ℕ

-- Borsh: the next bytes, a number, a vector, an optional vector.
unfoldable pub take_bytes : ℕ → Bytes → Result SendError (Bytes × Bytes)
take_bytes n bs = if leb n (length bs) then ok (take n bs, drop n bs) else err not_a_send

unfoldable pub take_le : ℕ → Bytes → Result SendError (ℕ × Bytes)
take_le w bs = do (word, rest) ← take_bytes w bs; ok (le_value word, rest)

unfoldable pub take_vec : Bytes → Result SendError (Bytes × Bytes)
take_vec bs = do (n, rest) ← take_le 4 bs; take_bytes n rest

unfoldable pub take_optional : Bytes → Result SendError (Option Bytes × Bytes)
take_optional [] = err not_a_send
take_optional (tag ∷ bs) =
    if tag == 0
    then ok (none, bs)
    else (if tag == 1 then (take_vec bs >>= λ v. ok (some v.0, v.1)) else err not_a_send)

unfoldable pub decode_params : Bytes → Result SendError OftSendParams
decode_params bs = do
  (dst_eid, b0) ← take_le 4 bs
  (to, b1) ← take_bytes 32 b0
  (amount_ld, b2) ← take_le 8 b1
  (min_amount_ld, b3) ← take_le 8 b2
  (options, b4) ← take_vec b3
  (compose_msg, b5) ← take_optional b4
  (native_fee, b6) ← take_le 8 b5
  (lz_token_fee, b7) ← take_le 8 b6
  guard (length b7 == 0) not_a_send
  ok (record {
    dst_eid = dst_eid;
    to = to;
    amount_ld = amount_ld;
    min_amount_ld = min_amount_ld;
    options = options;
    compose_msg = compose_msg;
    native_fee = native_fee;
    lz_token_fee = lz_token_fee;
  })

unfoldable pub decode_oft_send : Bytes → Result SendError OftSendParams
unfolding decode_params
decode_oft_send bs = do
  guard (leb 8 (length bs) && eqb (take 8 bs) oft_send_discriminator) not_a_send
  decode_params (drop 8 bs)

unfoldable pub check_lz_send :
    (domain_or_selector : ℕ) (receiver : Bytes) (amount : ℕ)
    → OftSendParams
    → Result SendError (Unit {0})
check_lz_send domain_or_selector receiver amount send = do
  guard (send.dst_eid == domain_or_selector) missing_bridge_send
  guard (eqb send.to receiver) missing_bridge_send
  guard (send.amount_ld == amount) missing_bridge_send
  guard (leb (amount - amount / 200) send.min_amount_ld) missing_bridge_send
  guard (eqb send.options [] || eqb send.options (0 ∷ 3 ∷ [])) missing_bridge_send
  guard (elim send.compose_msg [ none ↦ true | some m ↦ false ]) missing_bridge_send

pub take_bytes-append :
    (n : ℕ) (piece rest : Bytes)
    → length piece ≡ n
    → take_bytes n (piece ++ rest) ≡ ok (piece, rest)
unfolding take_bytes
take_bytes-append n piece rest e =
    let fits : leb n (length (piece ++ rest)) ≡ true = ground (arith, length-append piece rest) in
    rw (fits, ← e, take-append piece rest, drop-append piece rest) refl

pub take_le-append :
    (w n : ℕ) (rest : Bytes) → n < 256 ^ w → take_le w (le_bytes w n ++ rest) ≡ ok (n, rest)
unfolding take_le
take_le-append w n rest h =
    rw (take_bytes-append w (le_bytes w n) rest (length-le_bytes w n), le_value-le_bytes w n h) refl

pub take_vec-append :
    (piece rest : Bytes)
    → length piece < 2 ^ 32
    → take_vec (le_bytes 4 (length piece) ++ (piece ++ rest)) ≡ ok (piece, rest)
unfolding take_vec
take_vec-append piece rest h =
    rw (take_le-append 4 (length piece) (piece ++ rest) h)
      (take_bytes-append (length piece) piece rest refl)
