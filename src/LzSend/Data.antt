-- ===== src/LzSend/Data.antt =====
-- The bytes of the send, and what the program reads from them.
use lendmirror.Common.{
  ℕ, ◌+◌, ◌^◌, ◌<◌, ◌≡◌, refl, true, List, [], ◌∷◌, ◌++◌, length, length-append, ltb, leb, arith,
  none,
}
use lendmirror.Common.Keys.{eqb}
use lendmirror.Common.Int.{pos}
use lendmirror.Common.Outcome.{ok}
use lendmirror.Bytes.{Bytes, le_bytes, length-le_bytes, checked_le, zeros}
use lendmirror.Bytes.Writes.{Write, write_all-Contiguous, pieces, Contiguous}
use lendmirror.LzSend.{OftSend, oft_send_discriminator, oft_send_writes, oft_send_data, checked_u64}
use lendmirror.LzSend.Program.{
  OftSendParams, decode_params, decode_oft_send, take_bytes-append, take_le, take_le-append,
  take_vec-append, take_optional,
}

-- A send whose fields fit the words of the message.
pub record IsSend (eid amount min_amount fee : ℕ) (to options : Bytes) : Type 0 where
  pub eid_fits : eid < 2 ^ 32
  pub amount_fits : amount < 2 ^ 64
  pub min_amount_fits : min_amount < 2 ^ 64
  pub fee_fits : fee < 2 ^ 64
  pub to_fits : length to ≡ 32
  pub options_fits : length options < 2 ^ 32

checked_le_lem : (w n : ℕ) → n < 256 ^ w → checked_le w n ≡ ok (le_bytes w n)
unfolding checked_le
checked_le_lem w n h = let fits : ltb n (256 ^ w) ≡ true = ground arith in rw fits refl

last_word : (rest : Bytes) → take_le 8 (zeros 8 ++ rest) ≡ ok (0, rest)
unfolding le_bytes
last_word rest = take_le-append 8 0 rest (omega arith)

module _ (eid amount min_amount fee : ℕ) (to options : Bytes) where
  abbrev pub send : OftSend
  send = record {
    dst_eid = eid;
    to = to;
    amount_ld = pos amount;
    min_amount_ld = pos min_amount;
    options = options;
    native_fee = pos fee;
  }

  abbrev pub params : OftSendParams
  params = record {
    dst_eid = eid;
    to = to;
    amount_ld = amount;
    min_amount_ld = min_amount;
    options = options;
    compose_msg = none;
    native_fee = fee;
    lz_token_fee = 0;
  }

  module _ (s : IsSend eid amount min_amount fee to options) where
    body : Bytes
    body =
        le_bytes 4 eid
        ++ (to
            ++ (le_bytes 8 amount
                ++ (le_bytes 8 min_amount
                    ++ (le_bytes 4 (length options)
                        ++ (options ++ (0 ∷ (le_bytes 8 fee ++ (zeros 8 ++ []))))))))

    writes : List Write
    writes =
        oft_send_writes (le_bytes 4 eid) send (length options) (le_bytes 8 amount)
          (le_bytes 8 min_amount) (le_bytes 4 (length options)) (le_bytes 8 fee)

    writes-Contiguous : Contiguous 0 writes
    unfolding writes oft_send_writes
    writes-Contiguous = omega (arith, length-le_bytes, s.to_fits)

    length-writes : 81 + length options ≡ length (pieces writes)
    unfolding writes oft_send_writes
    length-writes = simp (length-append, length-le_bytes, s.to_fits) (omega arith)

    oft_send_data_lem : oft_send_data send ≡ ok (oft_send_discriminator ++ body)
    unfolding oft_send_data checked_u64 writes oft_send_writes body
    oft_send_data_lem =
        rw
          (
            checked_le_lem 4 eid s.eid_fits,
            checked_le_lem 8 amount s.amount_fits,
            checked_le_lem 8 min_amount s.min_amount_fits,
            checked_le_lem 4 (length options) s.options_fits,
            checked_le_lem 8 fee s.fee_fits,
          )
          (write_all-Contiguous writes [] (81 + length options) writes-Contiguous length-writes)

    decode_params_lem : decode_params body ≡ ok params
    unfolding decode_params body take_optional
    decode_params_lem =
        rw
          (
            take_le-append 4 eid _ s.eid_fits,
            take_bytes-append 32 to _ s.to_fits,
            take_le-append 8 amount _ s.amount_fits,
            take_le-append 8 min_amount _ s.min_amount_fits,
            take_vec-append options _ s.options_fits,
            take_le-append 8 fee _ s.fee_fits,
            last_word [],
          )
          refl

    decode_oft_send_lem : decode_oft_send (oft_send_discriminator ++ body) ≡ ok params
    unfolding decode_oft_send eqb
    decode_oft_send_lem =
        let enough : leb 8 (length (oft_send_discriminator ++ body)) ≡ true = ground arith in
        rw (enough, decode_params_lem) refl

    -- A send with a receiver of 32 bytes and numbers that fit is encoded, and the program reads the
    -- same destination, receiver, amounts, options and fee from the bytes, no composed message and no
    -- fee in the LayerZero token, with no byte left over.
    pub oft_send_data-decode :
        (message : Bytes) × (oft_send_data send ≡ ok message)
        × (decode_oft_send message ≡ ok params)
    oft_send_data-decode = (oft_send_discriminator ++ body, oft_send_data_lem, decode_oft_send_lem)
