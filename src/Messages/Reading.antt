-- ===== src/Messages/Reading.antt =====
-- What the program reads from the bytes and the accounts that the client sends.
use lendmirror.Common.{
  ℕ, ◌<◌, ◌^◌, ◌≡◌, refl, true, false, Bool, Option, none, some, List, [], ◌∷◌, ◌++◌, length, arith,
}
use mathlib.Core.List.{append-nil}
use lendmirror.Common.Keys.{eqb, eqb_iff}
use lendmirror.Common.Outcome.{ok}
use lendmirror.Bytes.{Bytes, le_bytes}
use lendmirror.Pda.{Key}
use lendmirror.Ix.{AccountMeta}
use lendmirror.Known.{token_program, system_program}
use lendmirror.Instructions.{account_metas}
use lendmirror.LzSend.Program.{take_bytes-append, take_le-append, take_vec-append}
use lendmirror.Instructions.Message.{
  SendArgs, QuoteArgs, Serializers, SendInput, send_slots, quote_slots, send_data, quote_data,
  send_discriminator, quote_discriminator,
}
use lendmirror.Messages.Program.{
  SendContext, SendParams, QuoteSendParams, take_account, take_optional_account, read_send_context,
  read_quote_context, decode_send_params, decode_quote_params, take_bool,
}

-- What umi documents of its serializers: little-endian numbers, bytes of a fixed length, one byte for
-- a boolean.
pub record IsUmi (ser : Serializers) : Type 0 where
  pub u32_is : (n : ℕ) → n < 256 ^ 4 → ser.u32 n ≡ some (le_bytes 4 n)
  pub u64_is : (n : ℕ) → n < 256 ^ 8 → ser.u64 n ≡ some (le_bytes 8 n)
  pub fixed_is : (n : ℕ) (b : Bytes) → length b ≡ n → ser.fixed n b ≡ b
  pub true_is : ser.bool true ≡ 1 ∷ []
  pub false_is : ser.bool false ≡ 0 ∷ []

-- The context that the program gets for an input.
abbrev pub context_of : SendInput → SendContext
context_of i = record {
  authority = i.authority;
  ondemand = i.ondemand;
  wrapper = i.wrapper_key;
  store = i.store;
  peer = i.peer_key;
  endpoint = i.endpoint;
  ccip_payer = i.ccip_payer;
  ccip_route = i.ccip_route;
  config = i.accounts.config;
  dest_chain_state = i.accounts.dest_chain_state;
  nonce = i.accounts.nonce;
  system_program = system_program;
  fee_token_program = token_program;
  fee_token_mint = i.accounts.fee_token_mint;
  fee_token_user = i.accounts.fee_token_user;
  fee_token_receiver = i.accounts.fee_token_receiver;
  fee_billing_signer = i.accounts.fee_billing_signer;
  fee_quoter = i.route.fee_quoter;
  fee_quoter_config = i.accounts.fee_quoter_config;
  fee_quoter_dest_chain = i.accounts.fee_quoter_dest_chain;
  fee_quoter_billing_token_config = i.accounts.fee_quoter_billing_token_config;
  fee_quoter_link_token_config = i.accounts.fee_quoter_link_token_config;
  rmn_remote = i.route.rmn_remote;
  rmn_remote_curses = i.accounts.rmn_remote_curses;
  rmn_remote_config = i.accounts.rmn_remote_config;
  token_pools_signer = i.accounts.token_pools_signer;
  ccip_router = i.route.router;
}

-- No address of the client's is the program itself.
abbrev pub IsOther : Key → Option Key → Type 0
IsOther program_id none = Unit
IsOther program_id (some key) = eqb key program_id ≡ false

pub eqb_refl : (k : Key) → eqb k k ≡ true
eqb_refl k = (eqb_iff k k).1 refl

read_with :
    (program_id : Key) (i : SendInput) (o : Option Key) (rest : List AccountMeta)
    → i.ondemand ≡ o
    → IsOther program_id o
    → read_send_context program_id (account_metas program_id (send_slots i) ++ rest)
      ≡ ok (context_of i, rest)
unfolding read_send_context send_slots account_metas take_account take_optional_account
read_with program_id i none rest e other = rw (e, eqb_refl program_id) refl
read_with program_id i (some key) rest e other = rw (e, other) refl

pub read_send_context-metas :
    (program_id : Key) (i : SendInput) (rest : List AccountMeta)
    → IsOther program_id i.ondemand
    → read_send_context program_id (account_metas program_id (send_slots i) ++ rest)
      ≡ ok (context_of i, rest)
read_send_context-metas program_id i rest other = read_with program_id i i.ondemand rest refl other

pub read_quote_context-metas :
    (program_id store w peer endpoint : Key) (rest : List AccountMeta)
    → read_quote_context (account_metas program_id (quote_slots store w peer endpoint) ++ rest)
      ≡ ok (record { store = store; wrapper = w; peer = peer; endpoint = endpoint }, rest)
unfolding read_quote_context quote_slots account_metas take_account
read_quote_context-metas program_id store w peer endpoint rest = refl

-- The numbers and bytes of a send fit their fields.
pub record IsSendable (p : SendArgs) : Type 0 where
  pub eid_fits : p.dst_eid < 256 ^ 4
  pub size_fits : length p.options < 2 ^ 32
  pub native_fee_fits : p.native_fee < 256 ^ 8
  pub lz_token_fee_fits : p.lz_token_fee < 256 ^ 8
  pub lamports_fit : p.ccip_fee_lamports < 256 ^ 8

abbrev pub params_of : SendArgs → SendParams
params_of p = record {
  dst_eid = p.dst_eid;
  options = p.options;
  native_fee = p.native_fee;
  lz_token_fee = p.lz_token_fee;
  ccip_fee_lamports = p.ccip_fee_lamports;
}

abbrev pub send_arguments : SendArgs → Bytes
send_arguments p =
    le_bytes 4 p.dst_eid
    ++ (le_bytes 4 (length p.options)
        ++ (p.options
            ++ (le_bytes 8 p.native_fee
                ++ (le_bytes 8 p.lz_token_fee ++ le_bytes 8 p.ccip_fee_lamports))))

pub send_data_lem :
    (ser : Serializers) (p : SendArgs)
    → IsUmi ser
    → IsSendable p
    → send_data ser p ≡ ok (send_discriminator ++ send_arguments p)
unfolding send_data
send_data_lem ser p umi s =
    rw
      (
        umi.u32_is p.dst_eid s.eid_fits,
        umi.u32_is (length p.options) (omega (arith, s.size_fits)),
        umi.u64_is p.native_fee s.native_fee_fits,
        umi.u64_is p.lz_token_fee s.lz_token_fee_fits,
        umi.u64_is p.ccip_fee_lamports s.lamports_fit,
      )
      refl

pub decode_send_params-arguments :
    (p : SendArgs) → IsSendable p → decode_send_params (send_arguments p) ≡ ok (params_of p)
unfolding decode_send_params
decode_send_params-arguments p s =
    let last : le_bytes 8 p.ccip_fee_lamports ++ [] ≡ le_bytes 8 p.ccip_fee_lamports =
      append-nil (le_bytes 8 p.ccip_fee_lamports) in
    rw
      (
        take_le-append 4 p.dst_eid
            (le_bytes 4 (length p.options)
              ++ (p.options
                  ++ (le_bytes 8 p.native_fee
                      ++ (le_bytes 8 p.lz_token_fee ++ le_bytes 8 p.ccip_fee_lamports))))
            s.eid_fits,
        take_vec-append p.options
            (le_bytes 8 p.native_fee
              ++ (le_bytes 8 p.lz_token_fee ++ le_bytes 8 p.ccip_fee_lamports))
            s.size_fits,
        take_le-append 8 p.native_fee (le_bytes 8 p.lz_token_fee ++ le_bytes 8 p.ccip_fee_lamports)
            s.native_fee_fits,
        take_le-append 8 p.lz_token_fee (le_bytes 8 p.ccip_fee_lamports) s.lz_token_fee_fits,
        ← last,
        take_le-append 8 p.ccip_fee_lamports [] s.lamports_fit,
      )
      refl

-- The same of a quote.
pub record IsQuotable (p : QuoteArgs) : Type 0 where
  pub eid_fits : p.dst_eid < 256 ^ 4
  pub size_fits : length p.options < 2 ^ 32
  pub receiver_fits : length p.receiver ≡ 32

abbrev pub quote_params_of : QuoteArgs → QuoteSendParams
quote_params_of p = record {
  dst_eid = p.dst_eid;
  receiver = p.receiver;
  options = p.options;
  pay_in_lz_token = p.pay_in_lz_token;
}

abbrev pub quote_arguments : Serializers → QuoteArgs → Bytes
quote_arguments ser p =
    le_bytes 4 p.dst_eid
    ++ (p.receiver ++ (le_bytes 4 (length p.options) ++ (p.options ++ ser.bool p.pay_in_lz_token)))

pub quote_data_lem :
    (ser : Serializers) (p : QuoteArgs)
    → IsUmi ser
    → IsQuotable p
    → quote_data ser p ≡ ok (quote_discriminator ++ quote_arguments ser p)
unfolding quote_data
quote_data_lem ser p umi q =
    rw
      (
        umi.u32_is p.dst_eid q.eid_fits,
        umi.u32_is (length p.options) (omega (arith, q.size_fits)),
        umi.fixed_is 32 p.receiver q.receiver_fits,
      )
      refl

take_bool-bool : (ser : Serializers) (b : Bool) → IsUmi ser → take_bool (ser.bool b) ≡ ok (b, [])
unfolding take_bool
take_bool-bool ser true umi = rw umi.true_is refl
take_bool-bool ser false umi = rw umi.false_is refl

pub decode_quote_params-arguments :
    (ser : Serializers) (p : QuoteArgs)
    → IsUmi ser
    → IsQuotable p
    → decode_quote_params (quote_arguments ser p) ≡ ok (quote_params_of p)
unfolding decode_quote_params
decode_quote_params-arguments ser p umi q =
    rw
      (
        take_le-append 4 p.dst_eid
            (p.receiver
              ++ (le_bytes 4 (length p.options) ++ (p.options ++ ser.bool p.pay_in_lz_token)))
            q.eid_fits,
        take_bytes-append 32 p.receiver
            (le_bytes 4 (length p.options) ++ (p.options ++ ser.bool p.pay_in_lz_token))
            q.receiver_fits,
        take_vec-append p.options (ser.bool p.pay_in_lz_token) q.size_fits,
        take_bool-bool ser p.pay_in_lz_token umi,
      )
      refl
