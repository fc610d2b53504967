-- ===== src/Messages/Program.antt =====
-- programs/lendmirror/src/instructions/send_position_snapshot.rs, lines 43-166, and quote_send.rs: the
-- accounts and the arguments of a message and of its quote, as the program on chain reads them.
pub mod Checks
use lendmirror.Common.{
  ℕ, Bool, true, false, ◌||◌, Option, none, some, List, [], ◌∷◌, if◌then◌else◌, ◌==◌,
}
use lendmirror.Common.Keys.{eqb, contains}
use lendmirror.Common.Text.{codes}
use lendmirror.Common.Int.{ℤ}
use lendmirror.Common.Outcome.{Result, ok, err, ◌>>=◌, ◌>>◌, guard, require}
use lendmirror.Bytes.{Bytes, zeros, le_bytes, be_bytes}
use lendmirror.Pda.{Key, FindPda}
use lendmirror.Ix.{AccountMeta, readonly, writable, signer_meta}
use lendmirror.Known.{native_mint, token_program, system_program}
use lendmirror.Ccip.{CcipRouteAccount}
use lendmirror.LzSend.Program.{SendError, not_a_send, take_bytes, take_le, take_vec}

pub data ProgramError : Type 0 where
  not_enough_keys constraint_mut not_signer account_not_initialized constraint_seeds
        constraint_address constraint_owner unauthorized invalid_ccip_account
        invalid_jupiter_account no_position_snapshot snapshot_already_sent invalid_options :
      ProgramError

pub record OndemandList : Type 0 where
  pub wrapper : Key
  pub callers : List Key

-- What the checks read on chain: the senders of the Store, the ids in a wrapper, the lists of callers,
-- the CCIP route, the owner of an account, whether it holds data, the time of a wrapper's snapshot if
-- it has one, and of the last one that was sent; and whether LayerZero's library can combine the
-- options that a peer enforces with others.
pub record ProgramState : Type 0 where
  pub senders : List Key
  pub wrapper_ids : Key → Option (ℕ × ℕ)
  pub ondemand_list : Key → Option OndemandList
  pub ccip_route : Key → Option CcipRouteAccount
  pub owner : Key → Key
  pub data_is_empty : Key → Bool
  pub snapshot_time : Key → Option ℤ
  pub last_sent_snapshot_time : Key → ℤ
  pub combines : (peer : Key) → (options : Bytes) → Bool

-- The next account, with what is demanded of it: `mut`, `Signer`.
unfoldable pub take_account :
    (mut' signer' : Bool) → List AccountMeta → Result ProgramError (Key × List AccountMeta)
take_account mut' signer' [] = err not_enough_keys
take_account mut' signer' (m ∷ ms) = do
  guard (if mut' then m.is_writable else true) constraint_mut
  guard (if signer' then m.is_signer else true) not_signer
  ok (m.pubkey, ms)

-- `Option<Account>`: the program's own id stands for none.
unfoldable pub take_optional_account :
    Key → List AccountMeta → Result ProgramError (Option Key × List AccountMeta)
unfolding take_account
take_optional_account program_id ms = do
  (key, rest) ← take_account false false ms
  ok (if eqb key program_id then none else some key, rest)

pub record SendContext : Type 0 where
  pub authority : Key
  pub ondemand : Option Key
  pub wrapper : Key
  pub store : Key
  pub peer : Key
  pub endpoint : Key
  pub ccip_payer : Key
  pub ccip_route : Key
  pub config : Key
  pub dest_chain_state : Key
  pub nonce : Key
  pub system_program : Key
  pub fee_token_program : Key
  pub fee_token_mint : Key
  pub fee_token_user : Key
  pub fee_token_receiver : Key
  pub fee_billing_signer : Key
  pub fee_quoter : Key
  pub fee_quoter_config : Key
  pub fee_quoter_dest_chain : Key
  pub fee_quoter_billing_token_config : Key
  pub fee_quoter_link_token_config : Key
  pub rmn_remote : Key
  pub rmn_remote_curses : Key
  pub rmn_remote_config : Key
  pub token_pools_signer : Key
  pub ccip_router : Key

-- The accounts in the order of the struct.
unfoldable pub read_send_context :
    Key → List AccountMeta → Result ProgramError (SendContext × List AccountMeta)
unfolding take_account take_optional_account
read_send_context program_id m0 = do
  (authority, m1) ← take_account true true m0
  (ondemand, m2) ← take_optional_account program_id m1
  (wrapper, m3) ← take_account true false m2
  (store, m4) ← take_account false false m3
  (peer, m5) ← take_account false false m4
  (endpoint, m6) ← take_account false false m5
  (ccip_payer, m7) ← take_account true false m6
  (ccip_route, m8) ← take_account false false m7
  (config, m9) ← take_account false false m8
  (dest_chain_state, m10) ← take_account true false m9
  (nonce, m11) ← take_account true false m10
  (system_program, m12) ← take_account false false m11
  (fee_token_program, m13) ← take_account false false m12
  (fee_token_mint, m14) ← take_account false false m13
  (fee_token_user, m15) ← take_account false false m14
  (fee_token_receiver, m16) ← take_account true false m15
  (fee_billing_signer, m17) ← take_account false false m16
  (fee_quoter, m18) ← take_account false false m17
  (fee_quoter_config, m19) ← take_account false false m18
  (fee_quoter_dest_chain, m20) ← take_account false false m19
  (fee_quoter_billing_token_config, m21) ← take_account false false m20
  (fee_quoter_link_token_config, m22) ← take_account false false m21
  (rmn_remote, m23) ← take_account false false m22
  (rmn_remote_curses, m24) ← take_account false false m23
  (rmn_remote_config, m25) ← take_account false false m24
  (token_pools_signer, m26) ← take_account true false m25
  (ccip_router, m27) ← take_account false false m26
  ok (
    record {
      authority = authority;
      ondemand = ondemand;
      wrapper = wrapper;
      store = store;
      peer = peer;
      endpoint = endpoint;
      ccip_payer = ccip_payer;
      ccip_route = ccip_route;
      config = config;
      dest_chain_state = dest_chain_state;
      nonce = nonce;
      system_program = system_program;
      fee_token_program = fee_token_program;
      fee_token_mint = fee_token_mint;
      fee_token_user = fee_token_user;
      fee_token_receiver = fee_token_receiver;
      fee_billing_signer = fee_billing_signer;
      fee_quoter = fee_quoter;
      fee_quoter_config = fee_quoter_config;
      fee_quoter_dest_chain = fee_quoter_dest_chain;
      fee_quoter_billing_token_config = fee_quoter_billing_token_config;
      fee_quoter_link_token_config = fee_quoter_link_token_config;
      rmn_remote = rmn_remote;
      rmn_remote_curses = rmn_remote_curses;
      rmn_remote_config = rmn_remote_config;
      token_pools_signer = token_pools_signer;
      ccip_router = ccip_router;
    },
    m27,
  )

-- `send_chainlink`: the accounts that the router's `ccip_send` is called with.
unfoldable pub router_metas : SendContext → List AccountMeta
router_metas a =
    readonly a.config
    ∷ writable a.dest_chain_state
    ∷ writable a.nonce
    ∷ signer_meta a.ccip_payer
    ∷ readonly a.system_program
    ∷ readonly a.fee_token_program
    ∷ readonly a.fee_token_mint
    ∷ readonly a.fee_token_user
    ∷ writable a.fee_token_receiver
    ∷ readonly a.fee_billing_signer
    ∷ readonly a.fee_quoter
    ∷ readonly a.fee_quoter_config
    ∷ readonly a.fee_quoter_dest_chain
    ∷ readonly a.fee_quoter_billing_token_config
    ∷ readonly a.fee_quoter_link_token_config
    ∷ readonly a.rmn_remote
    ∷ readonly a.rmn_remote_curses
    ∷ readonly a.rmn_remote_config
    ∷ writable a.token_pools_signer
    ∷ []

pub record QuoteContext : Type 0 where
  pub store : Key
  pub wrapper : Key
  pub peer : Key
  pub endpoint : Key

unfoldable pub read_quote_context :
    List AccountMeta → Result ProgramError (QuoteContext × List AccountMeta)
unfolding take_account
read_quote_context m0 = do
  (store, m1) ← take_account false false m0
  (wrapper, m2) ← take_account false false m1
  (peer, m3) ← take_account false false m2
  (endpoint, m4) ← take_account false false m3
  ok (record { store = store; wrapper = wrapper; peer = peer; endpoint = endpoint }, m4)

-- `SendPositionSnapshotViaChainlinkAndLzParams`
pub record SendParams : Type 0 where
  pub dst_eid : ℕ
  pub options : Bytes
  pub native_fee : ℕ
  pub lz_token_fee : ℕ
  pub ccip_fee_lamports : ℕ

-- The bytes behind the discriminator, which the dispatch of instructions has read.
unfoldable pub decode_send_params : Bytes → Result SendError SendParams
decode_send_params bs = do
  (dst_eid, b1) ← take_le 4 bs
  (options, b2) ← take_vec b1
  (native_fee, b3) ← take_le 8 b2
  (lz_token_fee, b4) ← take_le 8 b3
  (ccip_fee_lamports, b5) ← take_le 8 b4
  ok (record {
    dst_eid = dst_eid;
    options = options;
    native_fee = native_fee;
    lz_token_fee = lz_token_fee;
    ccip_fee_lamports = ccip_fee_lamports;
  })

pub record QuoteSendParams : Type 0 where
  pub dst_eid : ℕ
  pub receiver : Bytes
  pub options : Bytes
  pub pay_in_lz_token : Bool

-- Borsh: a byte that is 0 or 1.
unfoldable pub take_bool : Bytes → Result SendError (Bool × Bytes)
take_bool [] = err not_a_send
take_bool (b ∷ bs) =
    if b == 0 then ok (false, bs) else (if b == 1 then ok (true, bs) else err not_a_send)

unfoldable pub decode_quote_params : Bytes → Result SendError QuoteSendParams
decode_quote_params bs = do
  (dst_eid, b1) ← take_le 4 bs
  (receiver, b2) ← take_bytes 32 b1
  (options, b3) ← take_vec b2
  (pay_in_lz_token, b4) ← take_bool b3
  ok (record {
    dst_eid = dst_eid;
    receiver = receiver;
    options = options;
    pay_in_lz_token = pay_in_lz_token;
  })
