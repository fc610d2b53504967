-- ===== src/LzSend.antt =====
-- lib/client/lzSend.ts: the `send` instruction of a token's issuer. LayerZero's SDK, which reads the
-- send library and the accounts of a send from the chain, is a parameter.
pub mod Data
pub mod Accounts
pub mod Program
pub mod Build
use lendmirror.Common.{ℕ, ◌+◌, ◌-◌, ◌*◌, ◌/◌, suc, Option, none, some, List, [], ◌∷◌, ◌++◌, length}
use lendmirror.Common.{map, ◌%◌}
use lendmirror.Common.Int.{ℤ, pos, negsuc, sub_ℕ}
use lendmirror.Common.Outcome.{Result, ok, err, ◌>>=◌, ◌>>◌, require, map_err}
use lendmirror.Common.Text.{codes}
use lendmirror.Bytes.{
  Bytes, RangeError, out_of_range, le_bytes, checked_le, checked_be, zeros, slice,
}
use lendmirror.Bytes.Writes.{Write, write_all}
use lendmirror.Pda.{Key, FindPda}
use lendmirror.Config.{LzIssuer, standard_oft, usdt0, usdai, LzTokenProfile}
use lendmirror.Ix.{AccountMeta, Instruction, writable, readonly, signer_meta}

abbrev pub oft_send_discriminator : Bytes
oft_send_discriminator = 102 ∷ 251 ∷ 20 ∷ 187 ∷ 65 ∷ 75 ∷ 12 ∷ 69 ∷ []

unfoldable pub issuer_source_index : LzIssuer → ℕ
issuer_source_index (standard_oft escrow) = 3
issuer_source_index (usdt0 escrow) = 4
issuer_source_index (usdai s p f d r t) = 9

unfoldable pub token_source_index : LzTokenProfile → ℕ
unfolding issuer_source_index
token_source_index token = issuer_source_index token.issuer

pub record OftSend : Type 0 where
  pub dst_eid : ℕ
  pub to : Bytes
  pub amount_ld : ℤ
  pub min_amount_ld : ℤ
  pub options : Bytes
  pub native_fee : ℤ

-- `writeBigUInt64LE` of a bigint, which may be negative.
unfoldable pub checked_u64 : ℤ → Result RangeError Bytes
checked_u64 (pos n) = checked_le 8 n
checked_u64 (negsuc n) = err out_of_range

-- The length of the options, `n`, moves what stands behind them.
unfoldable pub oft_send_writes : Bytes → OftSend → ℕ → Bytes → Bytes → Bytes → Bytes → List Write
oft_send_writes eid args n amount min_amount size fee =
    (0, oft_send_discriminator)
    ∷ (8, eid)
    ∷ (12, args.to)
    ∷ (44, amount)
    ∷ (52, min_amount)
    ∷ (60, size)
    ∷ (64, args.options)
    ∷ (64 + n, 0 ∷ [])
    ∷ (65 + n, fee)
    ∷ (73 + n, zeros 8)
    ∷ []

unfoldable pub oft_send_data : OftSend → Result RangeError Bytes
unfolding oft_send_writes checked_u64
oft_send_data args = do
  eid ← checked_le 4 args.dst_eid
  amount ← checked_u64 args.amount_ld
  min_amount ← checked_u64 args.min_amount_ld
  size ← checked_le 4 (length args.options)
  fee ← checked_u64 args.native_fee
  write_all (oft_send_writes eid args (length args.options) amount min_amount size fee)
      (zeros (81 + length args.options))

-- Division of bigints rounds towards zero.
unfoldable pub lz_min_amount : ℤ → ℕ → ℤ
lz_min_amount (pos n) bps = sub_ℕ n (n * bps / 10000)
lz_min_amount (negsuc n) bps = sub_ℕ (suc n * bps / 10000) (suc n)

unfoldable pub eid_bytes : ℕ → Result RangeError Bytes
eid_bytes eid = checked_be 4 eid

pub data LzError : Type 0 where
  -- `the issuer has no record for destination …`
  no_peer : LzError
  -- `no LayerZero send library set for destination …`
  no_library : LzError
  range : LzError

-- The issuer's own accounts, with the two that LayerZero needs to know.
pub record IssuerAccounts : Type 0 where
  pub metas : List AccountMeta
  pub store : Key
  pub peer : Key

module _ (find_pda : FindPda) where
  module _ (token : LzTokenProfile) (signer token_source : Key) (eid : Bytes) where
    unfoldable pub event_authority : Key
    event_authority = find_pda token.issuer_program (codes "__event_authority" ∷ [])

    unfoldable pub standard_oft_accounts : Key → IssuerAccounts
    unfolding event_authority
    standard_oft_accounts escrow =
        let store = find_pda token.issuer_program (codes "OFT" ∷ escrow ∷ []) in
        let peer = find_pda token.issuer_program (codes "Peer" ∷ store ∷ eid ∷ []) in
        record {
          store = store;
          peer = peer;
          metas =
              signer_meta signer
              ∷ writable peer
              ∷ writable store
              ∷ writable token_source
              ∷ writable escrow
              ∷ writable token.mint
              ∷ readonly token.token_program
              ∷ readonly event_authority
              ∷ readonly token.issuer_program
              ∷ [];
        }

    unfoldable pub usdt0_accounts : Key → IssuerAccounts
    unfolding event_authority
    usdt0_accounts escrow =
        let store = find_pda token.issuer_program (codes "OFT" ∷ []) in
        let peer = find_pda token.issuer_program (codes "Peer" ∷ eid ∷ []) in
        let credits = find_pda token.issuer_program (codes "Credits" ∷ []) in
        record {
          store = store;
          peer = peer;
          metas =
              signer_meta signer
              ∷ readonly peer
              ∷ writable store
              ∷ writable credits
              ∷ writable token_source
              ∷ writable escrow
              ∷ readonly token.mint
              ∷ readonly token.token_program
              ∷ readonly event_authority
              ∷ readonly token.issuer_program
              ∷ [];
        }

    unfoldable pub usdai_accounts : (s pause fee default_limit limit deposit : Key) → IssuerAccounts
    unfolding event_authority
    usdai_accounts store pause_config fee_config default_rate_limit rate_limit fee_deposit =
        let peer = find_pda token.issuer_program (codes "Peer" ∷ store ∷ eid ∷ []) in
        let enforced_options =
          find_pda token.issuer_program
            (codes "EnforcedOptions" ∷ store ∷ eid ∷ (0 ∷ 1 ∷ []) ∷ []) in
        let exemption =
          find_pda token.issuer_program (codes "RateLimitExemption" ∷ store ∷ signer ∷ []) in
        let escrow = find_pda token.issuer_program (codes "Escrow" ∷ store ∷ []) in
        record {
          store = store;
          peer = peer;
          metas =
              signer_meta signer
              ∷ readonly store
              ∷ readonly peer
              ∷ readonly enforced_options
              ∷ readonly pause_config
              ∷ readonly fee_config
              ∷ writable default_rate_limit
              ∷ writable rate_limit
              ∷ readonly exemption
              ∷ writable token_source
              ∷ writable escrow
              ∷ writable fee_deposit
              ∷ writable token.mint
              ∷ readonly token.token_program
              ∷ readonly event_authority
              ∷ readonly token.issuer_program
              ∷ [];
        }

    unfoldable pub accounts_of : LzIssuer → IssuerAccounts
    unfolding standard_oft_accounts usdt0_accounts usdai_accounts
    accounts_of (standard_oft escrow) = standard_oft_accounts escrow
    accounts_of (usdt0 escrow) = usdt0_accounts escrow
    accounts_of (usdai s p f d r t) = usdai_accounts s p f d r t

  unfoldable pub issuer_accounts : LzTokenProfile → Key → Key → Result RangeError IssuerAccounts
  unfolding accounts_of eid_bytes
  issuer_accounts token signer token_source = do
    eid ← eid_bytes token.dst_eid
    ok (accounts_of token signer token_source eid token.issuer)

  module _ (get_account : Key → Option Bytes) (get_send_library : Key → ℕ → Option Key)
      (send_metas : Key → Key → ℕ → Bytes → Key → List AccountMeta) where
    -- The receiver is the 32 bytes behind the tag of the peer's record.
    unfoldable pub layer_zero_accounts :
        LzTokenProfile → (store peer payer : Key) → Result LzError (List AccountMeta)
    layer_zero_accounts token store peer payer = do
      peer_account ← require (get_account peer) no_peer
      library ← require (get_send_library store token.dst_eid) no_library
      ok (send_metas payer store token.dst_eid (slice 8 40 peer_account) library)

    -- `native_fee` is optional.
    unfoldable pub build_issuer_send :
        LzTokenProfile
        → (signer token_source : Key) → (receiver : Bytes) → (amount : ℤ) → (native_fee : Option ℤ)
        → Result LzError Instruction
    build_issuer_send token signer token_source receiver amount native_fee = do
      own ← map_err (λ _. range) (issuer_accounts token signer token_source)
      others ← layer_zero_accounts token own.store own.peer signer
      payload ←
          map_err (λ _. range)
            (oft_send_data (record {
              dst_eid = token.dst_eid;
              to = receiver;
              amount_ld = amount;
              min_amount_ld = lz_min_amount amount token.min_under_bps;
              options = map (λ b. b % 256) token.options;
              native_fee = elim native_fee [
                | none ↦ token.native_fee_cap_lamports
                | some fee ↦ fee
              ];
            }))
      ok (record { program_id = token.issuer_program; keys = own.metas ++ others; data' = payload })
