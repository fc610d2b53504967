-- ===== src/Instructions/Message.antt =====
-- lib/client/generated/lendmirror/instructions, sendPositionSnapshotViaChainlinkAndLz.ts and
-- quoteSend.ts: the accounts in the order of their indices, and the bytes of the arguments.
use lendmirror.Common.{ℕ, Bool, Option, List, [], ◌∷◌, ◌++◌, length}
use lendmirror.Common.Outcome.{Result, ok, ◌>>=◌, require}
use lendmirror.Bytes.{Bytes}
use lendmirror.Pda.{Key}
use lendmirror.Known.{token_program, system_program}
use lendmirror.Ccip.{CcipRouteAccount, CcipSendAccounts}
use lendmirror.Instructions.{ResolvedAccount, read_only, read_write, address, signer, optional}

-- umi's serializers. A number that does not fit is refused.
pub record Serializers : Type 0 where
  pub u32 : ℕ → Option Bytes
  pub u64 : ℕ → Option Bytes
  pub fixed : ℕ → Bytes → Bytes
  pub bool : Bool → Bytes

-- What a serializer throws.
pub data BadNumber : Type 0 where
  bad_number : BadNumber

pub record SendInput : Type 0 where
  pub authority : Key
  pub ondemand : Option Key
  pub wrapper_key : Key
  pub store : Key
  pub peer_key : Key
  pub endpoint : Key
  pub ccip_payer : Key
  pub ccip_route : Key
  pub route : CcipRouteAccount
  pub accounts : CcipSendAccounts

abbrev pub send_discriminator : Bytes
send_discriminator = 49 ∷ 157 ∷ 136 ∷ 45 ∷ 82 ∷ 67 ∷ 202 ∷ 252 ∷ []

abbrev pub quote_discriminator : Bytes
quote_discriminator = 207 ∷ 0 ∷ 49 ∷ 214 ∷ 160 ∷ 211 ∷ 76 ∷ 211 ∷ []

-- `resolvedAccounts`, in the order of their indices.
unfoldable pub send_slots : SendInput → List ResolvedAccount
send_slots i =
    read_write (signer i.authority)
    ∷ read_only (optional i.ondemand)
    ∷ read_write (address i.wrapper_key)
    ∷ read_only (address i.store)
    ∷ read_only (address i.peer_key)
    ∷ read_only (address i.endpoint)
    ∷ read_write (address i.ccip_payer)
    ∷ read_only (address i.ccip_route)
    ∷ read_only (address i.accounts.config)
    ∷ read_write (address i.accounts.dest_chain_state)
    ∷ read_write (address i.accounts.nonce)
    ∷ read_only (address system_program)
    ∷ read_only (address token_program)
    ∷ read_only (address i.accounts.fee_token_mint)
    ∷ read_only (address i.accounts.fee_token_user)
    ∷ read_write (address i.accounts.fee_token_receiver)
    ∷ read_only (address i.accounts.fee_billing_signer)
    ∷ read_only (address i.route.fee_quoter)
    ∷ read_only (address i.accounts.fee_quoter_config)
    ∷ read_only (address i.accounts.fee_quoter_dest_chain)
    ∷ read_only (address i.accounts.fee_quoter_billing_token_config)
    ∷ read_only (address i.accounts.fee_quoter_link_token_config)
    ∷ read_only (address i.route.rmn_remote)
    ∷ read_only (address i.accounts.rmn_remote_curses)
    ∷ read_only (address i.accounts.rmn_remote_config)
    ∷ read_write (address i.accounts.token_pools_signer)
    ∷ read_only (address i.route.router)
    ∷ []

unfoldable pub quote_slots : (store wrapper_key peer_key endpoint : Key) → List ResolvedAccount
quote_slots store wrapper_key peer_key endpoint =
    read_only (address store)
    ∷ read_only (address wrapper_key)
    ∷ read_only (address peer_key)
    ∷ read_only (address endpoint)
    ∷ []

pub record SendArgs : Type 0 where
  pub dst_eid : ℕ
  pub options : Bytes
  pub native_fee : ℕ
  pub lz_token_fee : ℕ
  pub ccip_fee_lamports : ℕ

pub record QuoteArgs : Type 0 where
  pub dst_eid : ℕ
  pub receiver : Bytes
  pub options : Bytes
  pub pay_in_lz_token : Bool

module _ (ser : Serializers) where
  unfoldable pub send_data : SendArgs → Result BadNumber Bytes
  send_data a = do
    eid ← require (ser.u32 a.dst_eid) bad_number
    size ← require (ser.u32 (length a.options)) bad_number
    native_fee ← require (ser.u64 a.native_fee) bad_number
    lz_token_fee ← require (ser.u64 a.lz_token_fee) bad_number
    lamports ← require (ser.u64 a.ccip_fee_lamports) bad_number
    ok (
        send_discriminator
        ++ (eid ++ (size ++ (a.options ++ (native_fee ++ (lz_token_fee ++ lamports))))))

  unfoldable pub quote_data : QuoteArgs → Result BadNumber Bytes
  quote_data a = do
    eid ← require (ser.u32 a.dst_eid) bad_number
    size ← require (ser.u32 (length a.options)) bad_number
    ok (
        quote_discriminator
        ++ (eid
            ++ (ser.fixed 32 a.receiver ++ (size ++ (a.options ++ ser.bool a.pay_in_lz_token)))))
