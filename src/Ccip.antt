-- ===== src/Ccip.antt =====
-- lib/client/ccip.ts: the CCIP route account, the accounts of a CCIP send, and the instruction that
-- sets the route.
pub mod Route
use lendmirror.Common.{
  ℕ, ◌+◌, ◌^◌, Bool, true, false, ◌&&◌, List, [], ◌∷◌, ◌++◌, length, ltb, ◌==◌, if◌then◌else◌, take,
}
use lendmirror.Common.Keys.{eqb}
use lendmirror.Common.Outcome.{Result, ok, err, ◌>>=◌, ◌>>◌, guard, map_err}
use lendmirror.Common.Text.{codes}
use lendmirror.Bytes.{Bytes, RangeError, read_le, checked_le, slice}
use lendmirror.Pda.{Key, FindPda}
use lendmirror.Pda.Lendmirror.{ccip_route_address}
use lendmirror.Ix.{AccountMeta, Instruction, writable, readonly, signer_meta}
use lendmirror.Known.{native_mint, token_program, associated_token_program, system_program}
use lendmirror.Hex.{to_hex}

abbrev pub set_ccip_route_discriminator : Bytes
set_ccip_route_discriminator = 224 ∷ 164 ∷ 215 ∷ 196 ∷ 56 ∷ 195 ∷ 20 ∷ 30 ∷ []

abbrev pub ccip_route_discriminator : Bytes
ccip_route_discriminator = 61 ∷ 87 ∷ 7 ∷ 199 ∷ 227 ∷ 253 ∷ 152 ∷ 120 ∷ []

pub record CcipRouteAccount : Type 0 where
  pub router : Key
  pub fee_quoter : Key
  pub rmn_remote : Key
  pub link_mint : Key
  pub dest_chain_selector : ℕ
  pub receiver : List ℕ
  pub gas_limit : ℕ

pub data CcipError : Type 0 where
  -- `CcipRoute account is too short.`
  too_short : CcipError
  -- `Account is not a CcipRoute.`
  not_a_ccip_route : CcipError
  -- `Ethereum receiver must be 20 bytes.`
  bad_receiver : CcipError
  range : CcipError

unfoldable pub u64le : ℕ → Result RangeError Bytes
u64le value = checked_le 8 value

unfoldable pub read_pubkey : Bytes → ℕ → Key
read_pubkey account offset = slice offset (offset + 32) account

unfoldable pub decode_ccip_route : Bytes → Result CcipError CcipRouteAccount
decode_ccip_route account =
    if ltb (length account) (8 + 128 + 8 + 20 + 8 + 1)
    then err too_short
    else (guard (eqb (slice 0 8 account) ccip_route_discriminator) not_a_ccip_route
        >> map_err (λ _. range)
            (do
              dest_chain_selector ← read_le 8 0 (slice 136 144 account)
              gas_limit ← read_le 8 0 (slice 164 172 account)
              ok (record {
                router = read_pubkey account 8;
                fee_quoter = read_pubkey account 40;
                rmn_remote = read_pubkey account 72;
                link_mint = read_pubkey account 104;
                dest_chain_selector = dest_chain_selector;
                receiver = codes "0x" ++ to_hex (slice 144 164 account);
                gas_limit = gas_limit;
              })))

-- The accounts that `ccip_send` wants, by the seeds of Chainlink's programs.
pub record CcipSendAccounts : Type 0 where
  pub config : Key
  pub dest_chain_state : Key
  pub nonce : Key
  pub fee_token_mint : Key
  pub fee_token_user : Key
  pub fee_token_receiver : Key
  pub fee_billing_signer : Key
  pub fee_quoter_config : Key
  pub fee_quoter_dest_chain : Key
  pub fee_quoter_billing_token_config : Key
  pub fee_quoter_link_token_config : Key
  pub rmn_remote_curses : Key
  pub rmn_remote_config : Key
  pub token_pools_signer : Key

pub record SetCcipRouteArgs : Type 0 where
  pub program_id : Key
  pub admin : Key
  pub store : Key
  pub router : Key
  pub fee_quoter : Key
  pub rmn_remote : Key
  pub link_mint : Key
  pub dest_chain_selector : ℕ
  pub receiver : Bytes
  pub gas_limit : ℕ

module _ (find_pda : FindPda) where
  unfoldable pub send_accounts : CcipRouteAccount → (payer selector : Bytes) → CcipSendAccounts
  send_accounts route payer selector =
      let fee_billing_signer = find_pda route.router (codes "fee_billing_signer" ∷ []) in
      record {
        config = find_pda route.router (codes "config" ∷ []);
        dest_chain_state = find_pda route.router (codes "dest_chain_state" ∷ selector ∷ []);
        nonce = find_pda route.router (codes "nonce" ∷ selector ∷ payer ∷ []);
        fee_token_mint = native_mint;
        fee_token_user = system_program;
        fee_token_receiver =
            find_pda associated_token_program
              (fee_billing_signer ∷ token_program ∷ native_mint ∷ []);
        fee_billing_signer = fee_billing_signer;
        fee_quoter_config = find_pda route.fee_quoter (codes "config" ∷ []);
        fee_quoter_dest_chain = find_pda route.fee_quoter (codes "dest_chain" ∷ selector ∷ []);
        fee_quoter_billing_token_config =
            find_pda route.fee_quoter (codes "fee_billing_token_config" ∷ native_mint ∷ []);
        fee_quoter_link_token_config =
            find_pda route.fee_quoter (codes "fee_billing_token_config" ∷ route.link_mint ∷ []);
        rmn_remote_curses = find_pda route.rmn_remote (codes "curses" ∷ []);
        rmn_remote_config = find_pda route.rmn_remote (codes "config" ∷ []);
        token_pools_signer = find_pda route.router (codes "external_token_pools_signer" ∷ []);
      }

  unfoldable pub ccip_send_accounts : CcipRouteAccount → Key → Result RangeError CcipSendAccounts
  ccip_send_accounts route payer = do
    selector ← u64le route.dest_chain_selector
    ok (send_accounts route payer selector)

  unfoldable pub set_ccip_route_instruction : SetCcipRouteArgs → Result CcipError Instruction
  set_ccip_route_instruction args =
      guard (length args.receiver == 20) bad_receiver
      >> map_err (λ _. range)
          (do
            selector ← u64le args.dest_chain_selector
            gas_limit ← u64le args.gas_limit
            ok (record {
              program_id = args.program_id;
              keys =
                  signer_meta args.admin
                  ∷ writable (ccip_route_address find_pda args.program_id)
                  ∷ readonly args.store
                  ∷ readonly system_program
                  ∷ [];
              data' =
                  set_ccip_route_discriminator
                  ++ (args.router
                      ++ (args.fee_quoter
                          ++ (args.rmn_remote
                              ++ (args.link_mint ++ (selector ++ (args.receiver ++ gas_limit))))));
            }))
