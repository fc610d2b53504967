-- ===== src/LookupTable/Members.antt =====
-- Which accounts of the client's calls the table holds.
use lendmirror.Common.{ℕ, ◌≡◌, true, Option, some, List, [], ◌∷◌, All}
use lendmirror.Common.Keys.{contains, Distinct}
use lendmirror.Common.Outcome.{ok}
use lendmirror.Bytes.{Bytes}
use lendmirror.Pda.{Key, FindPda}
use lendmirror.Pda.Lendmirror.{ccip_route_address, ccip_payer_address}
use lendmirror.Ccip.{CcipRouteAccount, CcipSendAccounts, decode_ccip_route, ccip_send_accounts}
use lendmirror.Config.{CctpProfile}
use lendmirror.Bridge.{BridgeTokensArgs}
use lendmirror.Bridge.Cctp.{BridgeTokensCctpInput, cctp_input}
use lendmirror.LookupTable.{add_all}
use lendmirror.LookupTable.Wanted.{send_values, cctp_values, fixed_keys, cctp_keys}

abbrev pub In : List Key → Key → Type 0
In ks k = contains k ks ≡ true

-- The accounts of a CCTP call that are the same for every position.
abbrev pub shared_accounts : BridgeTokensCctpInput → List Key
shared_accounts input =
    input.token_messenger_minter_program
    ∷ input.message_transmitter_program
    ∷ input.mint
    ∷ cctp_values input.cctp

module _ (find_pda : FindPda) (u32_be : ℕ → Bytes) (endpoint_setting program_id store : Key)
    (get_account : Key → Option Bytes) (dst_eid : ℕ) (cctp : Option CctpProfile) where
  -- No key twice. The program's own and LayerZero's keys are there; with a route on chain, Chainlink's
  -- programs and the accounts of a send over it; with Circle's profile, the accounts that every CCTP
  -- call of its mint and domain shares, and its signer.
  pub record IsWanted (ks : List Key) : Type 0 where
    pub distinct : Distinct ks
    pub fixed :
        All
          (In ks)
          (fixed_keys find_pda u32_be endpoint_setting program_id store get_account dst_eid)
    pub route :
        (account : Bytes) (route : CcipRouteAccount) (accounts : CcipSendAccounts)
        → get_account (ccip_route_address find_pda program_id) ≡ some account
        → decode_ccip_route account ≡ ok route
        → ccip_send_accounts find_pda route (ccip_payer_address find_pda program_id) ≡ ok accounts
        → All (In ks) (
            route.router
            ∷ route.fee_quoter
            ∷ route.rmn_remote
            ∷ route.link_mint
            ∷ send_values accounts)
    pub circle :
        (c : CctpProfile) (ata : Key → Key → Key → Key) (authority event_data : Key)
        (args : BridgeTokensArgs) (fee threshold : Option ℕ) (ondemand : Option Key)
        (bridge_route : Key)
        → cctp ≡ some c
        → args.mint ≡ c.usdc_mint
        → All (In ks) (
            shared_accounts (
              cctp_input find_pda program_id ata authority event_data args c.evm_domain fee
                threshold ondemand bridge_route))
          × In ks
              (cctp_input find_pda program_id ata authority event_data args c.evm_domain fee
                threshold ondemand bridge_route).bridge_signer

  fixed_of : List Key
  fixed_of = fixed_keys find_pda u32_be endpoint_setting program_id store get_account dst_eid

  circle_of : List Key
  circle_of = cctp_keys find_pda u32_be endpoint_setting program_id store get_account cctp

  module _ (from_route : List Key) where
    set_of : List Key
    set_of = add_all (add_all (add_all [] fixed_of) from_route) circle_of
