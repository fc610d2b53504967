-- ===== src/Bridge/Routes.antt =====
-- Every bridge reads the route that the admin sets for its mint and its chain.
use lendmirror.Common.{ℕ, arith, ◌≡◌, refl, Option, List, inl, inr}
use lendmirror.Common.Outcome.{ok, Result-cases}
use lendmirror.Bytes.{Bytes}
use lendmirror.Pda.{Key, FindPda}
use lendmirror.Pda.Lendmirror.{bridge_route_address, wrapper, wrapper_authority, ccip_payer_address}
use lendmirror.Ccip.{CcipRouteAccount, CcipSendAccounts, ccip_send_accounts}
use lendmirror.Bridge.{
  SetBridgeRouteArgs, SetBridgeRouteInput, set_bridge_route, evm_address_to_32, caller_bytes,
  BridgeTokensArgs, BridgeTokensParams,
}
use lendmirror.Bridge.Cctp.{BridgeTokensCctpInput, bridge_tokens_cctp, cctp_input}
use lendmirror.Bridge.Lz.{BridgeTokensLzInput, bridge_tokens_lz, lz_input}
use lendmirror.Bridge.Ccip.{BridgeTokensCcipInput, bridge_tokens_ccip, ccip_input}
use lendmirror.Bridge.TokenAccounts.{CcipTokenAccounts, ccip_token_remaining_accounts}

route_address_of :
    (find_pda : FindPda) (program_id admin : Key) (route : SetBridgeRouteArgs)
    (set : SetBridgeRouteInput)
    → set_bridge_route find_pda program_id admin route ≡ ok set
    → bridge_route_address find_pda program_id route.mint route.dst_chain_id ≡ ok set.bridge_route
unfolding set_bridge_route
route_address_of find_pda program_id admin route set e =
    elim (Result-cases (bridge_route_address find_pda program_id route.mint route.dst_chain_id)) [
      | inr (x, failed) ↦ ground arith
      | inl (k, found) ↦ elim (Result-cases (evm_address_to_32 route.receiver)) [
        | inr (x, failed) ↦ ground arith
        | inl (receiver, padded) ↦ elim (Result-cases (caller_bytes route.destination_caller)) [
          | inr (x, failed) ↦ ground arith
          | inl (caller, called) ↦ ground arith
        ]
      ]
    ]

module _ (find_pda : FindPda) (program_id admin authority : Key) (ata : Key → Key → Key → Key)
    (route : SetBridgeRouteArgs) (set : SetBridgeRouteInput) (args : BridgeTokensArgs)
    (ondemand : Option Key) where
  abbrev pub custody_ata : Key → Key
  custody_ata program =
      ata
        (wrapper_authority find_pda program_id
          (wrapper find_pda program_id args.vault_id args.nft_id))
        args.mint program

  -- What a bridge call of `args` has to name: the route account, the token account of the position's
  -- own authority, and the amount and chain asked for.
  pub record IsOnRoute (bridge_route wrapper_ata token_program : Key) (params : BridgeTokensParams)
      : Type 0 where
    pub on_route : bridge_route ≡ set.bridge_route
    pub from_custody : wrapper_ata ≡ custody_ata token_program
    pub amount : params.amount ≡ args.amount
    pub chain : params.dst_chain_id ≡ args.dst_chain_id

  -- If the admin's instruction for a mint and a chain is built, and the accounts of a CCIP send of
  -- the mint are found, then the calls over CCTP, over LayerZero and over CCIP for that mint and
  -- chain are all built. All three name the route account that the admin sets, take the tokens from
  -- the position's own authority, and carry the amount and the chain asked for.
  pub bridges-route :
      (event_data : Key) (domain : ℕ) (fee threshold : Option ℕ) (program : Key)
      (owner_of : Key → Option Key) (get_account : Key → Option Bytes)
      (get_table : Key → Option (List Key)) (ccip : CcipRouteAccount) (fee_lamports : ℕ)
      (send : CcipSendAccounts) (tokens : CcipTokenAccounts)
      → set_bridge_route find_pda program_id admin route ≡ ok set
      → args.mint ≡ route.mint
      → args.dst_chain_id ≡ route.dst_chain_id
      → ccip_send_accounts find_pda ccip (ccip_payer_address find_pda program_id) ≡ ok send
      → ccip_token_remaining_accounts find_pda ata owner_of get_account get_table ccip args.mint
          (ccip_payer_address find_pda program_id)
        ≡ ok tokens
      → ((input : BridgeTokensCctpInput) × (bridge_tokens_cctp find_pda program_id ata authority
              event_data args domain fee threshold ondemand
            ≡ ok input)
          × IsOnRoute input.bridge_route input.wrapper_ata input.token_program input.params)
        × ((input : BridgeTokensLzInput) × (bridge_tokens_lz find_pda program_id ata authority args
                program ondemand
              ≡ ok input)
            × IsOnRoute input.bridge_route input.wrapper_ata input.token_program input.params)
        × ((input : BridgeTokensCcipInput) × (bridge_tokens_ccip find_pda program_id ata owner_of
                get_account get_table authority args ccip fee_lamports ondemand
              ≡ ok (input, tokens.lookup_table))
            × IsOnRoute input.bridge_route input.wrapper_ata input.token_program input.params)
  unfolding bridge_tokens_cctp cctp_input bridge_tokens_lz lz_input bridge_tokens_ccip ccip_input
  bridges-route event_data domain fee threshold program owner_of get_account get_table ccip
        fee_lamports send tokens is_set same_mint same_chain s t =
      let found : bridge_route_address find_pda program_id args.mint args.dst_chain_id
          ≡ ok set.bridge_route =
        rw (same_mint, same_chain) (route_address_of find_pda program_id admin route set is_set) in
      (
        (
          cctp_input find_pda program_id ata authority event_data args domain fee threshold ondemand
              set.bridge_route,
          rw found refl,
          record { on_route = refl; from_custody = refl; amount = refl; chain = refl },
        ),
        (
          lz_input find_pda program_id ata authority args program ondemand set.bridge_route,
          rw found refl,
          record { on_route = refl; from_custody = refl; amount = refl; chain = refl },
        ),
        (
          ccip_input find_pda program_id ata owner_of get_account get_table authority args ccip
              fee_lamports ondemand send tokens set.bridge_route,
          rw (s, t, found) refl,
          record { on_route = refl; from_custody = refl; amount = refl; chain = refl },
        ),
      )
