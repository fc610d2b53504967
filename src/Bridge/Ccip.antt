-- ===== src/Bridge/Ccip.antt =====
-- lib/client/bridge.ts, lines 248-323: `bridge_tokens_ccip`.
use lendmirror.Common.{ℕ, Option, [], List}
use lendmirror.Common.Outcome.{Result, ok, ◌>>=◌, map_err}
use lendmirror.Bytes.{Bytes}
use lendmirror.Pda.{Key, FindPda}
use lendmirror.Pda.Lendmirror.{
  oapp, wrapper, wrapper_authority, bridge_route_address, ccip_payer_address, ccip_route_address,
}
use lendmirror.Ix.{AccountMeta}
use lendmirror.Known.{associated_token_program, token_program}
use lendmirror.Ccip.{CcipRouteAccount, CcipSendAccounts, ccip_send_accounts}
use lendmirror.Bridge.{BridgeError, range, BridgeTokensArgs, BridgeTokensParams}
use lendmirror.Bridge.TokenAccounts.{CcipTokenAccounts, ccip_token_remaining_accounts}

pub record BridgeTokensCcipInput : Type 0 where
  pub authority : Key
  pub store : Key
  pub wrapper : Key
  pub ondemand : Option Key
  pub wrapper_authority : Key
  pub bridge_signer : Key
  pub bridge_route : Key
  pub mint : Key
  pub wrapper_ata : Key
  pub bridge_ata : Key
  pub token_program : Key
  pub associated_token_program : Key
  pub ccip_route : Key
  pub fee_token_program : Key
  -- `config` to `rmnRemoteConfig`; the signer of the token pools is not used here
  pub send : CcipSendAccounts
  pub fee_quoter : Key
  pub rmn_remote : Key
  pub ccip_router : Key
  pub params : BridgeTokensParams
  pub remaining : List AccountMeta

module _ (find_pda : FindPda) (program_id : Key) (ata : Key → Key → Key → Key)
    (owner_of : Key → Option Key) (get_account : Key → Option Bytes)
    (get_table : Key → Option (List Key)) where
  unfoldable pub ccip_input :
      (authority : Key)
      → BridgeTokensArgs
      → CcipRouteAccount
      → (fee_lamports : ℕ) → (ondemand : Option Key) → CcipSendAccounts
      → CcipTokenAccounts
      → (bridge_route : Key) → BridgeTokensCcipInput
  ccip_input authority args route fee_lamports ondemand send tokens bridge_route =
      let w = wrapper find_pda program_id args.vault_id args.nft_id in
      let w_authority = wrapper_authority find_pda program_id w in
      let bridge_signer = ccip_payer_address find_pda program_id in
      record {
        authority = authority;
        store = oapp find_pda program_id;
        wrapper = w;
        ondemand = ondemand;
        wrapper_authority = w_authority;
        bridge_signer = bridge_signer;
        bridge_route = bridge_route;
        mint = args.mint;
        wrapper_ata = ata w_authority args.mint tokens.token_program;
        bridge_ata = ata bridge_signer args.mint tokens.token_program;
        token_program = tokens.token_program;
        associated_token_program = associated_token_program;
        ccip_route = ccip_route_address find_pda program_id;
        fee_token_program = token_program;
        send = send;
        fee_quoter = route.fee_quoter;
        rmn_remote = route.rmn_remote;
        ccip_router = route.router;
        params = record {
          amount = args.amount;
          dst_chain_id = args.dst_chain_id;
          max_fee = 0;
          min_finality_threshold = 0;
          fee_lamports = fee_lamports;
          min_amount = 0;
          native_fee = 0;
          options = [];
        };
        remaining = tokens.accounts;
      }

  -- The instruction, and the lookup table that its transaction must name.
  unfoldable pub bridge_tokens_ccip :
      (authority : Key)
      → BridgeTokensArgs
      → CcipRouteAccount
      → (fee_lamports : ℕ) → (ondemand : Option Key)
      → Result BridgeError (BridgeTokensCcipInput × Key)
  bridge_tokens_ccip authority args route fee_lamports ondemand = do
    send ←
        map_err (λ _. range)
          (ccip_send_accounts find_pda route (ccip_payer_address find_pda program_id))
    tokens ←
        ccip_token_remaining_accounts find_pda ata owner_of get_account get_table route args.mint
          (ccip_payer_address find_pda program_id)
    bridge_route ←
        map_err (λ _. range) (bridge_route_address find_pda program_id args.mint args.dst_chain_id)
    ok (
      ccip_input authority args route fee_lamports ondemand send tokens bridge_route,
      tokens.lookup_table,
    )
