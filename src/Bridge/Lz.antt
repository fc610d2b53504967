-- ===== src/Bridge/Lz.antt =====
-- lib/client/bridge.ts, lines 325-374: `bridge_tokens_lz`.
use lendmirror.Common.{Option, []}
use lendmirror.Common.Outcome.{Result, ok, ◌>>=◌, map_err}
use lendmirror.Pda.{Key, FindPda}
use lendmirror.Pda.Lendmirror.{oapp, wrapper, wrapper_authority, bridge_route_address}
use lendmirror.Known.{associated_token_program}
use lendmirror.Bridge.{BridgeError, range, BridgeTokensArgs, BridgeTokensParams}

pub record BridgeTokensLzInput : Type 0 where
  pub authority : Key
  pub store : Key
  pub wrapper : Key
  pub ondemand : Option Key
  pub wrapper_authority : Key
  pub bridge_route : Key
  pub mint : Key
  pub wrapper_ata : Key
  pub authority_ata : Key
  pub token_program : Key
  pub associated_token_program : Key
  pub params : BridgeTokensParams

module _ (find_pda : FindPda) (program_id : Key) (ata : Key → Key → Key → Key) (authority : Key)
    (args : BridgeTokensArgs) (token_program : Key) (ondemand : Option Key) where
  unfoldable pub lz_input : Key → BridgeTokensLzInput
  lz_input bridge_route =
      let w = wrapper find_pda program_id args.vault_id args.nft_id in
      let w_authority = wrapper_authority find_pda program_id w in
      record {
        authority = authority;
        store = oapp find_pda program_id;
        wrapper = w;
        ondemand = ondemand;
        wrapper_authority = w_authority;
        bridge_route = bridge_route;
        mint = args.mint;
        wrapper_ata = ata w_authority args.mint token_program;
        authority_ata = ata authority args.mint token_program;
        token_program = token_program;
        associated_token_program = associated_token_program;
        params = record {
          amount = args.amount;
          dst_chain_id = args.dst_chain_id;
          max_fee = 0;
          min_finality_threshold = 0;
          fee_lamports = 0;
          min_amount = 0;
          native_fee = 0;
          options = [];
        };
      }

  unfoldable pub bridge_tokens_lz : Result BridgeError BridgeTokensLzInput
  bridge_tokens_lz = do
    bridge_route ←
        map_err (λ _. range) (bridge_route_address find_pda program_id args.mint args.dst_chain_id)
    ok (lz_input bridge_route)
