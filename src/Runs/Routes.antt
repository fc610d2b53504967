-- ===== src/Runs/Routes.antt =====
-- The bridge calls on a route.
use lendmirror.Common.{◌≡◌, refl, true, Option, none, some, List, [], ◌++◌}
use lendmirror.Common.Outcome.{ok}
use lendmirror.Bytes.{Bytes, zeros, le_bytes, checked_le, write_at}
use lendmirror.Pda.{Key}
use lendmirror.Pda.Lendmirror.{oapp, ccip_payer_address, bridge_route_address, bridge_route_seeds}
use lendmirror.LzSend.{}
use lendmirror.Ccip.{CcipSendAccounts, ccip_send_accounts, send_accounts, u64le}
use lendmirror.Bridge.{
  SetBridgeRouteArgs, SetBridgeRouteInput, set_bridge_route, BridgeTokensArgs, evm_address_to_32,
  strip_0x, caller_bytes,
}
use lendmirror.Bridge.Cctp.{BridgeTokensCctpInput, bridge_tokens_cctp}
use lendmirror.Bridge.Lz.{BridgeTokensLzInput, bridge_tokens_lz}
use lendmirror.Bridge.Ccip.{BridgeTokensCcipInput, bridge_tokens_ccip}
use lendmirror.Bridge.TokenAccounts.{
  CcipTokenAccounts, ccip_token_remaining_accounts, remaining_accounts, public_key,
}
use lendmirror.Bridge.Routes.{IsOnRoute, bridges-route}
use lendmirror.Hex.{from_hex, digit_value, from_pair}
use lendmirror.Runs.{key_of, toy_find_pda, toy_ata}
use lendmirror.Runs.Bridges.{receiver_text, route_account, entries}

abbrev new_route : SetBridgeRouteArgs
new_route = record {
  mint = key_of 3;
  dst_chain_id = 42161;
  provider = 1;
  provider_program = key_of 5;
  provider_aux = none;
  receiver = receiver_text;
  destination_caller = [];
  domain_or_selector = 3;
  gas_limit = 0;
  enabled = true;
  max_amount_per_tx = 1000000;
}

abbrev new_route_input : SetBridgeRouteInput
new_route_input = record {
  admin = key_of 2;
  store = oapp toy_find_pda (key_of 1);
  bridge_route = toy_find_pda (key_of 1) (bridge_route_seeds (key_of 3) (le_bytes 8 42161));
  mint = key_of 3;
  dst_chain_id = 42161;
  provider = 1;
  provider_program = key_of 5;
  provider_aux = zeros 32;
  receiver = zeros 12 ++ from_hex (strip_0x receiver_text);
  destination_caller = zeros 32;
  domain_or_selector = 3;
  gas_limit = 0;
  enabled = true;
  max_amount_per_tx = 1000000;
}

new_route_set : set_bridge_route toy_find_pda (key_of 1) (key_of 2) new_route ≡ ok new_route_input
unfolding set_bridge_route bridge_route_address checked_le evm_address_to_32 write_at from_hex
    from_pair digit_value caller_bytes
new_route_set = refl

abbrev transfer : BridgeTokensArgs
transfer = record { vault_id = 1; nft_id = 2; mint = key_of 3; dst_chain_id = 42161; amount = 500 }

abbrev mint_owner : Key → Option Key
mint_owner k = some (key_of 9)

abbrev registry : Key → Option Bytes
registry k = some (zeros 137)

abbrev tables : Key → Option (List Key)
tables k = some entries

abbrev found_send : CcipSendAccounts
found_send =
    send_accounts toy_find_pda route_account (ccip_payer_address toy_find_pda (key_of 1))
      (le_bytes 8 16015286601757825753)

sends :
    ccip_send_accounts toy_find_pda route_account (ccip_payer_address toy_find_pda (key_of 1))
    ≡ ok found_send
unfolding ccip_send_accounts u64le checked_le
sends = refl

abbrev found_tokens : CcipTokenAccounts
found_tokens = record {
  accounts =
      remaining_accounts toy_find_pda toy_ata mint_owner registry tables route_account (key_of 3)
        (ccip_payer_address toy_find_pda (key_of 1)) (key_of 9) (le_bytes 8 16015286601757825753)
        (zeros 32) (key_of 3) entries;
  token_program = key_of 9;
  lookup_table = zeros 32;
}

finds_tokens :
    ccip_token_remaining_accounts toy_find_pda toy_ata mint_owner registry tables route_account
      (key_of 3)
      (ccip_payer_address toy_find_pda (key_of 1))
    ≡ ok found_tokens
unfolding ccip_token_remaining_accounts public_key checked_le
finds_tokens = refl

bridges-route_example :
    ((input : BridgeTokensCctpInput) × (bridge_tokens_cctp toy_find_pda
          (key_of 1)
          toy_ata
          (key_of 6)
          (key_of 8)
          transfer
          3
          none
          none
          none
        ≡ ok input)
      × IsOnRoute toy_find_pda
          (key_of 1)
          (key_of 2)
          (key_of 6)
          toy_ata
          new_route
          new_route_input
          transfer
          none
          input.bridge_route
          input.wrapper_ata
          input.token_program
          input.params)
    × ((input : BridgeTokensLzInput) × (bridge_tokens_lz toy_find_pda
            (key_of 1)
            toy_ata
            (key_of 6)
            transfer
            (key_of 7)
            none
          ≡ ok input)
        × IsOnRoute toy_find_pda
            (key_of 1)
            (key_of 2)
            (key_of 6)
            toy_ata
            new_route
            new_route_input
            transfer
            none
            input.bridge_route
            input.wrapper_ata
            input.token_program
            input.params)
    × ((input : BridgeTokensCcipInput) × (bridge_tokens_ccip toy_find_pda
            (key_of 1)
            toy_ata
            mint_owner
            registry
            tables
            (key_of 6)
            transfer
            route_account
            5000
            none
          ≡ ok (input, found_tokens.lookup_table))
        × IsOnRoute toy_find_pda
            (key_of 1)
            (key_of 2)
            (key_of 6)
            toy_ata
            new_route
            new_route_input
            transfer
            none
            input.bridge_route
            input.wrapper_ata
            input.token_program
            input.params)
bridges-route_example =
    bridges-route toy_find_pda (key_of 1) (key_of 2) (key_of 6) toy_ata new_route new_route_input
      transfer none (key_of 8) 3 none none (key_of 7) mint_owner registry tables route_account 5000
      found_send found_tokens new_route_set refl refl sends finds_tokens
