-- ===== src/Runs/Bridges.antt =====
-- Bridges: routes, receivers and token accounts.
use lendmirror.Common.{
  ℕ, ◌%◌, ◌/◌, ◌-◌, ◌≡◌, ◌≢◌, refl, some, List, [], ◌∷◌, ◌++◌, map, length, ◌==◌, arith, ◌⊎◌,
}
use lendmirror.Common.Text.{codes}
use lendmirror.Common.Outcome.{ok, err}
use lendmirror.Bytes.{Bytes, zeros, le_bytes, checked_le}
use lendmirror.Pda.{Key}
use lendmirror.Ix.{Instruction}
use lendmirror.Ccip.{
  CcipRouteAccount, SetCcipRouteArgs, set_ccip_route_instruction, decode_ccip_route,
}
use lendmirror.Ccip.Route.{stored_route, route_of, set_ccip_route-decode}
use lendmirror.Bridge.{evm_address_to_32, strip_0x, not_an_address}
use lendmirror.Bridge.Receiver.{evm_address_to_32-length}
use lendmirror.Bridge.TokenAccounts.{is_writable, CcipTokenAccounts, ccip_token_remaining_accounts}
use lendmirror.Bridge.Writable.{bit_at, word_of, is_writable_lem}
use lendmirror.Bridge.Entries.{IsTokenSend, ccip_token_remaining_accounts-IsTokenSend}
use lendmirror.Runs.{key_of, toy_find_pda, toy_ata}

abbrev pub route_args : SetCcipRouteArgs
route_args = record {
  program_id = key_of 1;
  admin = key_of 2;
  store = key_of 3;
  router = key_of 4;
  fee_quoter = key_of 5;
  rmn_remote = key_of 6;
  link_mint = key_of 7;
  dest_chain_selector = 16015286601757825753;
  receiver = zeros 19 ++ (171 ∷ []);
  gas_limit = 600000;
}

set_ccip_route-decode_example :
    (ix : Instruction) × (set_ccip_route_instruction toy_find_pda route_args ≡ ok ix)
    × (decode_ccip_route (stored_route ix.data' 254) ≡ ok (route_of route_args))
set_ccip_route-decode_example = set_ccip_route-decode toy_find_pda route_args 254 (record {
  router = refl;
  fee_quoter = refl;
  rmn_remote = refl;
  link_mint = refl;
  receiver = refl;
  dest_chain_selector = omega arith;
  gas_limit = omega arith;
})

abbrev pub receiver_text : List ℕ
receiver_text = codes "0x73bc8E8d05Ab5f2AB41C5d0B6a0f6C2F1c3E4D5a"

evm_address_to_32-length_example :
    ((length (strip_0x receiver_text) ≡ 40)
      × (out : Bytes) × (evm_address_to_32 receiver_text ≡ ok out)
      × (length out ≡ 32))
    ⊎ ((length (strip_0x receiver_text) ≢ 40)
        × (evm_address_to_32 receiver_text ≡ err not_an_address))
evm_address_to_32-length_example = evm_address_to_32-length receiver_text

is_writable_lem_example :
    is_writable (5 ∷ 128 ∷ []) 112
    ≡ (bit_at (word_of (5 ∷ 128 ∷ []) (112 / 128)) (127 - 112 % 128) == 1)
is_writable_lem_example =
    is_writable_lem (5 ∷ 128 ∷ []) 112 (omega arith, (omega arith, tt)) (omega arith)

abbrev pub route_account : CcipRouteAccount
route_account = route_of route_args

abbrev pub entries : List Key
entries = map key_of (1 ∷ 2 ∷ 3 ∷ 4 ∷ 5 ∷ 6 ∷ 7 ∷ 8 ∷ 9 ∷ [])

ccip_token_remaining_accounts-IsTokenSend_example :
    (result : CcipTokenAccounts) × (ccip_token_remaining_accounts toy_find_pda toy_ata
        (λ _. some (key_of 9))
        (λ _. some (zeros 137))
        (λ _. some entries)
        route_account
        (key_of 3)
        (key_of 4)
      ≡ ok result)
    × IsTokenSend toy_find_pda toy_ata
        (λ _. some (key_of 9))
        (λ _. some (zeros 137))
        (λ _. some entries)
        route_account
        (key_of 3)
        (key_of 4)
        result
unfolding checked_le
ccip_token_remaining_accounts-IsTokenSend_example =
    ccip_token_remaining_accounts-IsTokenSend toy_find_pda toy_ata (λ _. some (key_of 9))
      (λ _. some (zeros 137)) (λ _. some entries) route_account (key_of 3) (key_of 4) (key_of 9)
      (le_bytes 8 16015286601757825753) (zeros 137) entries refl refl refl refl (omega arith)
