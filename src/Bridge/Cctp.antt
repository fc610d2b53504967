-- ===== src/Bridge/Cctp.antt =====
-- lib/client/bridge.ts, lines 88-169: Circle's accounts and `bridge_tokens_cctp`.
use lendmirror.Common.{
  ℕ, zero, suc, ◌+◌, ◌*◌, ◌/◌, ◌%◌, ◌<◌, ◌≡◌, sym, ap, ◌∙◌, Option, none, some, List, [], ◌∷◌, ◌++◌,
  ltb, if◌then◌else◌, arith, Bool-cases, inl, inr,
}
use lendmirror.Common.Outcome.{Result, ok, ◌>>=◌, map_err}
use lendmirror.Common.Text.{codes}
use lendmirror.Pda.{Key, FindPda}
use lendmirror.Pda.Lendmirror.{
  oapp, wrapper, wrapper_authority, ccip_payer_address, bridge_route_address,
}
use lendmirror.Known.{
  token_program, associated_token_program, cctp_token_messenger_minter_v2,
  cctp_message_transmitter_v2,
}
use lendmirror.Bridge.{
  BridgeError, range, BridgeTokensArgs, BridgeTokensParams, cctp_finality_standard,
}

-- `String(n)`, on fuel; `suc n` is enough.
unfoldable pub decimal_digits : ℕ → ℕ → List ℕ
decimal_digits zero n = []
decimal_digits (suc fuel) n =
    let front = decimal_digits fuel (n / 10) in
    if ltb n 10 then (48 + n) ∷ [] else front ++ ((48 + n % 10) ∷ [])

unfoldable pub decimal : ℕ → List ℕ
decimal n = decimal_digits (suc n) n

pub record CctpAccounts : Type 0 where
  pub sender_authority_pda : Key
  pub denylist_account : Key
  pub message_transmitter : Key
  pub token_messenger : Key
  pub remote_token_messenger : Key
  pub token_minter : Key
  pub local_token : Key
  pub event_authority : Key

pub record BridgeTokensCctpInput : Type 0 where
  pub authority : Key
  pub store : Key
  pub wrapper : Key
  pub ondemand : Option Key
  pub wrapper_authority : Key
  pub bridge_signer : Key
  pub bridge_route : Key
  pub mint : Key
  pub wrapper_ata : Key
  pub bridge_ata : Key
  pub token_program : Key
  pub associated_token_program : Key
  pub cctp : CctpAccounts
  pub message_sent_event_data : Key
  pub message_transmitter_program : Key
  pub token_messenger_minter_program : Key
  pub params : BridgeTokensParams

module _ (find_pda : FindPda) where
  unfoldable pub cctp_accounts : Key → Key → ℕ → CctpAccounts
  unfolding decimal
  cctp_accounts mint owner destination_domain =
      let tmm = cctp_token_messenger_minter_v2 in
      let mt = cctp_message_transmitter_v2 in
      record {
        sender_authority_pda = find_pda tmm (codes "sender_authority" ∷ []);
        denylist_account = find_pda tmm (codes "denylist_account" ∷ owner ∷ []);
        message_transmitter = find_pda mt (codes "message_transmitter" ∷ []);
        token_messenger = find_pda tmm (codes "token_messenger" ∷ []);
        remote_token_messenger =
            find_pda tmm (codes "remote_token_messenger" ∷ decimal destination_domain ∷ []);
        token_minter = find_pda tmm (codes "token_minter" ∷ []);
        local_token = find_pda tmm (codes "local_token" ∷ mint ∷ []);
        event_authority = find_pda tmm (codes "__event_authority" ∷ []);
      }

  -- The input on a route's address. `ata owner mint program` is the associated token account.
  unfoldable pub cctp_input :
      (program_id : Key)
      → (ata : Key → Key → Key → Key) → (authority event_data : Key) → BridgeTokensArgs
      → (destination_domain : ℕ) → (max_fee min_finality_threshold : Option ℕ)
      → (ondemand : Option Key) → (bridge_route : Key) → BridgeTokensCctpInput
  cctp_input program_id ata authority event_data args destination_domain max_fee threshold ondemand
        bridge_route =
      let w = wrapper find_pda program_id args.vault_id args.nft_id in
      let w_authority = wrapper_authority find_pda program_id w in
      let bridge_signer = ccip_payer_address find_pda program_id in
      record {
        authority = authority;
        store = oapp find_pda program_id;
        wrapper = w;
        ondemand = ondemand;
        wrapper_authority = w_authority;
        bridge_signer = bridge_signer;
        bridge_route = bridge_route;
        mint = args.mint;
        wrapper_ata = ata w_authority args.mint token_program;
        bridge_ata = ata bridge_signer args.mint token_program;
        token_program = token_program;
        associated_token_program = associated_token_program;
        cctp = cctp_accounts args.mint bridge_signer destination_domain;
        message_sent_event_data = event_data;
        message_transmitter_program = cctp_message_transmitter_v2;
        token_messenger_minter_program = cctp_token_messenger_minter_v2;
        params = record {
          amount = args.amount;
          dst_chain_id = args.dst_chain_id;
          max_fee = elim max_fee [ none ↦ 0 | some n ↦ n ];
          min_finality_threshold = elim threshold [ none ↦ cctp_finality_standard | some n ↦ n ];
          fee_lamports = 0;
          min_amount = 0;
          native_fee = 0;
          options = [];
        };
      }

  unfoldable pub bridge_tokens_cctp :
      (program_id : Key)
      → (ata : Key → Key → Key → Key) → (authority event_data : Key) → BridgeTokensArgs
      → (destination_domain : ℕ) → (max_fee min_finality_threshold : Option ℕ)
      → (ondemand : Option Key) → Result BridgeError BridgeTokensCctpInput
  bridge_tokens_cctp program_id ata authority event_data args domain max_fee threshold ondemand = do
    bridge_route ←
        map_err (λ _. range) (bridge_route_address find_pda program_id args.mint args.dst_chain_id)
    ok (
        cctp_input program_id ata authority event_data args domain max_fee threshold ondemand
          bridge_route)

-- The number that decimal digits spell.
abbrev decimal_value : ℕ → List ℕ → ℕ
decimal_value acc [] = acc
decimal_value acc (c ∷ cs) = decimal_value (10 * acc + c % 48) cs

decimal_value-append :
    (acc d : ℕ) (cs : List ℕ)
    → d < 10
    → decimal_value acc (cs ++ ((48 + d) ∷ [])) ≡ 10 * decimal_value acc cs + d
decimal_value-append acc d [] h = omega arith
decimal_value-append acc d (c ∷ cs) h = decimal_value-append (10 * acc + c % 48) d cs h

decimal_value-digits : (fuel n : ℕ) → n < fuel → decimal_value 0 (decimal_digits fuel n) ≡ n
unfolding decimal_digits
decimal_value-digits zero n h = absurd (omega arith)
decimal_value-digits (suc fuel) n h = elim (Bool-cases (ltb n 10)) [
  | inl small ↦ ground arith
  | inr large ↦
      rw (large, decimal_value-append 0 (n % 10) (decimal_digits fuel (n / 10)) (omega arith))
        (omega (arith, decimal_value-digits fuel (n / 10) (ground arith)))
]

-- Two destination domains have the same text only if they are the same, so Circle's remote token
-- messenger is derived from different seeds for different domains.
decimal_injective : (n m : ℕ) → decimal n ≡ decimal m → n ≡ m
unfolding decimal
decimal_injective n m e =
    sym (decimal_value-digits (suc n) n (omega arith))
    ∙ ap (decimal_value 0) e
    ∙ decimal_value-digits (suc m) m (omega arith)
