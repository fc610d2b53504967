-- ===== src/Runs/Messages.antt =====
-- A message and its quote.
use lendmirror.Common.{◌≡◌, refl, Bool, true, false, none, some, [], ◌∷◌, arith, inr}
use lendmirror.Common.Int.{pos}
use lendmirror.Common.Outcome.{ok, map_err}
use lendmirror.Common.Keys.{eqb, contains}
use lendmirror.Bytes.{Bytes, le_bytes, be_bytes}
use lendmirror.Pda.{Key}
use lendmirror.Pda.Lendmirror
use lendmirror.Ix.{Instruction, readonly}
use lendmirror.Ccip.{CcipRouteAccount}
use lendmirror.Instructions.Message.{Serializers}
use lendmirror.Messages.{
  Network, SendPayloadParams, QuotePayloadParams, uln, thrown, packet_path, send_payload,
  quote_payload,
}
use lendmirror.Messages.Library.{HasLibrary}
use lendmirror.Messages.Program.{ProgramState}
use lendmirror.Messages.Reading.{IsUmi}
use lendmirror.Messages.Accepted.{IsSendState, IsAcceptedSend, send_payload-IsAccepted}
use lendmirror.Messages.Quoted.{IsAcceptedQuote, quote_payload-IsAccepted}
use lendmirror.Runs.{key_of, toy_find_pda}

abbrev flag_byte : Bool → Bytes
flag_byte true = 1 ∷ []
flag_byte false = 0 ∷ []

abbrev serializers : Serializers
serializers = record {
  u32 = λ n. some (le_bytes 4 n);
  u64 = λ n. some (le_bytes 8 n);
  fixed = λ n b. b;
  bool = flag_byte;
}

serializers-IsUmi : IsUmi serializers
serializers-IsUmi = record {
  u32_is = λ n fits. refl;
  u64_is = λ n fits. refl;
  fixed_is = λ n b e. refl;
  true_is = refl;
  false_is = refl;
}

abbrev chainlink : CcipRouteAccount
chainlink = record {
  router = key_of 11;
  fee_quoter = key_of 12;
  rmn_remote = key_of 13;
  link_mint = key_of 14;
  dest_chain_selector = 16015286601757825753;
  receiver = [];
  gas_limit = 400000;
}

abbrev params : SendPayloadParams
params = record {
  dst_eid = 40161;
  native_fee = 840356;
  lz_token_fee = none;
  options = 0 ∷ 3 ∷ [];
  vault_id = 1;
  nft_id = 2;
  ccip_fee_lamports = 100000;
  route = chainlink;
}

abbrev quote_params : QuotePayloadParams
quote_params = record {
  dst_eid = 40161;
  options = 0 ∷ 3 ∷ [];
  pay_in_lz_token = false;
  vault_id = 1;
  nft_id = 2;
}

abbrev network : Network
network = record {
  Failure = Unit;
  get_account = λ _. some [];
  fetch_peer = λ _. ok (key_of 7);
  get_send_library = λ _ _. ok (some (key_of 8));
  get_message_lib_version = λ _ _. ok (record { major = 3; minor = 0; endpoint_version = 2 });
  send_metas = λ _ path lib. ok (some (readonly path.receiver ∷ []));
  quote_metas = λ _ path lib. ok (some (readonly path.sender ∷ []));
  setting = key_of 9;
  simulate = λ _ ix _. ok (record { native_fee = 840356; lz_token_fee = 0 });
}

abbrev wrapper_key : Key
wrapper_key = Lendmirror.wrapper toy_find_pda (key_of 1) 1 2

-- The caller is not a sender, but on the list of the wrapper.
abbrev chain : ProgramState
chain = record {
  senders = key_of 3 ∷ [];
  wrapper_ids = λ _. some (1, 2);
  ondemand_list = λ _. some (record { wrapper = wrapper_key; callers = key_of 2 ∷ [] });
  ccip_route = λ _. some chainlink;
  owner = λ _. key_of 11;
  data_is_empty = λ _. true;
  snapshot_time = λ _. some (pos 20);
  last_sent_snapshot_time = λ _. pos 10;
  combines = λ _ _. true;
}

abbrev library : HasLibrary toy_find_pda (key_of 1) network (key_of 2) 40161 (uln (key_of 8))
library = record {
  key = key_of 8;
  version = record { major = 3; minor = 0; endpoint_version = 2 };
  set = refl;
  version_is = refl;
  supported = (refl, refl, inr (refl, refl));
}

send_state :
    IsSendState toy_find_pda
      (be_bytes 4)
      (key_of 1)
      (key_of 9)
      chain
      network
      serializers
      (key_of 2)
      params
unfolding Lendmirror.ondemand Lendmirror.ondemand_seeds eqb contains
send_state = record {
  same_endpoint = refl;
  big_endian = refl;
  nft_fits = omega arith;
  selector_fits = omega arith;
  wrapper_there = refl;
  list = record {
    is_other = refl;
    attached =
        λ account there. (record { wrapper = wrapper_key; callers = key_of 2 ∷ [] }, refl, refl);
    allowed =
        inr ([], refl, (record { wrapper = wrapper_key; callers = key_of 2 ∷ [] }, refl, refl));
  };
  route_there = refl;
  fresh = record { time = pos 20; there = refl; newer = refl };
  combined = refl;
  route_state = record { config_owner = refl; payer_empty = refl };
}

send_payload-IsAccepted_example :
    (ix : Instruction) × (send_payload toy_find_pda
        (be_bytes 4)
        (key_of 1)
        network
        serializers
        (key_of 2)
        params
        none
      ≡ ok ix)
    × IsAcceptedSend toy_find_pda
        (be_bytes 4)
        (key_of 1)
        (key_of 9)
        chain
        network
        serializers
        (key_of 2)
        params
        (readonly (key_of 7) ∷ [])
        ix
unfolding packet_path
send_payload-IsAccepted_example =
    send_payload-IsAccepted toy_find_pda (be_bytes 4) (key_of 1) (key_of 9) chain network
      serializers (key_of 2) params (uln (key_of 8)) (key_of 7) (readonly (key_of 7) ∷ [])
      serializers-IsUmi
      (record {
        eid_fits = omega arith;
        size_fits = omega arith;
        native_fee_fits = omega arith;
        lz_token_fee_fits = omega arith;
        lamports_fit = omega arith;
      })
      send_state library refl refl

quote_payload-IsAccepted_example :
    (ix : Instruction) × (quote_payload toy_find_pda
        (be_bytes 4)
        (key_of 1)
        network
        serializers
        (key_of 2)
        quote_params
        none
      ≡ map_err thrown (network.simulate 400000 ix (key_of 2)))
    × IsAcceptedQuote toy_find_pda
        (be_bytes 4)
        (key_of 1)
        (key_of 9)
        chain
        network
        serializers
        (key_of 2)
        quote_params
        (key_of 7)
        (readonly (Lendmirror.oapp toy_find_pda (key_of 1)) ∷ [])
        ix
unfolding Lendmirror.oapp packet_path
quote_payload-IsAccepted_example =
    quote_payload-IsAccepted toy_find_pda (be_bytes 4) (key_of 1) (key_of 9) chain network
      serializers (key_of 2) quote_params (uln (key_of 8)) (key_of 7)
      (readonly (Lendmirror.oapp toy_find_pda (key_of 1)) ∷ []) serializers-IsUmi
      (record { eid_fits = omega arith; size_fits = omega arith; receiver_fits = refl })
      (record {
        same_endpoint = refl;
        big_endian = refl;
        nft_fits = omega arith;
        wrapper_there = refl;
        time = pos 20;
        snapshot_there = refl;
        combined = refl;
      })
      library refl refl
