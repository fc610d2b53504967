-- ===== src/Messages.antt =====
-- lib/client/lendmirror.ts, lines 495-583 and 646-747: the message that carries a snapshot, sent and
-- quoted, with the generated sendPositionSnapshotViaChainlinkAndLz.ts and quoteSend.ts. What the node
-- and LayerZero's SDK answer, and umi's serializers, are parameters.
pub mod Program
pub mod Library
pub mod Reading
pub mod Checks
pub mod Listed
pub mod Router
pub mod Accepted
pub mod Quoted
use lendmirror.Common.{
  ℕ, Bool, ◌&&◌, Option, none, some, List, [], ◌∷◌, ◌++◌, length, ◌==◌, if◌then◌else◌,
}
use lendmirror.Common.Outcome.{Result, ok, err, ◌>>=◌, require, map_err}
use lendmirror.Bytes.{Bytes}
use lendmirror.Pda.{Key, FindPda}
use lendmirror.Pda.Lendmirror.{oapp, wrapper, ccip_payer_address, ccip_route_address}
use lendmirror.Pda.Lendmirror
use lendmirror.Ix.{AccountMeta, Instruction}
use lendmirror.Known.{token_program, system_program}
use lendmirror.Ccip.{CcipRouteAccount, CcipSendAccounts, ccip_send_accounts}
use lendmirror.Client.{ondemand_if_attached}
use lendmirror.Instructions.Message.{
  Serializers, SendInput, SendArgs, QuoteArgs, send_slots, quote_slots, send_data, quote_data,
}
use lendmirror.Instructions.{
  ResolvedAccount, read_only, read_write, address, signer, optional, account_metas,
}

pub record MessageLibVersion : Type 0 where
  pub major : ℕ
  pub minor : ℕ
  pub endpoint_version : ℕ

pub data MessageLib : Type 0 where
  simple_message_lib uln : Key → MessageLib

-- `SolanaPacketPath`
pub record PacketPath : Type 0 where
  pub dst_eid : ℕ
  pub sender : Key
  pub receiver : Bytes

pub record MessagingFee : Type 0 where
  pub native_fee : ℕ
  pub lz_token_fee : ℕ

-- The node, read by the endpoint's SDK and by `fetchPeerConfig`, which gives the peer's address.
pub record Network : Type 1 where
  pub Failure : Type 0
  pub get_account : Key → Option Bytes
  pub fetch_peer : Key → Result Failure Bytes
  pub get_send_library : Key → ℕ → Result Failure (Option Key)
  pub get_message_lib_version : (payer lib : Key) → Result Failure MessageLibVersion
  pub send_metas :
      (payer : Key) → PacketPath → MessageLib → Result Failure (Option (List AccountMeta))
  pub quote_metas :
      (payer : Key) → PacketPath → MessageLib → Result Failure (Option (List AccountMeta))
  pub setting : Key
  pub simulate : (units : ℕ) → Instruction → (payer : Key) → Result Failure MessagingFee

pub data MessageError (F : Type 0) : Type 0 where
  thrown : F → MessageError F
  -- `Send library not initialized or blocked message library`
  no_library : MessageError F
  unsupported_version : MessageLibVersion → MessageError F
  -- `Failed to get remaining accounts for … instruction`
  no_remaining : MessageError F
  -- what the serializers and `u64le` throw
  out_of_range : MessageError F

pub record SendPayloadParams : Type 0 where
  pub dst_eid : ℕ
  pub native_fee : ℕ
  pub lz_token_fee : Option ℕ
  pub options : Bytes
  pub vault_id : ℕ
  pub nft_id : ℕ
  pub ccip_fee_lamports : ℕ
  pub route : CcipRouteAccount

pub record QuotePayloadParams : Type 0 where
  pub dst_eid : ℕ
  pub options : Bytes
  pub pay_in_lz_token : Bool
  pub vault_id : ℕ
  pub nft_id : ℕ

abbrev pub or_zero : Option ℕ → ℕ
or_zero none = 0
or_zero (some n) = n

abbrev pub send_args : SendPayloadParams → SendArgs
send_args p = record {
  dst_eid = p.dst_eid;
  options = p.options;
  native_fee = p.native_fee;
  lz_token_fee = or_zero p.lz_token_fee;
  ccip_fee_lamports = p.ccip_fee_lamports;
}

abbrev pub quote_args : QuotePayloadParams → Bytes → QuoteArgs
quote_args p receiver = record {
  dst_eid = p.dst_eid;
  receiver = receiver;
  options = p.options;
  pay_in_lz_token = p.pay_in_lz_token;
}

-- The library of a version, if it is one that the client knows.
unfoldable pub lib_of_version :
    {F : Type 0} → Key → MessageLibVersion → Result (MessageError F) MessageLib
lib_of_version lib v =
    if (v.major == 0) && ((v.minor == 0) && (v.endpoint_version == 2))
    then ok (simple_message_lib lib)
    else (if (v.major == 3) && ((v.minor == 0) && (v.endpoint_version == 2))
        then ok (uln lib)
        else err (unsupported_version v))

module _ (find_pda : FindPda) (u32_be : ℕ → Bytes) (program_id : Key) (net : Network)
    (ser : Serializers) where
  unfoldable pub get_send_library_program :
      (payer : Key) → ℕ → Result (MessageError net.Failure) MessageLib
  get_send_library_program payer dst_eid = do
    library ← map_err thrown (net.get_send_library (oapp find_pda program_id) dst_eid)
    lib ← require library no_library
    version ← map_err thrown (net.get_message_lib_version payer lib)
    lib_of_version lib version

  unfoldable pub packet_path : ℕ → Bytes → PacketPath
  packet_path dst_eid receiver = record {
    dst_eid = dst_eid;
    sender = oapp find_pda program_id;
    receiver = receiver;
  }

  -- The accounts that the caller gave, or else those of the SDK.
  abbrev pub or_asked :
      Option (List AccountMeta)
      → Result net.Failure (Option (List AccountMeta))
      → Result (MessageError net.Failure) (List AccountMeta)
  or_asked (some given) asked = ok given
  or_asked none asked = do answer ← map_err thrown asked; require answer no_remaining

  unfoldable pub send_input : Key → SendPayloadParams → CcipSendAccounts → SendInput
  send_input authority p accounts =
      let w = wrapper find_pda program_id p.vault_id p.nft_id in
      record {
        authority = authority;
        ondemand = ondemand_if_attached find_pda program_id net.get_account w;
        wrapper_key = w;
        store = oapp find_pda program_id;
        peer_key = Lendmirror.peer find_pda program_id u32_be p.dst_eid;
        endpoint = net.setting;
        ccip_payer = ccip_payer_address find_pda program_id;
        ccip_route = ccip_route_address find_pda program_id;
        route = p.route;
        accounts = accounts;
      }

  unfoldable pub send_payload :
      (authority : Key)
      → SendPayloadParams
      → (remaining : Option (List AccountMeta)) → Result (MessageError net.Failure) Instruction
  send_payload authority p remaining = do
    lib ← get_send_library_program authority p.dst_eid
    receiver ←
        map_err thrown (net.fetch_peer (Lendmirror.peer find_pda program_id u32_be p.dst_eid))
    metas ← or_asked remaining (net.send_metas authority (packet_path p.dst_eid receiver) lib)
    accounts ←
        map_err (λ _. out_of_range)
          (ccip_send_accounts find_pda p.route (ccip_payer_address find_pda program_id))
    data' ← map_err (λ _. out_of_range) (send_data ser (send_args p))
    ok (record {
      program_id = program_id;
      keys = account_metas program_id (send_slots (send_input authority p accounts)) ++ metas;
      data' = data';
    })

  -- The instruction that is simulated.
  unfoldable pub quote_instruction :
      QuotePayloadParams
      → (receiver : Bytes) → List AccountMeta
      → Result (MessageError net.Failure) Instruction
  quote_instruction p receiver metas = do
    data' ← map_err (λ _. out_of_range) (quote_data ser (quote_args p receiver))
    ok (record {
      program_id = program_id;
      keys =
          account_metas program_id (
            quote_slots (oapp find_pda program_id) (wrapper find_pda program_id p.vault_id p.nft_id)
              (Lendmirror.peer find_pda program_id u32_be p.dst_eid) net.setting)
          ++ metas;
      data' = data';
    })

  unfoldable pub quote_payload :
      (payer : Key)
      → QuotePayloadParams
      → (remaining : Option (List AccountMeta)) → Result (MessageError net.Failure) MessagingFee
  quote_payload payer p remaining = do
    lib ← get_send_library_program payer p.dst_eid
    receiver ←
        map_err thrown (net.fetch_peer (Lendmirror.peer find_pda program_id u32_be p.dst_eid))
    metas ← or_asked remaining (net.quote_metas payer (packet_path p.dst_eid receiver) lib)
    ix ← quote_instruction p receiver metas
    map_err thrown (net.simulate 400000 ix payer)
