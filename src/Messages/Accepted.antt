-- ===== src/Messages/Accepted.antt =====
-- The program on chain accepts the message that the client sends.
use lendmirror.Common.{[], ◌∷◌, true, ℕ, ◌<◌, ◌^◌, ◌≡◌, refl, none, some, List, ◌++◌, take, drop}
use lendmirror.Common.Keys.{contains}
use lendmirror.Common.Text.{codes}
use lendmirror.Common.Outcome.{ok}
use lendmirror.Bytes.{Bytes, be_bytes, le_bytes}
use lendmirror.Pda.{Key, FindPda}
use lendmirror.Pda.Lendmirror
use lendmirror.Pda.Lendmirror.{oapp, wrapper, ondemand, ccip_payer_address, ccip_route_address}
use lendmirror.Ix.{AccountMeta, Instruction}
use lendmirror.Instructions.{account_metas}
use lendmirror.Ccip.{send_accounts}
use lendmirror.Instructions.Message.{Serializers, SendInput, send_discriminator, send_slots}
use lendmirror.Messages.{
  send_args, Network, SendPayloadParams, MessageLib, packet_path, send_input, send_payload,
}
use lendmirror.Messages.Library.{HasLibrary, get_send_library_program-HasLibrary}
use lendmirror.Messages.Program.Checks.{check_send_accounts, apply_send}
use lendmirror.Messages.Program.{
  ProgramState, SendContext, read_send_context, decode_send_params, router_metas,
}
use lendmirror.Messages.Reading.{
  IsUmi, IsSendable, IsOther, eqb_refl, context_of, params_of, send_arguments, send_data_lem,
  decode_send_params-arguments, read_send_context-metas,
}
use lendmirror.Messages.Listed.{IsListed, listed-IsLet}
use lendmirror.Messages.Router.{ccip_send_list, router_metas-context}
use lendmirror.Messages.Checks.{
  IsFresh, check_programs-input, check_wrapper-wrapper, check_store-oapp, check_peer-peer,
  IsRouteState, check_ccip-input, ccip_send_accounts_lem,
}

module _ (find_pda : FindPda) (u32_be : ℕ → Bytes) (program_id endpoint_settings : Key)
    (s : ProgramState) (net : Network) (ser : Serializers) (authority : Key)
    (p : SendPayloadParams) where
  abbrev own_wrapper : Key
  own_wrapper = wrapper find_pda program_id p.vault_id p.nft_id

  -- What the chain holds: the wrapper with a snapshot that was not sent yet, its list of callers if one
  -- is attached, the route, and Chainlink's accounts; and LayerZero's library combines the options. The caller is a sender of the Store, or on the attached list.
  pub record IsSendState : Type 0 where
    pub same_endpoint : net.setting ≡ endpoint_settings
    pub big_endian : u32_be p.dst_eid ≡ be_bytes 4 p.dst_eid
    pub nft_fits : p.nft_id < 2 ^ 32
    pub selector_fits : p.route.dest_chain_selector < 256 ^ 8
    pub wrapper_there : s.wrapper_ids own_wrapper ≡ some (p.vault_id, p.nft_id)
    pub list :
        IsListed find_pda program_id s net.get_account authority own_wrapper
          (contains authority s.senders)
    pub route_there : s.ccip_route (ccip_route_address find_pda program_id) ≡ some p.route
    pub fresh : IsFresh find_pda program_id s own_wrapper
    pub combined :
        s.combines (Lendmirror.peer find_pda program_id u32_be p.dst_eid) p.options ≡ true
    pub route_state :
        IsRouteState find_pda program_id s p.route (ccip_payer_address find_pda program_id)

  -- The program reads its 27 accounts and the arguments, and no check fails.
  pub record IsAcceptedSend (metas : List AccountMeta) (ix : Instruction) : Type 0 where
    pub program : ix.program_id ≡ program_id
    pub context : SendContext
    pub read : read_send_context program_id ix.keys ≡ ok (context, metas)
    pub caller : context.authority ≡ authority
    pub ids : s.wrapper_ids context.wrapper ≡ some (p.vault_id, p.nft_id)
    pub checked :
        check_send_accounts find_pda program_id s endpoint_settings p.dst_eid context ≡ ok tt
    pub applied : apply_send find_pda program_id s p.options context ≡ ok tt
    pub router :
        router_metas context
        ≡ ccip_send_list find_pda p.route
            (find_pda program_id (codes "LendMirrorCcipPayerV1" ∷ []))
            (le_bytes 8 p.route.dest_chain_selector)
    pub tag : take 8 ix.data' ≡ send_discriminator
    pub arguments : decode_send_params (drop 8 ix.data') ≡ ok (params_of (send_args p))

  abbrev own_input : SendInput
  own_input = send_input find_pda u32_be program_id net ser authority p (
      send_accounts find_pda p.route (ccip_payer_address find_pda program_id)
        (le_bytes 8 p.route.dest_chain_selector))

  checked_lem :
      IsSendState
      → check_send_accounts find_pda program_id s endpoint_settings p.dst_eid (context_of own_input)
        ≡ ok tt
  unfolding check_send_accounts send_input ccip_payer_address ccip_route_address
  checked_lem st =
      let l =
        listed-IsLet find_pda program_id s net.get_account authority own_wrapper
          (contains authority s.senders) st.list in
      rw
        (
          l.fine,
          check_wrapper-wrapper find_pda program_id s p.vault_id p.nft_id st.nft_fits
              st.wrapper_there,
          l.let_in,
          check_store-oapp find_pda program_id s,
          check_peer-peer find_pda program_id s u32_be endpoint_settings net.setting p.dst_eid
              st.same_endpoint st.big_endian,
          eqb_refl (ccip_payer_address find_pda program_id),
          eqb_refl (ccip_route_address find_pda program_id),
          st.route_there,
        )
        (check_programs-input find_pda program_id s own_input)

  applied_lem :
      IsSendState → apply_send find_pda program_id s p.options (context_of own_input) ≡ ok tt
  unfolding apply_send send_input
  applied_lem st =
      rw
        (
          st.fresh.there,
          st.fresh.newer,
          st.route_there,
          check_ccip-input find_pda program_id s own_input (ccip_payer_address find_pda program_id)
              (le_bytes 8 p.route.dest_chain_selector) refl st.route_state,
          st.combined,
        )
        refl

  router_lem :
      router_metas (context_of own_input)
      ≡ ccip_send_list find_pda p.route
          (find_pda program_id (codes "LendMirrorCcipPayerV1" ∷ []))
          (le_bytes 8 p.route.dest_chain_selector)
  unfolding send_input ccip_payer_address
  router_lem = router_metas-context find_pda own_input (le_bytes 8 p.route.dest_chain_selector) refl

  own_list : IsSendState → IsOther program_id own_input.ondemand
  unfolding send_input
  own_list st =
      (listed-IsLet find_pda program_id s net.get_account authority own_wrapper
        (contains authority s.senders) st.list).other

  built-IsAccepted :
      (metas : List AccountMeta)
      → IsSendable (send_args p)
      → IsSendState
      → IsAcceptedSend metas (record {
        program_id = program_id;
        keys = account_metas program_id (send_slots own_input) ++ metas;
        data' = send_discriminator ++ send_arguments (send_args p);
      })
  unfolding send_input
  built-IsAccepted metas fits st = record {
    program = refl;
    context = context_of own_input;
    read = read_send_context-metas program_id own_input metas (own_list st);
    caller = refl;
    ids = st.wrapper_there;
    checked = checked_lem st;
    applied = applied_lem st;
    router = router_lem;
    tag = refl;
    arguments = decode_send_params-arguments (send_args p) fits;
  }

  -- If LayerZero's SDK knows a supported library, the peer and the accounts of the path from the
  -- Store to the peer, if umi's serializers do as documented and the numbers fit their fields, and if
  -- the chain holds what the message is about and the caller may send (IsSendState), then the message
  -- is built, and the program accepts it: it reads its accounts in its own order, each writable or
  -- signing where it has to be, with the SDK's accounts behind them; no constraint on them and no check
  -- of its handler before the calls into LayerZero and Chainlink fails; the accounts that it calls
  -- Chainlink's router with are those of the route, by the seeds of Chainlink's programs and in the
  -- router's order; and the arguments that it reads are the ones that were given.
  pub send_payload-IsAccepted :
      (lib : MessageLib) (receiver : Bytes) (metas : List AccountMeta)
      → IsUmi ser
      → IsSendable (send_args p)
      → IsSendState
      → HasLibrary find_pda program_id net authority p.dst_eid lib
      → net.fetch_peer (Lendmirror.peer find_pda program_id u32_be p.dst_eid) ≡ ok receiver
      → net.send_metas authority
          (packet_path find_pda u32_be program_id net ser p.dst_eid receiver)
          lib
        ≡ ok (some metas)
      → (ix : Instruction) × (send_payload find_pda u32_be program_id net ser authority p none
          ≡ ok ix)
        × IsAcceptedSend metas ix
  unfolding send_payload
  send_payload-IsAccepted lib receiver metas umi fits st library peer_is metas_are = (
    record {
      program_id = program_id;
      keys = account_metas program_id (send_slots own_input) ++ metas;
      data' = send_discriminator ++ send_arguments (send_args p);
    },
    rw
        (
          get_send_library_program-HasLibrary find_pda program_id net u32_be ser authority p.dst_eid
              lib library,
          peer_is,
          metas_are,
          ccip_send_accounts_lem find_pda p.route (ccip_payer_address find_pda program_id)
              st.selector_fits,
          send_data_lem ser (send_args p) umi fits,
        )
        refl,
    built-IsAccepted metas fits st,
  )
