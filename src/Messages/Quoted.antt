-- ===== src/Messages/Quoted.antt =====
-- The quote of a message's fee.
use lendmirror.Common.{true, ℕ, ◌<◌, ◌^◌, ◌≡◌, refl, none, some, List, ◌++◌, take, drop}
use lendmirror.Common.Int.{ℤ}
use lendmirror.Common.Outcome.{ok, map_err}
use lendmirror.Bytes.{Bytes, be_bytes}
use lendmirror.Pda.{Key, FindPda}
use lendmirror.Pda.Lendmirror
use lendmirror.Pda.Lendmirror.{oapp, wrapper}
use lendmirror.Ix.{AccountMeta, Instruction}
use lendmirror.Instructions.{account_metas}
use lendmirror.Instructions.Message.{Serializers, quote_discriminator, quote_slots}
use lendmirror.Messages.{
  quote_args, Network, QuotePayloadParams, MessageLib, thrown, packet_path, quote_instruction,
  quote_payload,
}
use lendmirror.Messages.Library.{HasLibrary, get_send_library_program-HasLibrary}
use lendmirror.Messages.Program.Checks.{check_quote_accounts, apply_quote}
use lendmirror.Messages.Program.{
  ProgramState, QuoteContext, read_quote_context, decode_quote_params,
}
use lendmirror.Messages.Reading.{
  IsUmi, IsQuotable, quote_params_of, quote_arguments, quote_data_lem,
  decode_quote_params-arguments, read_quote_context-metas,
}
use lendmirror.Messages.Checks.{
  apply_quote-ok, check_wrapper-wrapper, check_store-oapp, check_peer-peer,
}

module _ (find_pda : FindPda) (u32_be : ℕ → Bytes) (program_id endpoint_settings : Key)
    (s : ProgramState) (net : Network) (ser : Serializers) (payer : Key)
    (p : QuotePayloadParams) where
  abbrev own_wrapper : Key
  own_wrapper = wrapper find_pda program_id p.vault_id p.nft_id

  abbrev own_context : QuoteContext
  own_context = record {
    store = oapp find_pda program_id;
    wrapper = own_wrapper;
    peer = Lendmirror.peer find_pda program_id u32_be p.dst_eid;
    endpoint = net.setting;
  }

  pub record IsQuoteState : Type 0 where
    pub same_endpoint : net.setting ≡ endpoint_settings
    pub big_endian : u32_be p.dst_eid ≡ be_bytes 4 p.dst_eid
    pub nft_fits : p.nft_id < 2 ^ 32
    pub wrapper_there : s.wrapper_ids own_wrapper ≡ some (p.vault_id, p.nft_id)
    pub time : ℤ
    pub snapshot_there : s.snapshot_time own_wrapper ≡ some time
    pub combined :
        s.combines (Lendmirror.peer find_pda program_id u32_be p.dst_eid) p.options ≡ true

  -- The program reads its four accounts and the arguments, and no check fails.
  pub record IsAcceptedQuote (receiver : Bytes) (metas : List AccountMeta) (ix : Instruction)
      : Type 0 where
    pub program : ix.program_id ≡ program_id
    pub context : QuoteContext
    pub read : read_quote_context ix.keys ≡ ok (context, metas)
    pub ids : s.wrapper_ids context.wrapper ≡ some (p.vault_id, p.nft_id)
    pub checked :
        check_quote_accounts find_pda program_id s endpoint_settings p.dst_eid context ≡ ok tt
    pub applied : apply_quote find_pda program_id s p.options context ≡ ok tt
    pub tag : take 8 ix.data' ≡ quote_discriminator
    pub arguments :
        decode_quote_params (drop 8 ix.data') ≡ ok (quote_params_of (quote_args p receiver))

  abbrev built : Bytes → List AccountMeta → Instruction
  built receiver metas = record {
    program_id = program_id;
    keys =
        account_metas program_id (
          quote_slots (oapp find_pda program_id) own_wrapper
            (Lendmirror.peer find_pda program_id u32_be p.dst_eid) net.setting)
        ++ metas;
    data' = quote_discriminator ++ quote_arguments ser (quote_args p receiver);
  }

  built-IsAccepted :
      (receiver : Bytes) (metas : List AccountMeta)
      → IsUmi ser
      → IsQuotable (quote_args p receiver)
      → IsQuoteState
      → IsAcceptedQuote receiver metas (built receiver metas)
  unfolding check_quote_accounts
  built-IsAccepted receiver metas umi fits st = record {
    program = refl;
    context = own_context;
    read =
        read_quote_context-metas program_id (oapp find_pda program_id) own_wrapper
          (Lendmirror.peer find_pda program_id u32_be p.dst_eid) net.setting metas;
    ids = st.wrapper_there;
    checked =
        rw
          (
            check_store-oapp find_pda program_id s,
            check_wrapper-wrapper find_pda program_id s p.vault_id p.nft_id st.nft_fits
                st.wrapper_there,
          )
          (check_peer-peer find_pda program_id s u32_be endpoint_settings net.setting p.dst_eid
            st.same_endpoint st.big_endian);
    applied =
        apply_quote-ok find_pda program_id s p.options own_context st.time st.snapshot_there
          st.combined;
    tag = refl;
    arguments = decode_quote_params-arguments ser (quote_args p receiver) umi fits;
  }

  -- If LayerZero's SDK knows a supported library, the peer and the accounts of the path from the
  -- Store to the peer, if umi's serializers do as documented and the numbers and the peer's address fit
  -- their fields, and if the chain holds the wrapper with a snapshot and LayerZero's library combines
  -- the options (IsQuoteState), then the quote is what the simulation of one instruction gives, and the
  -- program accepts that instruction: its four accounts are read in order with the SDK's behind them,
  -- no constraint on them and no check of the handler before the call into LayerZero fails, and the
  -- arguments name the peer's address as the receiver.
  pub quote_payload-IsAccepted :
      (lib : MessageLib) (receiver : Bytes) (metas : List AccountMeta)
      → IsUmi ser
      → IsQuotable (quote_args p receiver)
      → IsQuoteState
      → HasLibrary find_pda program_id net payer p.dst_eid lib
      → net.fetch_peer (Lendmirror.peer find_pda program_id u32_be p.dst_eid) ≡ ok receiver
      → net.quote_metas payer
          (packet_path find_pda u32_be program_id net ser p.dst_eid receiver)
          lib
        ≡ ok (some metas)
      → (ix : Instruction) × (quote_payload find_pda u32_be program_id net ser payer p none
          ≡ map_err thrown (net.simulate 400000 ix payer))
        × IsAcceptedQuote receiver metas ix
  unfolding quote_payload quote_instruction
  quote_payload-IsAccepted lib receiver metas umi fits st library peer_is metas_are = (
    built receiver metas,
    rw
        (
          get_send_library_program-HasLibrary find_pda program_id net u32_be ser payer p.dst_eid lib
              library,
          peer_is,
          metas_are,
          quote_data_lem ser (quote_args p receiver) umi fits,
        )
        refl,
    built-IsAccepted receiver metas umi fits st,
  )
