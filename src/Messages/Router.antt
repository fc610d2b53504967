-- ===== src/Messages/Router.antt =====
-- The accounts of Chainlink's `ccip_send`, by the seeds of Chainlink's programs, in the router's order.
use lendmirror.Common.{◌≡◌, refl, List, [], ◌∷◌}
use lendmirror.Common.Text.{codes}
use lendmirror.Bytes.{Bytes, zeros}
use lendmirror.Pda.{Key, FindPda}
use lendmirror.Ix.{AccountMeta, readonly, writable, signer_meta}
use lendmirror.Known.{native_mint, token_program, associated_token_program, system_program}
use lendmirror.Ccip.{CcipRouteAccount, send_accounts}
use lendmirror.Instructions.Message.{SendInput}
use lendmirror.Messages.Program.{router_metas}
use lendmirror.Messages.Reading.{context_of}

module _ (find_pda : FindPda) (route : CcipRouteAccount) (payer selector : Bytes) where
  abbrev at_router : List Bytes → Key
  at_router seeds = find_pda route.router seeds

  abbrev at_fee_quoter : List Bytes → Key
  at_fee_quoter seeds = find_pda route.fee_quoter seeds

  -- A message without tokens, paid in SOL by `payer`.
  abbrev pub ccip_send_list : List AccountMeta
  ccip_send_list =
      readonly (at_router (codes "config" ∷ []))
      ∷ writable (at_router (codes "dest_chain_state" ∷ selector ∷ []))
      ∷ writable (at_router (codes "nonce" ∷ selector ∷ payer ∷ []))
      ∷ signer_meta payer
      ∷ readonly system_program
      ∷ readonly token_program
      ∷ readonly native_mint
      ∷ readonly (zeros 32)
      ∷ writable (
          find_pda associated_token_program
            (at_router (codes "fee_billing_signer" ∷ []) ∷ token_program ∷ native_mint ∷ []))
      ∷ readonly (at_router (codes "fee_billing_signer" ∷ []))
      ∷ readonly route.fee_quoter
      ∷ readonly (at_fee_quoter (codes "config" ∷ []))
      ∷ readonly (at_fee_quoter (codes "dest_chain" ∷ selector ∷ []))
      ∷ readonly (at_fee_quoter (codes "fee_billing_token_config" ∷ native_mint ∷ []))
      ∷ readonly (at_fee_quoter (codes "fee_billing_token_config" ∷ route.link_mint ∷ []))
      ∷ readonly route.rmn_remote
      ∷ readonly (find_pda route.rmn_remote (codes "curses" ∷ []))
      ∷ readonly (find_pda route.rmn_remote (codes "config" ∷ []))
      ∷ writable (at_router (codes "external_token_pools_signer" ∷ []))
      ∷ []

pub router_metas-context :
    (find_pda : FindPda) (i : SendInput) (selector : Bytes)
    → i.accounts ≡ send_accounts find_pda i.route i.ccip_payer selector
    → router_metas (context_of i) ≡ ccip_send_list find_pda i.route i.ccip_payer selector
unfolding router_metas send_accounts
router_metas-context find_pda i selector a = rw a refl
