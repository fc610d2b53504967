-- ===== src/Messages/Checks.antt =====
-- The program's checks, on the addresses that the client derives.
use lendmirror.Common.{ℕ, ◌<◌, ◌^◌, ◌%◌, ◌≡◌, refl, true, some, [], ◌∷◌, arith, ltb}
use lendmirror.Common.Int.{ℤ, ltb_ℤ}
use lendmirror.Common.Text.{codes}
use lendmirror.Common.Keys.{eqb}
use lendmirror.Common.Outcome.{ok, guard}
use lendmirror.Bytes.{Bytes, be_bytes, le_bytes, checked_le, to_word}
use lendmirror.Pda.{Key, FindPda}
use lendmirror.Pda.Lendmirror
use lendmirror.Pda.Lendmirror.{oapp, wrapper, ondemand, peer_seeds, wrapper_seeds, ondemand_seeds}
use lendmirror.Jupiter.Ticks.{u16_le, u32_le}
use lendmirror.Known.{native_mint, token_program, system_program}
use lendmirror.Ccip.{CcipRouteAccount, ccip_send_accounts, send_accounts, u64le}
use lendmirror.Instructions.Message.{SendInput}
use lendmirror.Messages.Program.Checks.{
  check_wrapper, check_store, check_peer, check_programs, check_ccip, apply_quote, check_ondemand,
}
use lendmirror.Messages.Program.{ProgramState, OndemandList, QuoteContext}
use lendmirror.Messages.Reading.{eqb_refl, context_of}

guard-same {ℓ} : {E : Type 0} (x y : Key) (e : E) → x ≡ y → guard (eqb x y) e ≡ ok tt
guard-same x y e p = rw (p, eqb_refl y) refl

module _ (find_pda : FindPda) (program_id : Key) (s : ProgramState) where
  wrapper_lem :
      (vault_id nft_id : ℕ)
      → nft_id < 2 ^ 32
      → wrapper find_pda program_id vault_id nft_id
        ≡ find_pda program_id
            (codes "LendMirrorPositionWrapperV1" ∷ le_bytes 2 vault_id ∷ le_bytes 4 nft_id ∷ [])
  unfolding wrapper wrapper_seeds u16_le u32_le to_word
  wrapper_lem vault_id nft_id fits =
      let small : nft_id % 2 ^ 32 ≡ nft_id = omega arith in rw small refl

  pub check_wrapper-wrapper :
      (vault_id nft_id : ℕ)
      → nft_id < 2 ^ 32
      → s.wrapper_ids (wrapper find_pda program_id vault_id nft_id) ≡ some (vault_id, nft_id)
      → check_wrapper find_pda program_id s (wrapper find_pda program_id vault_id nft_id) ≡ ok tt
  unfolding check_wrapper
  check_wrapper-wrapper vault_id nft_id fits there =
      rw
        (
          there,
          ← wrapper_lem vault_id nft_id fits,
          eqb_refl (wrapper find_pda program_id vault_id nft_id),
        )
        refl

  pub check_store-oapp : check_store find_pda program_id s (oapp find_pda program_id) ≡ ok tt
  unfolding check_store oapp
  check_store-oapp = rw (eqb_refl (find_pda program_id (codes "LendMirrorStoreV1" ∷ []))) refl

  pub check_ondemand-ondemand :
      (w : Key) (l : OndemandList)
      → s.ondemand_list (ondemand find_pda program_id w) ≡ some l
      → l.wrapper ≡ w
      → check_ondemand find_pda program_id s w (some (ondemand find_pda program_id w)) ≡ ok tt
  unfolding ondemand ondemand_seeds
  check_ondemand-ondemand w l there same =
      rw
        (
          there,
          same,
          eqb_refl w,
          eqb_refl (find_pda program_id (codes "LendMirrorOnDemandV1" ∷ w ∷ [])),
        )
        refl

  -- What Chainlink's accounts are on chain, for the route.
  pub record IsRouteState (route : CcipRouteAccount) (payer : Key) : Type 0 where
    pub config_owner : s.owner (find_pda route.router (codes "config" ∷ [])) ≡ route.router
    pub payer_empty : s.data_is_empty payer ≡ true

  pub check_programs-input :
      (i : SendInput) → check_programs find_pda program_id s (context_of i) i.route ≡ ok tt
  unfolding check_programs
  check_programs-input i =
      rw (eqb_refl system_program, eqb_refl token_program, eqb_refl i.route.router) refl

  -- The wrapper has a snapshot.
  pub apply_quote-ok :
      (options : Bytes) (c : QuoteContext) (time : ℤ)
      → s.snapshot_time c.wrapper ≡ some time
      → s.combines c.peer options ≡ true
      → apply_quote find_pda program_id s options c ≡ ok tt
  unfolding apply_quote
  apply_quote-ok options c time there combined = rw (there, combined) refl

  -- The wrapper has a snapshot that was not sent yet.
  pub record IsFresh (w : Key) : Type 0 where
    pub time : ℤ
    pub there : s.snapshot_time w ≡ some time
    pub newer : ltb_ℤ (s.last_sent_snapshot_time w) time ≡ true

  pub check_ccip-input :
      (i : SendInput) (payer selector : Bytes)
      → i.accounts ≡ send_accounts find_pda i.route payer selector
      → IsRouteState i.route i.ccip_payer
      → check_ccip find_pda program_id s (context_of i) i.route ≡ ok tt
  unfolding check_ccip send_accounts
  check_ccip-input i payer selector a r =
      rw
        (
          a,
          eqb_refl native_mint,
          eqb_refl system_program,
          r.config_owner,
          eqb_refl i.route.router,
          eqb_refl i.route.fee_quoter,
          eqb_refl i.route.rmn_remote,
          r.payer_empty,
        )
        refl

  pub check_peer-peer :
      (u32_be : ℕ → Bytes) (endpoint_settings endpoint : Key) (dst_eid : ℕ)
      → endpoint ≡ endpoint_settings
      → u32_be dst_eid ≡ be_bytes 4 dst_eid
      → check_peer find_pda program_id s endpoint_settings
          (oapp find_pda program_id)
          (Lendmirror.peer find_pda program_id u32_be dst_eid)
          endpoint
          dst_eid
        ≡ ok tt
  unfolding check_peer Lendmirror.peer peer_seeds
  check_peer-peer u32_be endpoint_settings endpoint dst_eid same be =
      let key =
        find_pda program_id
          (codes "LendMirrorPeerV1" ∷ oapp find_pda program_id ∷ be_bytes 4 dst_eid ∷ []) in
      rw (same, be, eqb_refl key, eqb_refl endpoint_settings) refl

pub ccip_send_accounts_lem :
    (find_pda : FindPda) (route : CcipRouteAccount) (payer : Key)
    → route.dest_chain_selector < 256 ^ 8
    → ccip_send_accounts find_pda route payer
      ≡ ok (send_accounts find_pda route payer (le_bytes 8 route.dest_chain_selector))
unfolding ccip_send_accounts u64le checked_le
ccip_send_accounts_lem find_pda route payer fits =
    let small : ltb route.dest_chain_selector (256 ^ 8) ≡ true = ground arith in rw small refl
