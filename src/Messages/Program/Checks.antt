-- ===== src/Messages/Program/Checks.antt =====
-- The constraints on the accounts of a message and of its quote, and the checks of both handlers. An address
-- with a stored bump is the one that `find_program_address` gives for its seeds. The Store, the peer
-- and the endpoint's settings are taken to be there under their addresses.
use lendmirror.Common.{ℕ, Bool, false, ◌||◌, Option, none, some, [], ◌∷◌}
use lendmirror.Common.Keys.{eqb, contains}
use lendmirror.Common.Int.{ltb_ℤ}
use lendmirror.Common.Text.{codes}
use lendmirror.Common.Outcome.{Result, ok, ◌>>=◌, ◌>>◌, guard, require}
use lendmirror.Bytes.{Bytes, zeros, le_bytes, be_bytes}
use lendmirror.Pda.{Key, FindPda}
use lendmirror.Known.{native_mint, token_program, system_program}
use lendmirror.Ccip.{CcipRouteAccount}
use lendmirror.Messages.Program.{
  ProgramError, account_not_initialized, constraint_seeds, constraint_address, unauthorized,
  invalid_ccip_account, no_position_snapshot, snapshot_already_sent, invalid_options, OndemandList,
  ProgramState, SendContext, QuoteContext,
}

module _ (find_pda : FindPda) (program_id : Key) (s : ProgramState) where
  abbrev pub is_list_of : Key → Option OndemandList → Bool
  is_list_of w none = false
  is_list_of w (some l) = eqb l.wrapper w

  abbrev pub is_caller : Key → Option OndemandList → Bool
  is_caller key none = false
  is_caller key (some l) = contains key l.callers

  -- The list of callers: its address, that it is there, and the wrapper it belongs to.
  abbrev pub check_ondemand : Key → Option Key → Result ProgramError (Unit {0})
  check_ondemand w none = ok tt
  check_ondemand w (some key) = do
    guard (eqb key (find_pda program_id (codes "LendMirrorOnDemandV1" ∷ w ∷ []))) constraint_seeds
    guard (is_list_of w (s.ondemand_list key)) unauthorized

  abbrev pub may_call : Key → Option Key → Bool
  may_call authority none = false
  may_call authority (some key) = is_caller authority (s.ondemand_list key)

  unfoldable pub check_wrapper : Key → Result ProgramError (Unit {0})
  check_wrapper w = do
    ids ← require (s.wrapper_ids w) account_not_initialized
    guard
        (eqb w (
          find_pda program_id
            (codes "LendMirrorPositionWrapperV1" ∷ le_bytes 2 ids.0 ∷ le_bytes 4 ids.1 ∷ [])))
        constraint_seeds

  unfoldable pub check_store : Key → Result ProgramError (Unit {0})
  check_store store =
      guard (eqb store (find_pda program_id (codes "LendMirrorStoreV1" ∷ []))) constraint_seeds

  -- The constraints on the addresses of programs.
  unfoldable pub check_programs : SendContext → CcipRouteAccount → Result ProgramError (Unit {0})
  check_programs c route = do
    guard (eqb c.system_program system_program) constraint_address
    guard (eqb c.fee_token_program token_program) constraint_address
    guard (eqb c.ccip_router route.router) constraint_address

  -- `check_ccip_accounts`
  unfoldable pub check_ccip : SendContext → CcipRouteAccount → Result ProgramError (Unit {0})
  check_ccip c route = do
    guard (eqb (s.owner c.config) route.router) invalid_ccip_account
    guard (eqb c.fee_token_mint native_mint) invalid_ccip_account
    guard (eqb c.fee_token_user (zeros 32)) invalid_ccip_account
    guard (eqb c.fee_quoter route.fee_quoter) invalid_ccip_account
    guard (eqb c.rmn_remote route.rmn_remote) invalid_ccip_account
    guard (s.data_is_empty c.ccip_payer) invalid_ccip_account

  -- `apply` of a send up to the calls into LayerZero and Chainlink. The body always has 225 bytes, and
  -- so is below the limit of 256.
  unfoldable pub apply_send : (options : Bytes) → SendContext → Result ProgramError (Unit {0})
  apply_send options c = do
    time ← require (s.snapshot_time c.wrapper) no_position_snapshot
    guard (ltb_ℤ (s.last_sent_snapshot_time c.wrapper) time) snapshot_already_sent
    route ← require (s.ccip_route c.ccip_route) account_not_initialized
    check_ccip c route
    guard (s.combines c.peer options) invalid_options

  -- `apply` of a quote up to the call into LayerZero.
  unfoldable pub apply_quote : (options : Bytes) → QuoteContext → Result ProgramError (Unit {0})
  apply_quote options c = do
    time ← require (s.snapshot_time c.wrapper) no_position_snapshot
    guard (s.combines c.peer options) invalid_options

  module _ (endpoint_settings : Key) where
    unfoldable pub check_peer :
        (store peer endpoint : Key) → (dst_eid : ℕ) → Result ProgramError (Unit {0})
    check_peer store peer endpoint dst_eid = do
      guard
          (eqb peer
            (find_pda program_id (codes "LendMirrorPeerV1" ∷ store ∷ be_bytes 4 dst_eid ∷ [])))
          constraint_seeds
      guard (eqb endpoint endpoint_settings) constraint_seeds

    unfoldable pub check_send_accounts :
        (dst_eid : ℕ) → SendContext → Result ProgramError (Unit {0})
    check_send_accounts dst_eid c = do
      check_ondemand c.wrapper c.ondemand
      check_wrapper c.wrapper
      guard (contains c.authority s.senders || may_call c.authority c.ondemand) unauthorized
      check_store c.store
      check_peer c.store c.peer c.endpoint dst_eid
      guard (eqb c.ccip_payer (find_pda program_id (codes "LendMirrorCcipPayerV1" ∷ [])))
          constraint_seeds
      guard (eqb c.ccip_route (find_pda program_id (codes "LendMirrorCcipRouteV1" ∷ [])))
          constraint_seeds
      route ← require (s.ccip_route c.ccip_route) account_not_initialized
      check_programs c route

    unfoldable pub check_quote_accounts :
        (dst_eid : ℕ) → QuoteContext → Result ProgramError (Unit {0})
    check_quote_accounts dst_eid c = do
      check_store c.store
      check_wrapper c.wrapper
      check_peer c.store c.peer c.endpoint dst_eid
