-- ===== src/Client/Program.antt =====
-- programs/lendmirror/src/instructions/refresh_wrapper.rs, lines 26-100: the accounts of a refresh, as
-- the program on chain reads and checks them.
pub mod Live
use lendmirror.Common.{Bool, true, false, ◌||◌, Option, none, some, List, [], ◌∷◌}
use lendmirror.Common.Keys.{eqb, contains}
use lendmirror.Common.Text.{codes}
use lendmirror.Common.Outcome.{Result, ok, ◌>>=◌, ◌>>◌, guard, require}
use lendmirror.Bytes.{Bytes, le_bytes}
use lendmirror.Pda.{Key, FindPda}
use lendmirror.Ix.{AccountMeta}
use lendmirror.Messages.Program.{
  ProgramError, account_not_initialized, constraint_seeds, constraint_owner, unauthorized,
  invalid_jupiter_account, ProgramState, take_account, take_optional_account,
}
use lendmirror.Messages.Program.Checks.{check_store, check_wrapper, check_ondemand, may_call}

pub record RefreshContext : Type 0 where
  pub authority : Key
  pub store : Key
  pub wrapper : Key
  pub ondemand : Option Key
  pub vaults_program : Key
  pub position : Key
  pub vault_state : Key
  pub vault_config : Key
  pub tick : Key
  pub tick_id_liquidation : Option Key

unfoldable pub read_refresh_context :
    Key → List AccountMeta → Result ProgramError (RefreshContext × List AccountMeta)
unfolding take_account take_optional_account
read_refresh_context program_id m0 = do
  (authority, m1) ← take_account false true m0
  (store, m2) ← take_account false false m1
  (wrapper, m3) ← take_account true false m2
  (ondemand, m4) ← take_optional_account program_id m3
  (vaults_program, m5) ← take_account false false m4
  (position, m6) ← take_account false false m5
  (vault_state, m7) ← take_account false false m6
  (vault_config, m8) ← take_account false false m7
  (tick, m9) ← take_account false false m8
  (tick_id_liquidation, m10) ← take_optional_account program_id m9
  ok (
    record {
      authority = authority;
      store = store;
      wrapper = wrapper;
      ondemand = ondemand;
      vaults_program = vaults_program;
      position = position;
      vault_state = vault_state;
      vault_config = vault_config;
      tick = tick;
      tick_id_liquidation = tick_id_liquidation;
    },
    m10,
  )

-- What only a refresh reads: the Store's snapshotters and vaults program, and a wrapper's owner.
pub record RefreshState : Type 0 where
  pub shared : ProgramState
  pub snapshotters : List Key
  pub vaults_program : Key
  pub wrapper_owner : Key → Key

module _ (find_pda : FindPda) (program_id : Key) (s : RefreshState) where
  -- An account of the vaults program under the given seeds.
  abbrev pub check_jupiter :
      (vaults_program key : Key) → List Bytes → Result ProgramError (Unit {0})
  check_jupiter vaults_program key seeds = do
    guard (eqb key (find_pda vaults_program seeds)) constraint_seeds
    guard (eqb (s.shared.owner key) vaults_program) constraint_owner

  abbrev pub check_optional_owner : Key → Option Key → Result ProgramError (Unit {0})
  check_optional_owner vaults_program none = ok tt
  check_optional_owner vaults_program (some key) =
      guard (eqb (s.shared.owner key) vaults_program) constraint_owner

  abbrev pub may_refresh : Key → Key → Bool
  may_refresh w authority = eqb (s.wrapper_owner w) authority || contains authority s.snapshotters

  unfoldable pub check_refresh_accounts : RefreshContext → Result ProgramError (Unit {0})
  check_refresh_accounts c = do
    check_store find_pda program_id s.shared c.store
    check_wrapper find_pda program_id s.shared c.wrapper
    ids ← require (s.shared.wrapper_ids c.wrapper) account_not_initialized
    guard
        (may_refresh c.wrapper c.authority
          || may_call find_pda program_id s.shared c.authority c.ondemand)
        unauthorized
    check_ondemand find_pda program_id s.shared c.wrapper c.ondemand
    guard (eqb c.vaults_program s.vaults_program) invalid_jupiter_account
    check_jupiter c.vaults_program c.position
        (codes "position" ∷ le_bytes 2 ids.0 ∷ le_bytes 4 ids.1 ∷ [])
    check_jupiter c.vaults_program c.vault_state (codes "vault_state" ∷ le_bytes 2 ids.0 ∷ [])
    check_jupiter c.vaults_program c.vault_config (codes "vault_config" ∷ le_bytes 2 ids.0 ∷ [])
    guard (eqb (s.shared.owner c.tick) c.vaults_program) constraint_owner
    check_optional_owner c.vaults_program c.tick_id_liquidation
