-- ===== src/Client/Reading.antt =====
-- What the program reads from the accounts of a refresh.
use lendmirror.Common.{◌≡◌, refl, Option, none, some, ◌++◌}
use lendmirror.Common.Outcome.{ok}
use lendmirror.Pda.{Key}
use lendmirror.Client.{RefreshInput}
use lendmirror.Client.Program.{RefreshContext, read_refresh_context}
use lendmirror.Instructions.{account_metas}
use lendmirror.Instructions.Refresh.{refresh_slots}
use lendmirror.Messages.Program.{take_account, take_optional_account}
use lendmirror.Messages.Reading.{IsOther, eqb_refl}

-- The context that the program gets for an input.
abbrev pub context_of : RefreshInput → RefreshContext
context_of i = record {
  authority = i.authority;
  store = i.store;
  wrapper = i.wrapper;
  ondemand = i.ondemand;
  vaults_program = i.vaults_program;
  position = i.position;
  vault_state = i.vault_state;
  vault_config = i.vault_config;
  tick = i.tick;
  tick_id_liquidation = i.tick_id_liquidation;
}

pub read_refresh_context-metas :
    (program_id : Key) (i : RefreshInput) (o l : Option Key)
    → i.ondemand ≡ o
    → i.tick_id_liquidation ≡ l
    → IsOther program_id o
    → IsOther program_id l
    → read_refresh_context program_id (account_metas program_id (refresh_slots i) ++ i.remaining)
      ≡ ok (context_of i, i.remaining)
unfolding read_refresh_context refresh_slots account_metas take_account take_optional_account
read_refresh_context-metas program_id i none none e f u v = rw (e, f, eqb_refl program_id) refl
read_refresh_context-metas program_id i none (some l) e f u v =
    rw (e, f, eqb_refl program_id, v) refl
read_refresh_context-metas program_id i (some o) none e f u v =
    rw (e, f, eqb_refl program_id, u) refl
read_refresh_context-metas program_id i (some o) (some l) e f u v = rw (e, f, u, v) refl
