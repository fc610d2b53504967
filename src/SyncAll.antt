-- ===== src/SyncAll.antt =====
-- tasks/solana/syncAll.ts: the loop that refreshes and sends every wrapped position. The chain is a
-- state that transactions change; reading it and submitting to it are parameters.
pub mod Changed
pub mod Loop
use lendmirror.Common.{
  ℕ, Bool, true, false, not, ◌&&◌, ◌||◌, Option, none, some, List, [], ◌∷◌, ◌==◌, if◌then◌else◌,
}
use lendmirror.Common.Filter.{filter}
use lendmirror.Common.Int.{ℤ, pos, eqb_ℤ, ltb_ℤ}
use lendmirror.Common.Outcome.{Result, ok, err}
use lendmirror.Bytes.{Bytes}
use lendmirror.Pda.{Key, FindPda}
use lendmirror.Client.{ClientError, RefreshInput, refresh_wrapper}

-- The numbers of a stored snapshot that the task compares.
pub record StoredSnapshot : Type 0 where
  pub col_raw : ℕ
  pub debt_raw : ℕ
  pub tick : ℤ
  pub is_liquidated : Bool
  pub snapshot_time : ℤ

pub record WrapperAccount : Type 0 where
  pub vault_id : ℕ
  pub nft_id : ℕ
  pub snapshot : Option StoredSnapshot
  pub last_sent_snapshot_time : ℤ

abbrev pub eqb_bool : Bool → Bool → Bool
eqb_bool true b = b
eqb_bool false b = not b

unfoldable pub numbers_differ : StoredSnapshot → StoredSnapshot → Bool
numbers_differ a b =
    not (a.col_raw == b.col_raw)
    || (not (a.debt_raw == b.debt_raw)
        || (not (eqb_ℤ a.tick b.tick) || not (eqb_bool a.is_liquidated b.is_liquidated)))

abbrev pub changed_between : ℤ → Option StoredSnapshot → Option StoredSnapshot → Bool
changed_between last none b = true
changed_between last (some a) none = true
changed_between last (some a) (some b) = ltb_ℤ last a.snapshot_time || numbers_differ a b

unfoldable pub changed : WrapperAccount → WrapperAccount → Bool
unfolding numbers_differ
changed before after =
    eqb_ℤ after.last_sent_snapshot_time (pos 0)
    || changed_between after.last_sent_snapshot_time before.snapshot after.snapshot

-- `--only`, of the two numbers that it was split into.
abbrev pub is_only : Option (ℕ × ℕ) → WrapperAccount → Bool
is_only none w = true
is_only (some (vault, nft)) w = w.vault_id == vault && w.nft_id == nft

unfoldable pub selected : Option (ℕ × ℕ) → List WrapperAccount → List WrapperAccount
selected only wrappers = filter (is_only only) wrappers

-- What the task prints for a position.
pub data Outcome : Type 0 where
  no_snapshot unchanged failed : Outcome
  sent : (fee : ℕ) → Outcome

-- The node. `submit_…` tells whether the transaction was confirmed, and what the chain is then.
pub record Node : Type 1 where
  pub Chain : Type 0
  pub Failure : Type 0
  pub get_account : Chain → Key → Option Bytes
  pub get_wrapper : Chain → (vault_id nft_id : ℕ) → Result Failure (Option WrapperAccount)
  pub quote_payload : Chain → (vault_id nft_id : ℕ) → Result Failure ℕ
  pub submit_refresh : Chain → RefreshInput → Bool × Chain
  pub submit_send : Chain → (vault_id nft_id fee : ℕ) → Bool × Chain

module _ (find_pda : FindPda) (program_id authority vaults_program : Key) (node : Node)
    (skip_refresh force : Bool) where
  abbrev pub after_send : ℕ → Bool × node.Chain → Outcome × node.Chain
  after_send fee (true, s) = (sent fee, s)
  after_send fee (false, s) = (failed, s)

  abbrev pub after_quote :
      WrapperAccount → node.Chain → Result node.Failure ℕ → Outcome × node.Chain
  after_quote w s (err e) = (failed, s)
  after_quote w s (ok fee) = after_send fee (node.submit_send s w.vault_id w.nft_id fee)

  abbrev pub after_snapshot :
      WrapperAccount → node.Chain → WrapperAccount → Option StoredSnapshot → Outcome × node.Chain
  after_snapshot w s after none = (no_snapshot, s)
  after_snapshot w s after (some snap) =
      if not force && not (changed w after)
      then (unchanged, s)
      else after_quote w s (node.quote_payload s w.vault_id w.nft_id)

  abbrev pub after_read :
      WrapperAccount
      → node.Chain
      → Result node.Failure (Option WrapperAccount)
      → Outcome × node.Chain
  after_read w s (err e) = (failed, s)
  after_read w s (ok none) = (no_snapshot, s)
  after_read w s (ok (some after)) = after_snapshot w s after after.snapshot

  abbrev pub after_refresh : WrapperAccount → Bool × node.Chain → Outcome × node.Chain
  after_refresh w (false, s) = (failed, s)
  after_refresh w (true, s) = after_read w s (node.get_wrapper s w.vault_id w.nft_id)

  abbrev pub submit_built : node.Chain → Result ClientError RefreshInput → Bool × node.Chain
  submit_built s (err e) = (false, s)
  submit_built s (ok input) = node.submit_refresh s input

  unfoldable pub refresh : WrapperAccount → node.Chain → Bool × node.Chain
  refresh w s =
      if skip_refresh
      then (true, s)
      else submit_built s (
          refresh_wrapper find_pda program_id (node.get_account s) authority w.vault_id w.nft_id
            vaults_program)

  -- The body of the loop. Whatever is thrown is printed, and the loop goes on.
  unfoldable pub sync_one : WrapperAccount → node.Chain → Outcome × node.Chain
  sync_one w s = after_refresh w (refresh w s)

  unfoldable pub sync_from : List WrapperAccount → node.Chain → List Outcome × node.Chain
  sync_from [] s = ([], s)
  sync_from (w ∷ ws) s =
      let (o, s') = sync_one w s in let (os, s'') = sync_from ws s' in (o ∷ os, s'')

  unfoldable pub sync_all :
      (dry_run : Bool)
      → Option (ℕ × ℕ)
      → List WrapperAccount
      → node.Chain
      → List Outcome × node.Chain
  sync_all dry_run only wrappers s =
      if dry_run then ([], s) else sync_from (selected only wrappers) s
