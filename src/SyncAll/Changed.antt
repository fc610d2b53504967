-- ===== src/SyncAll/Changed.antt =====
-- When a refreshed position is not sent again.
use lendmirror.Common.{◌≡◌, ◌≢◌, refl, Bool, true, false, ◌||◌, ◌↔◌, Option, none, some, arith}
use lendmirror.Common.Int.{pos, ◌≤ℤ◌, eqb_ℤ, eqb_ℤ_iff}
use lendmirror.SyncAll.{
  eqb_bool, StoredSnapshot, WrapperAccount, numbers_differ, changed_between, changed,
}

-- It was sent before; the snapshot it had is not newer than the last one that was sent; and the
-- refresh left the numbers that the EVM side reads as they were.
pub record IsSame (before after : WrapperAccount) : Type 0 where
  pub old : StoredSnapshot
  pub new : StoredSnapshot
  pub old_is : before.snapshot ≡ some old
  pub new_is : after.snapshot ≡ some new
  pub sent_before : after.last_sent_snapshot_time ≢ pos 0
  pub old_sent : old.snapshot_time ≤ℤ after.last_sent_snapshot_time
  pub same_col : old.col_raw ≡ new.col_raw
  pub same_debt : old.debt_raw ≡ new.debt_raw
  pub same_tick : old.tick ≡ new.tick
  pub same_liquidated : old.is_liquidated ≡ new.is_liquidated

eqb_bool_iff : (a b : Bool) → (eqb_bool a b ≡ true) ↔ (a ≡ b)
eqb_bool_iff true true = (λ _. refl, λ _. refl)
eqb_bool_iff true false = (λ h. cc, λ h. cc)
eqb_bool_iff false true = (λ h. cc, λ h. cc)
eqb_bool_iff false false = (λ _. refl, λ _. refl)

abbrev SameNumbers : StoredSnapshot → StoredSnapshot → Type 0
SameNumbers a b =
    (a.col_raw ≡ b.col_raw)
    × (a.debt_raw ≡ b.debt_raw)
    × (a.tick ≡ b.tick)
    × (a.is_liquidated ≡ b.is_liquidated)

numbers_differ-false : (a b : StoredSnapshot) → (numbers_differ a b ≡ false) ↔ SameNumbers a b
unfolding numbers_differ
numbers_differ-false a b =
    ground (arith, eqb_ℤ_iff a.tick b.tick, eqb_bool_iff a.is_liquidated b.is_liquidated)

IsSame-of :
    (before after : WrapperAccount) (o p : Option StoredSnapshot)
    → before.snapshot ≡ o
    → after.snapshot ≡ p
    → after.last_sent_snapshot_time ≢ pos 0
    → changed_between after.last_sent_snapshot_time o p ≡ false
    → IsSame before after
IsSame-of before after none p e f n h = cc
IsSame-of before after (some a) none e f n h = cc
IsSame-of before after (some a) (some b) e f n h =
    let same : SameNumbers a b = (numbers_differ-false a b).0 (ground arith) in
    record {
      old = a;
      new = b;
      old_is = e;
      new_is = f;
      sent_before = n;
      old_sent = ground arith;
      same_col = same.0;
      same_debt = same.1;
      same_tick = same.2;
      same_liquidated = same.3;
    }

-- A refreshed wrapper counts as unchanged exactly if it was sent before, its snapshot before the
-- refresh is not newer than the last one sent, and collateral, debt, tick and the liquidation flag
-- are as they were.
pub changed-IsSame :
    (before after : WrapperAccount) → (changed before after ≡ false) ↔ IsSame before after
unfolding changed
changed-IsSame before after = (forward, backward)
  where
    second : (a b : Bool) → (a || b) ≡ false → b ≡ false
    second a b h = ground arith

    forward :
        (eqb_ℤ after.last_sent_snapshot_time (pos 0)
            || changed_between after.last_sent_snapshot_time before.snapshot after.snapshot)
          ≡ false
        → IsSame before after
    forward h =
        IsSame-of before after before.snapshot after.snapshot refl refl
          (λ z. let clash = (eqb_ℤ_iff after.last_sent_snapshot_time (pos 0)).1 z in ground arith)
          (second (eqb_ℤ after.last_sent_snapshot_time (pos 0))
            (changed_between after.last_sent_snapshot_time before.snapshot after.snapshot) h)

    backward :
        IsSame before after
        → (eqb_ℤ after.last_sent_snapshot_time (pos 0)
            || changed_between after.last_sent_snapshot_time before.snapshot after.snapshot)
          ≡ false
    backward s =
        rw (s.old_is, s.new_is)
          (ground (
            arith,
            eqb_ℤ_iff after.last_sent_snapshot_time (pos 0),
            s.sent_before,
            s.old_sent,
            (numbers_differ-false s.old s.new).1
                (s.same_col, s.same_debt, s.same_tick, s.same_liquidated),
          ))
