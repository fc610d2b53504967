-- ===== src/Jupiter/Ticks/Groups.antt =====
-- Three tick ids share a liquidation account, each with a slot of its own.
use lendmirror.Common.{ℕ, ◌+◌, ◌*◌, ◌<◌, ◌≡◌, arith}
use lendmirror.Jupiter.Ticks.{liquidation_slot_index, liquidation_group}

-- The group of a tick id and its slot in the group determine the tick id, and the slot is one of
-- the three that a liquidation account holds.
liquidation_slot_unique :
    (tick_id other : ℕ)
    → liquidation_group tick_id ≡ liquidation_group other
    → liquidation_slot_index tick_id ≡ liquidation_slot_index other
    → (tick_id ≡ other) × (liquidation_slot_index tick_id < 3)
unfolding liquidation_group liquidation_slot_index
liquidation_slot_unique tick_id other g s = (omega arith, omega arith)

-- The ids 3 g + 1, 3 g + 2 and 3 g + 3 are those of group g + 1, in slots 0, 1 and 2.
liquidation_group_members :
    (g slot : ℕ)
    → slot < 3
    → (liquidation_group (3 * g + 1 + slot) ≡ g + 1)
      × (liquidation_slot_index (3 * g + 1 + slot) ≡ slot)
unfolding liquidation_group liquidation_slot_index
liquidation_group_members g slot h = (omega arith, omega arith)
