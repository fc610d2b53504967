-- ===== src/Jupiter/Ticks.antt =====
-- lib/client/jupiter.ts, lines 6-32 and 143-145: tick numbers, seed integers, liquidation slots.
pub mod Groups
pub mod Seeds
use lendmirror.Common.{ℕ, ◌+◌, ◌-◌, ◌/◌, ◌%◌, ◌^◌, if◌then◌else◌}
use lendmirror.Common.Int.{ℤ, pos, negsuc, add_ℕ, eqb_ℤ}
use lendmirror.Bytes.{Bytes, le_bytes, to_word}

-- -16383
abbrev pub jupiter_min_tick : ℤ
jupiter_min_tick = negsuc 16382

-- -2147483648
abbrev pub jupiter_init_tick : ℤ
jupiter_init_tick = negsuc 2147483647

abbrev pub jupiter_tick_pda_offset : ℕ
jupiter_tick_pda_offset = 16383

abbrev pub branch_merged : ℕ
branch_merged = 2

-- `setUint16` keeps the low sixteen bits.
unfoldable pub u16_le : ℕ → Bytes
u16_le n = le_bytes 2 n

-- `n >>> 0` is the number's low 32 bits, also of a negative one.
unfoldable pub u32_le : ℤ → Bytes
u32_le n = le_bytes 4 (to_word (2 ^ 32) n)

unfoldable pub normalize_tick : ℤ → ℤ
normalize_tick tick = if eqb_ℤ tick jupiter_init_tick then jupiter_min_tick else tick

unfoldable pub tick_pda_seed : ℤ → Bytes
tick_pda_seed tick = u32_le (add_ℕ (normalize_tick tick) jupiter_tick_pda_offset)

unfoldable pub liquidation_slot_index : ℕ → ℕ
liquidation_slot_index tick_id = (tick_id + 2) % 3

-- The last seed of `jupiterTickIdLiquidationPda`: three position ids share an account.
unfoldable pub liquidation_group : ℕ → ℕ
liquidation_group tick_id = (tick_id + 2) / 3
