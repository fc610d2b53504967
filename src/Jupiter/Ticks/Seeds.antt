-- ===== src/Jupiter/Ticks/Seeds.antt =====
-- When two ticks have the same address seed.
use lendmirror.Common.{ℕ, ◌%◌, ◌^◌, ◌<◌, ◌≡◌, ◌↔◌, ap, sym, ◌∙◌, arith}
use lendmirror.Common.Int.{ℤ, pos, negsuc, add_ℕ, ◌≤ℤ◌}
use lendmirror.Bytes.{to_word, le_value, le_value-le_bytes}
use lendmirror.Jupiter.Ticks.{normalize_tick, tick_pda_seed, u32_le, u16_le}

pub to_word-lt : (z : ℤ) → to_word (2 ^ 32) z < 2 ^ 32
unfolding to_word
to_word-lt (pos n) = omega arith
to_word-lt (negsuc n) = omega arith

pub u32_le_injective : (a b : ℤ) → u32_le a ≡ u32_le b → to_word (2 ^ 32) a ≡ to_word (2 ^ 32) b
unfolding u32_le
u32_le_injective a b e =
    sym (le_value-le_bytes 4 _ (to_word-lt a))
    ∙ ap le_value e
    ∙ le_value-le_bytes 4 _ (to_word-lt b)

pub u32_le_pos_injective :
    (a b : ℕ) → a < 2 ^ 32 → b < 2 ^ 32 → u32_le (pos a) ≡ u32_le (pos b) → a ≡ b
unfolding to_word
u32_le_pos_injective a b p q e =
    let same : a % 2 ^ 32 ≡ b % 2 ^ 32 = u32_le_injective (pos a) (pos b) e in omega arith

pub u16_le_injective : (a b : ℕ) → a < 2 ^ 16 → b < 2 ^ 16 → u16_le a ≡ u16_le b → a ≡ b
unfolding u16_le
u16_le_injective a b p q e = sym (le_value-le_bytes 2 a p) ∙ ap le_value e ∙ le_value-le_bytes 2 b q

-- A number in the range of a signed 32-bit field.
abbrev pub IsI32 : ℤ → Type 0
IsI32 z = (negsuc 2147483647 ≤ℤ z) × (z ≤ℤ pos 2147483647)

normalize_tick-IsI32 : (t : ℤ) → IsI32 t → IsI32 (normalize_tick t)
unfolding normalize_tick
normalize_tick-IsI32 t h = ground arith

shift_injective :
    (a b : ℤ)
    → IsI32 a
    → IsI32 b
    → to_word (2 ^ 32) (add_ℕ a 16383) ≡ to_word (2 ^ 32) (add_ℕ b 16383)
    → a ≡ b
unfolding to_word
shift_injective a b p q e = ground arith

-- Two i32 ticks have the same PDA seed exactly when they are the same tick, the tick of a position
-- without debt counting as the lowest tick.
pub tick_pda_seed_iff :
    (a b : ℤ)
    → IsI32 a
    → IsI32 b
    → (tick_pda_seed a ≡ tick_pda_seed b) ↔ (normalize_tick a ≡ normalize_tick b)
unfolding tick_pda_seed
tick_pda_seed_iff a b p q = (
  λ e.
      shift_injective _ _ (normalize_tick-IsI32 a p) (normalize_tick-IsI32 b q)
        (u32_le_injective _ _ e),
  λ e. ap (λ t. u32_le (add_ℕ t 16383)) e,
)
