-- ===== src/Pda/Pieces.antt =====
-- Taking rows of seeds apart: a common prefix, ids of two and four bytes, keys.
use lendmirror.Common.{ℕ, ◌^◌, ◌<◌, ◌≡◌, refl, sym, ◌∙◌, [], ◌∷◌, ◌++◌, length}
use lendmirror.Common.{append-injective}
use lendmirror.Common.Int.{ℤ, pos}
use lendmirror.Bytes.{Bytes, length-le_bytes}
use lendmirror.Pda.{Key, seed_bytes}
use lendmirror.Jupiter.Ticks.{u16_le, u32_le}
use lendmirror.Jupiter.Ticks.Seeds.{u16_le_injective, u32_le_pos_injective}

-- The first piece of a row and what follows it, once a common prefix is gone.
pub same_prefix : (name : Bytes) {us vs : Bytes} → name ++ us ≡ name ++ vs → us ≡ vs
same_prefix name {us} {vs} e = (append-injective name name {us = us} {vs = vs} refl e).1

pub u16_first :
    (v w : ℕ) {us vs : Bytes}
    → v < 2 ^ 16
    → w < 2 ^ 16
    → u16_le v ++ us ≡ u16_le w ++ vs
    → (v ≡ w) × (us ≡ vs)
unfolding u16_le
u16_first v w {us} {vs} p q e =
    let (here, later) =
      append-injective (u16_le v) (u16_le w) {us = us} {vs = vs}
        (length-le_bytes 2 v ∙ sym (length-le_bytes 2 w)) e in
    (u16_le_injective v w p q here, later)

pub u32_first :
    (a b : ℤ) {us vs : Bytes} → u32_le a ++ us ≡ u32_le b ++ vs → (u32_le a ≡ u32_le b) × (us ≡ vs)
unfolding u32_le
u32_first a b {us} {vs} e =
    append-injective (u32_le a) (u32_le b) {us = us} {vs = vs}
      (length-le_bytes 4 _ ∙ sym (length-le_bytes 4 _)) e

pub id_first :
    (a b : ℕ) {us vs : Bytes}
    → a < 2 ^ 32
    → b < 2 ^ 32
    → u32_le (pos a) ++ us ≡ u32_le (pos b) ++ vs
    → (a ≡ b) × (us ≡ vs)
id_first a b {us} {vs} p q e =
    let (here, later) = u32_first (pos a) (pos b) {us = us} {vs = vs} e in
    (u32_le_pos_injective a b p q here, later)

pub pair_eq :
    (name : Bytes) (v w n m : ℕ)
    → (v < 2 ^ 16) × (n < 2 ^ 32)
    → (w < 2 ^ 16) × (m < 2 ^ 32)
    → seed_bytes (name ∷ u16_le v ∷ u32_le (pos n) ∷ [])
      ≡ seed_bytes (name ∷ u16_le w ∷ u32_le (pos m) ∷ [])
    → (v ≡ w) × (n ≡ m)
pair_eq name v w n m p q e =
    let (here, later) = u16_first v w p.0 q.0 (same_prefix name e) in
    (here, (id_first n m p.1 q.1 later).0)

pub id_eq :
    (name : Bytes) (v w : ℕ)
    → v < 2 ^ 16
    → w < 2 ^ 16
    → seed_bytes (name ∷ u16_le v ∷ []) ≡ seed_bytes (name ∷ u16_le w ∷ [])
    → v ≡ w
id_eq name v w p q e = (u16_first v w p q (same_prefix name e)).0

pub key_first :
    (k l : Key) {us vs : Bytes}
    → length k ≡ 32
    → length l ≡ 32
    → k ++ us ≡ l ++ vs
    → (k ≡ l) × (us ≡ vs)
key_first k l {us} {vs} p q e = append-injective k l {us = us} {vs = vs} (p ∙ sym q) e
