-- ===== src/Client/Situation.antt =====
-- How a position stands on chain, and that the client names the accounts from which the program reads
-- it.
use lendmirror.Common.{
  ℕ, ◌+◌, ◌/◌, ◌%◌, ◌^◌, ◌≤◌, ◌<◌, ◌≡◌, refl, Bool, true, false, not, ◌&&◌, ◌||◌, Option, none,
  some, List, [], ◌∷◌, length, ltb, ◌==◌, if◌then◌else◌, get_elem?, arith,
}
use lendmirror.Common.Keys.{Distinct}
use lendmirror.Common.Outcome.{ok}
use lendmirror.Bytes.{Bytes, to_word}
use lendmirror.Pda.{Key, FindPda}
use lendmirror.Jupiter.Ticks.{
  normalize_tick, u16_le, u32_le, tick_pda_seed, liquidation_group, liquidation_slot_index,
}
use lendmirror.Jupiter.Accounts.{
  JupiterPositionFields, JupiterTickFields, JupiterTickIdLiquidationSlot,
  decode_jupiter_tick_id_liquidation,
}
use lendmirror.Jupiter.Addresses.{jupiter_tick_id_liquidation_pda, tick_id_liquidation_seeds}
use lendmirror.LivePosition.{LiveAccounts, nothing, Start, from_tick, find_start, walk_from}
use lendmirror.LivePosition.Chain.{addresses, walk-chain}
use lendmirror.Client.Program.Live.{
  JupiterView, walk_branches, tick_id_liquidation_address, read_flushed, read_live,
  liquidation_record,
}
use lendmirror.Client.Live.{IsLinked, All-contains, linked-IsChain, walk_branches_lem}
use lendmirror.Messages.Reading.{eqb_refl}

module _ (find_pda : FindPda) (get_account : Key → Option Bytes) (owner : Key → Key)
    (view : JupiterView) (vaults_program : Key) (vault_id : ℕ) (position : JupiterPositionFields)
    (tick : JupiterTickFields) where
  abbrev record_pda : Key
  record_pda =
      jupiter_tick_id_liquidation_pda find_pda vaults_program vault_id
        (normalize_tick position.tick) position.tick_id

  -- The account of older records of the tick, with the position's slot: the node answers what the
  -- program reads.
  pub record IsFlushed (slot : JupiterTickIdLiquidationSlot) : Type 0 where
    pub newer : (tick.total_ids == position.tick_id) ≡ false
    pub fits : position.tick_id + 2 < 2 ^ 32
    pub account : Bytes
    pub there : get_account record_pda ≡ some account
    pub slots : List JupiterTickIdLiquidationSlot
    pub decoded : decode_jupiter_tick_id_liquidation account ≡ ok slots
    pub slot_there : get_elem? slots (liquidation_slot_index position.tick_id) ≡ some slot
    pub read : ℕ → JupiterTickIdLiquidationSlot
    pub on_chain : view.flushed record_pda ≡ some read
    pub same : read ((position.tick_id + 2) % 3) ≡ slot

  -- Where the record of the position's liquidation is: the account of older records, if it is in
  -- one, whether nothing is left, and the first branch.
  pub data IsRecorded : Option Key → Bool → ℕ → Type 0 where
    on_tick :
        (tick.total_ids == position.tick_id) ≡ true
        → IsRecorded none tick.is_fully_liquidated tick.liquidation_branch_id
    flushed :
        (slot : JupiterTickIdLiquidationSlot)
        → IsFlushed slot
        → IsRecorded (some record_pda) slot.is_fully_liquidated slot.liquidation_branch_id

  abbrev pub is_touched : Bool
  is_touched =
      not position.is_supply_only && (tick.is_liquidated || ltb position.tick_id tick.total_ids)

  -- The three ways in which a position can stand, with the accounts that it takes to read it: not
  -- liquidated, wiped out, or with its debt on a chain of at most 32 branches.
  pub data IsSituation : Option Key → List Key → Type 0 where
    untouched : is_touched ≡ false → IsSituation none []
    wiped :
        (l : Option Key) (first : ℕ)
        → is_touched ≡ true
        → IsRecorded l true first
        → IsSituation l []
    chained :
        (l : Option Key) (first : ℕ) (ids : List ℕ)
        → is_touched ≡ true
        → IsRecorded l false first
        → IsLinked find_pda get_account owner view vaults_program vault_id first ids
        → Distinct (addresses find_pda get_account vaults_program vault_id (first ∷ ids))
        → length (first ∷ ids) ≤ 32
        → IsSituation l (addresses find_pda get_account vaults_program vault_id (first ∷ ids))

  start_of : (l : Option Key) (full : Bool) (first : ℕ) → Start
  start_of l full first = record {
    tick_id_liquidation = l;
    is_fully_liquidated = full;
    branch_id = first;
  }

  find_start_lem :
      (l : Option Key) (full : Bool) (first : ℕ)
      → IsRecorded l full first
      → find_start find_pda get_account vaults_program vault_id position tick
        ≡ ok (start_of l full first)
  unfolding find_start start_of
  find_start_lem l full first (on_tick h) = rw h refl
  find_start_lem l full first (flushed slot f) = rw (f.newer, f.there, f.decoded, f.slot_there) refl

  address_lem :
      (remaining : List Key)
      → position.tick_id + 2 < 2 ^ 32
      → tick_id_liquidation_address find_pda owner view vaults_program vault_id remaining
          (normalize_tick position.tick)
          position.tick_id
        ≡ record_pda
  unfolding tick_id_liquidation_address jupiter_tick_id_liquidation_pda tick_id_liquidation_seeds
      u16_le u32_le tick_pda_seed to_word liquidation_group
  address_lem remaining h =
      let small : ((position.tick_id + 2) / 3) % 2 ^ 32 ≡ (position.tick_id + 2) / 3 =
        omega arith in
      rw small refl

  walk_from_lem :
      (l : Option Key) (full : Bool) (first : ℕ) (result : LiveAccounts)
      → is_touched ≡ true
      → IsRecorded l full first
      → walk_from find_pda get_account vaults_program vault_id (start_of l full first) ≡ ok result
      → from_tick find_pda get_account vaults_program vault_id position tick ≡ ok result
  unfolding from_tick
  walk_from_lem l full first result t r w =
      let touched : (tick.is_liquidated || ltb position.tick_id tick.total_ids) ≡ true =
        ground arith in
      rw (touched, find_start_lem l full first r) w

  pub situation-from_tick :
      (l : Option Key) (branches : List Key)
      → IsSituation l branches
      → position.is_supply_only ≡ false
      → from_tick find_pda get_account vaults_program vault_id position tick
        ≡ ok (record { tick_id_liquidation = l; branches = branches })
  unfolding from_tick walk_from start_of
  situation-from_tick l branches (untouched h) debt =
      let calm : (tick.is_liquidated || ltb position.tick_id tick.total_ids) ≡ false =
        ground arith in
      rw calm refl
  situation-from_tick l branches (wiped m first t r) debt = walk_from_lem m true first _ t r refl
  situation-from_tick l branches (chained m first ids t r k d n) debt =
      walk_from_lem m false first _ t r (
        rw
          (walk-chain find_pda get_account vaults_program vault_id first ids
            (linked-IsChain find_pda get_account owner view vaults_program vault_id first ids k) d
            n)
          refl)

  full_or_walked :
      (remaining : List Key) (full : Bool) (first : ℕ)
      → (full ≡ false
          → walk_branches find_pda owner view vaults_program vault_id remaining 33 first ≡ ok tt)
      → (if full
          then ok tt
          else walk_branches find_pda owner view vaults_program vault_id remaining 33 first)
        ≡ ok tt
  full_or_walked remaining true first w = refl
  full_or_walked remaining false first w = w refl

  -- What the program does with the record that it found.
  read_record_lem :
      (remaining : List Key) (l : Option Key) (full : Bool) (first : ℕ)
      → is_touched ≡ true
      → IsRecorded l full first
      → (full ≡ false
          → walk_branches find_pda owner view vaults_program vault_id remaining 33 first ≡ ok tt)
      → read_live find_pda owner view vaults_program vault_id remaining position tick l ≡ ok tt
  unfolding read_live read_flushed liquidation_record
  read_record_lem remaining l full first t (on_tick h) w =
      rw (t, h) (full_or_walked remaining full first w)
  read_record_lem remaining l full first t (flushed slot f) w =
      rw (t, address_lem remaining f.fits, eqb_refl record_pda, f.on_chain, f.newer, f.same)
        (full_or_walked remaining full first w)

  pub situation-read_live :
      (l : Option Key) (branches : List Key)
      → IsSituation l branches
      → read_live find_pda owner view vaults_program vault_id branches position tick l ≡ ok tt
  unfolding read_live
  situation-read_live l branches (untouched h) = rw h refl
  situation-read_live l branches (wiped m first t r) =
      read_record_lem [] m true first t r (λ z. absurd (ground arith))
  situation-read_live l branches (chained m first ids t r k d n) =
      read_record_lem branches m false first t r (λ z.
        walk_branches_lem find_pda get_account owner view vaults_program vault_id branches 33 first
          ids k (All-contains [] branches) (omega arith))

  -- Without debt there is nothing to name.
  pub situation_supply :
      (l : Option Key) (branches : List Key)
      → IsSituation l branches
      → position.is_supply_only ≡ true
      → nothing ≡ record { tick_id_liquidation = l; branches = branches }
  situation_supply l branches (untouched h) supply = refl
  situation_supply l branches (wiped m first t r) supply = absurd (ground arith)
  situation_supply l branches (chained m first ids t r k d n) supply = absurd (ground arith)
