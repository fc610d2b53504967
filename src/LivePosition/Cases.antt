-- ===== src/LivePosition/Cases.antt =====
-- What the collected accounts are, whatever the node answers.
use lendmirror.Common.{ℕ, ◌≡◌, ◌≢◌, ◌||◌, Option, none, some}
use lendmirror.Common.{List, [], ltb, Bool-cases, Option-cases, inl, inr, arith}
use lendmirror.Common.Outcome.{ok, Result-cases}
use lendmirror.Bytes.{Bytes}
use lendmirror.Pda.{Key, FindPda}
use lendmirror.Jupiter.Accounts.{
  JupiterPositionFields, JupiterTickFields, decode_jupiter_tick_fields,
}
use lendmirror.Jupiter.Addresses.{jupiter_tick_pda}
use lendmirror.LivePosition.{
  LiveAccounts, nothing, Start, walk, find_start, walk_from, from_tick,
  collect_live_position_accounts,
}
use lendmirror.LivePosition.Walk.{IsTrail, IsTrail-weaken, walk-IsTrail}

module _ (find_pda : FindPda) (get_account : Key → Option Bytes) (vaults_program : Key)
    (vault_id : ℕ) where
  IsTrail-empty : IsTrail find_pda get_account vaults_program vault_id 0 []
  IsTrail-empty = record { distinct = tt; exist = tt; short = omega arith }

  live_branches : LiveAccounts → List Key
  live_branches result = result.branches

  -- The accounts named are those of a liquidation record that is there, if any.
  pub record IsLive (result : LiveAccounts) : Type 0 where
    pub trail : IsTrail find_pda get_account vaults_program vault_id 32 result.branches
    pub there : (k : Key) → result.tick_id_liquidation ≡ some k → get_account k ≢ none

  IsLive-nothing : IsLive nothing
  IsLive-nothing = record {
    trail = IsTrail-weaken find_pda get_account vaults_program vault_id 0 32 [] IsTrail-empty;
    there = λ k h. cc;
  }

  finish : (start : Start) (branches : List Key) → LiveAccounts
  finish start branches = record {
    tick_id_liquidation = start.tick_id_liquidation;
    branches = branches;
  }

  finish-IsLive :
      (start : Start) (branches : List Key) (result : LiveAccounts)
      → ((k : Key) → start.tick_id_liquidation ≡ some k → get_account k ≢ none)
      → IsTrail find_pda get_account vaults_program vault_id 32 branches
      → finish start branches ≡ result
      → IsLive result
  unfolding finish
  finish-IsLive start branches result there trail e =
      rw (← e) record { trail = trail; there = there }

  as_nothing : (result : LiveAccounts) → nothing ≡ result → IsLive result
  as_nothing result same = rw (← same) IsLive-nothing

  walk_from-IsLive :
      (start : Start) (result : LiveAccounts)
      → ((k : Key) → start.tick_id_liquidation ≡ some k → get_account k ≢ none)
      → walk_from find_pda get_account vaults_program vault_id start ≡ ok result
      → IsLive result
  unfolding walk_from finish
  walk_from-IsLive start result there e = elim (Bool-cases start.is_fully_liquidated) [
    | inl full ↦
        finish-IsLive start [] result there
          (IsTrail-weaken find_pda get_account vaults_program vault_id 0 32 [] IsTrail-empty) cc
    | inr left ↦
        elim (Result-cases
          (walk find_pda get_account vaults_program vault_id 32 start.branch_id [])) [
            | inl (branches, walked) ↦
                finish-IsLive start branches result there
                  (walk-IsTrail find_pda get_account vaults_program vault_id 32 0 start.branch_id []
                    branches IsTrail-empty walked)
                  (ground arith)
            | inr (x, failed) ↦ ground arith
          ]
  ]

  find_start-there :
      (position : JupiterPositionFields) (tick : JupiterTickFields) (start : Start)
      → find_start find_pda get_account vaults_program vault_id position tick ≡ ok start
      → (k : Key) → start.tick_id_liquidation ≡ some k
      → get_account k ≢ none
  unfolding find_start
  find_start-there position tick start e k h = λ gone. ground arith

  from_tick-IsLive :
      (position : JupiterPositionFields) (tick : JupiterTickFields) (result : LiveAccounts)
      → from_tick find_pda get_account vaults_program vault_id position tick ≡ ok result
      → IsLive result
  unfolding from_tick
  from_tick-IsLive position tick result e =
      elim (Bool-cases (tick.is_liquidated || ltb position.tick_id tick.total_ids)) [
        | inr calm ↦ as_nothing result (ground arith)
        | inl touched ↦
            elim (Result-cases
              (find_start find_pda get_account vaults_program vault_id position tick)) [
                | inl (start, found) ↦
                    walk_from-IsLive start result (find_start-there position tick start found)
                      (ground arith)
                | inr (x, failed) ↦ ground arith
              ]
      ]

  -- Whatever the node answers: the accounts that are collected are a liquidation account that
  -- exists, if one is named, and at most 32 branch accounts, all of which exist and no two of which
  -- are the same.
  pub collect-IsLive :
      (position : JupiterPositionFields) (result : LiveAccounts)
      → collect_live_position_accounts find_pda get_account vaults_program vault_id position
        ≡ ok result
      → IsLive result
  unfolding collect_live_position_accounts
  collect-IsLive position result e = elim (Bool-cases position.is_supply_only) [
    | inl supply ↦ as_nothing result (ground arith)
    | inr debt ↦
        elim (Option-cases
          (get_account (jupiter_tick_pda find_pda vaults_program vault_id position.tick))) [
            | inl gone ↦ as_nothing result (ground arith)
            | inr (account, there) ↦ elim (Result-cases (decode_jupiter_tick_fields account)) [
              | inl (tick, decoded) ↦ from_tick-IsLive position tick result (ground arith)
              | inr (x, failed) ↦ ground arith
            ]
          ]
  ]
