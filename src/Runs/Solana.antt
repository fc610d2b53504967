-- ===== src/Runs/Solana.antt =====
-- Snapshots, accounts and addresses on Solana.
use lendmirror.Common.{
  ℕ, ◌≡◌, ◌↔◌, refl, ap, sym, ◌∙◌, true, false, Option, none, some, [], ◌∷◌, ◌++◌, length, drop,
  leb, if◌then◌else◌, arith,
}
use lendmirror.Common.Int.{pos, negsuc}
use lendmirror.Common.Keys.{eqb, contains}
use lendmirror.Common.Outcome.{ok, err}
use lendmirror.Bytes.{
  Bytes, zeros, be_bytes, length-be_bytes, be_value, be_value-be_bytes, le_bytes, to_word, read_le,
  le_value, is_nonzero_at, of_word,
}
use lendmirror.Pda.{Key}
use lendmirror.Pda.Lendmirror.Separation.{peer, IsSerializer, account_seeds_separate}
use lendmirror.Snapshot.{PositionSnapshotFields, encode_position_snapshot, must_be_32_bytes}
use lendmirror.Snapshot.Layout.{HasKeys, encode_cases, layout, first_bad_key}
use lendmirror.Snapshot.RoundTrip.{decode-encode}
use lendmirror.Snapshot.Body.{decode_body, be_at}
use lendmirror.Jupiter.Accounts.{
  JupiterPositionFields, too_small, decode_jupiter_position_fields, decode_jupiter_tick_fields,
  decode_jupiter_branch_fields, decode_jupiter_tick_id_liquidation,
}
use lendmirror.Jupiter.Accounts.Decoding.{
  position_at, tick_at, branch_at, slot_at, decode_position_lem, decode_accounts_lem,
}
use lendmirror.Jupiter.Ticks.{branch_merged, u16_le, u32_le, tick_pda_seed, normalize_tick}
use lendmirror.Jupiter.Ticks.Seeds.{tick_pda_seed_iff}
use lendmirror.Jupiter.Addresses.Separation as Jup
use lendmirror.Jupiter.Addresses.Separation.{seeds_separate}
use lendmirror.Jupiter.Addresses.{jupiter_branch_pda, jupiter_tick_pda, branch_seeds, tick_seeds}
use lendmirror.LivePosition.{read_branch, merged, final}
use lendmirror.LivePosition.{
  walk, find_start, from_tick, walk_from, collect_live_position_accounts, LiveAccounts,
}
use lendmirror.LivePosition.Chain.{addresses, walk-chain}
use lendmirror.LivePosition.Cases.{IsLive, collect-IsLive}
use lendmirror.Runs.{key_of, toy_find_pda}

abbrev snapshot : PositionSnapshotFields
snapshot = record {
  position = key_of 1;
  vault_id = 7;
  nft_id = 70000;
  position_mint = key_of 2;
  supply_token = key_of 3;
  borrow_token = key_of 4;
  col_raw = 1000000;
  debt_raw = 500000;
  dust_debt = 3;
  net_debt = 499997;
  tick = negsuc 1233;
  tick_id = 12;
  stored_col_raw = 1000001;
  stored_debt_raw = 500001;
  stored_tick = pos 55;
  is_supply_only = false;
  is_liquidated = true;
  is_fully_liquidated = false;
  branch_id = 9;
  vault_supply_exchange_price = 1000000000000;
  vault_borrow_exchange_price = 1000000000001;
  snapshot_time = pos 1700000000;
}

snapshot-HasKeys : HasKeys snapshot
snapshot-HasKeys = record {
  position = refl;
  position_mint = refl;
  supply_token = refl;
  borrow_token = refl;
}

decode-encode_example :
    (message : Bytes) × (encode_position_snapshot snapshot ≡ ok message)
    × (length message ≡ 257)
    × (be_at 0 32 message ≡ 225)
    × (decode_body (drop 32 message) ≡ snapshot)
decode-encode_example = decode-encode snapshot snapshot-HasKeys (record {
  vault_id = omega arith;
  nft_id = omega arith;
  col_raw = omega arith;
  debt_raw = omega arith;
  dust_debt = omega arith;
  net_debt = omega arith;
  tick = (omega arith, omega arith);
  tick_id = omega arith;
  stored_col_raw = omega arith;
  stored_debt_raw = omega arith;
  stored_tick = (omega arith, omega arith);
  branch_id = omega arith;
  vault_supply_exchange_price = omega arith;
  vault_borrow_exchange_price = omega arith;
  snapshot_time = (omega arith, omega arith);
})

encode_cases_example : encode_position_snapshot snapshot ≡ elim (first_bad_key snapshot) [
  | none ↦ ok (layout snapshot)
  | some k ↦ err (must_be_32_bytes k)
]
encode_cases_example = encode_cases snapshot

abbrev account : Bytes
account = zeros 80

decode_position_lem_example :
    decode_jupiter_position_fields account
    ≡ (if leb 71 (length account) then ok (position_at account) else err too_small)
decode_position_lem_example = decode_position_lem account

decode_accounts_lem_example :
    (decode_jupiter_tick_fields account
      ≡ (if leb 40 (length account) then ok (tick_at account) else err too_small))
    × (decode_jupiter_branch_fields account
        ≡ (if leb 43 (length account) then ok (branch_at account) else err too_small))
    × (decode_jupiter_tick_id_liquidation account ≡ (
        if leb 57 (length account)
        then ok (slot_at 18 account ∷ slot_at 31 account ∷ slot_at 44 account ∷ [])
        else err too_small))
decode_accounts_lem_example = decode_accounts_lem account

tick_pda_seed_iff_example :
    (tick_pda_seed (negsuc 99) ≡ tick_pda_seed (pos 100))
    ↔ (normalize_tick (negsuc 99) ≡ normalize_tick (pos 100))
tick_pda_seed_iff_example =
    tick_pda_seed_iff (negsuc 99) (pos 100) (omega arith, omega arith) (omega arith, omega arith)

seeds_separate_example : Jup.Same (Jup.tick 3 (negsuc 5)) (Jup.tick 3 (negsuc 5))
seeds_separate_example =
    seeds_separate (Jup.tick 3 (negsuc 5)) (Jup.tick 3 (negsuc 5))
      (omega arith, (omega arith, omega arith)) (omega arith, (omega arith, omega arith)) refl

be_bytes-IsSerializer : IsSerializer (be_bytes 4)
be_bytes-IsSerializer = record {
  four = λ n h. length-be_bytes 4 n;
  injective = λ n m p q e. sym (be_value-be_bytes 4 n p) ∙ ap be_value e ∙ be_value-be_bytes 4 m q;
}

account_seeds_separate_example : peer (key_of 1) 30110 ≡ peer (key_of 1) 30110
account_seeds_separate_example =
    account_seeds_separate (be_bytes 4) be_bytes-IsSerializer (peer (key_of 1) 30110)
      (peer (key_of 1) 30110) (refl, omega arith) (refl, omega arith) refl

-- Branch 1 is merged into branch 2, which is not merged.
abbrev branch_account : ℕ → ℕ → Bytes
branch_account status connected = zeros 14 ++ (status ∷ (zeros 24 ++ (connected ∷ zeros 3)))

abbrev node : Key → Option Bytes
node k =
    if eqb k (jupiter_branch_pda toy_find_pda (key_of 9) 1 1)
    then some (branch_account branch_merged 2)
    else if eqb k (jupiter_branch_pda toy_find_pda (key_of 9) 1 2)
    then some (branch_account 0 0)
    else none

first_read : read_branch node (jupiter_branch_pda toy_find_pda (key_of 9) 1 1) ≡ ok (merged 2)
unfolding read_branch jupiter_branch_pda eqb branch_seeds u16_le le_bytes u32_le to_word
    decode_jupiter_branch_fields read_le le_value
first_read = refl

last_read : read_branch node (jupiter_branch_pda toy_find_pda (key_of 9) 1 2) ≡ ok final
unfolding read_branch jupiter_branch_pda eqb branch_seeds u16_le le_bytes u32_le to_word
    decode_jupiter_branch_fields read_le le_value
last_read = refl

apart :
    contains
      (jupiter_branch_pda toy_find_pda (key_of 9) 1 1)
      (jupiter_branch_pda toy_find_pda (key_of 9) 1 2 ∷ [])
    ≡ false
unfolding contains jupiter_branch_pda branch_seeds u16_le le_bytes u32_le to_word
apart = refl

walk-chain_example :
    walk toy_find_pda node (key_of 9) 1 32 1 []
    ≡ ok (addresses toy_find_pda node (key_of 9) 1 (1 ∷ 2 ∷ []))
unfolding jupiter_branch_pda contains
walk-chain_example =
    walk-chain toy_find_pda node (key_of 9) 1 1 (2 ∷ []) (first_read, last_read) (apart, (refl, tt))
      (omega arith)

-- A position on a liquidated tick, whose debt moved to branch 1.
abbrev indebted : JupiterPositionFields
indebted = record {
  vault_id = 1;
  nft_id = 2;
  is_supply_only = false;
  tick = pos 4;
  tick_id = 1;
  supply_amount = 5;
  dust_debt_amount = 0;
}

abbrev chain : Key → Option Bytes
chain k =
    if eqb k (jupiter_tick_pda toy_find_pda (key_of 9) 1 (pos 4))
    then some (zeros 14 ++ (1 ∷ 1 ∷ (zeros 12 ++ (1 ∷ zeros 12))))
    else node k

abbrev collected : LiveAccounts
collected = record {
  tick_id_liquidation = none;
  branches =
      jupiter_branch_pda toy_find_pda (key_of 9) 1 1
      ∷ jupiter_branch_pda toy_find_pda (key_of 9) 1 2
      ∷ [];
}

collects : collect_live_position_accounts toy_find_pda chain (key_of 9) 1 indebted ≡ ok collected
unfolding collect_live_position_accounts eqb jupiter_tick_pda tick_seeds u16_le le_bytes
    tick_pda_seed u32_le to_word normalize_tick decode_jupiter_tick_fields read_le is_nonzero_at
    le_value walk contains read_branch of_word decode_jupiter_branch_fields branch_seeds
    jupiter_branch_pda find_start from_tick walk_from
collects = refl

collect-IsLive_example : IsLive toy_find_pda chain (key_of 9) 1 collected
collect-IsLive_example = collect-IsLive toy_find_pda chain (key_of 9) 1 indebted collected collects
