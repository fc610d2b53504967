-- ===== src/Runs/Wrappers.antt =====
-- The wrappers of positions.
use lendmirror.Common.{
  true, false, List, inl, arith, ◌≡◌, ◌↔◌, refl, Option, none, some, [], ◌∷◌, ◌++◌,
}
use lendmirror.Common.Int.{pos}
use lendmirror.Common.Outcome.{ok}
use lendmirror.Bytes.{Bytes, zeros, read_le, le_value, is_nonzero_at, of_word}
use lendmirror.Pda.{Key}
use lendmirror.Common.Keys.{eqb, contains}
use lendmirror.Pda.Lendmirror.{wrapper, ondemand, ondemand_seeds}
use lendmirror.Jupiter.Accounts.{
  JupiterPositionFields, JupiterTickFields, JupiterBranchFields, decode_jupiter_position_fields,
  decode_jupiter_tick_fields, decode_jupiter_branch_fields,
}
use lendmirror.Jupiter.Addresses.{jupiter_tick_pda, jupiter_branch_pda}
use lendmirror.LivePosition.{nothing, collect_live_position_accounts}
use lendmirror.Client.{PositionWrapper, RefreshInput, list_wrappers, refresh_input, refresh_wrapper}
use lendmirror.Client.Program.{RefreshState}
use lendmirror.Client.Constraints.{IsRefreshState}
use lendmirror.Client.Accepted.{IsPositionState, IsAcceptedRefresh, refresh_wrapper-IsAccepted}
use lendmirror.Client.Program.Live.{JupiterView}
use lendmirror.Client.Live.{IsLast}
use lendmirror.Client.Situation.{IsSituation, on_tick, chained}
use lendmirror.Jupiter.Ticks.{normalize_tick}
use lendmirror.Client.Custody.{Among, IsCurrent, list_wrappers-IsCurrent}
use lendmirror.Client.Refresh.{IsRefresh, refresh_wrapper-IsRefresh}
use lendmirror.Runs.{key_of, toy_find_pda}

abbrev current : PositionWrapper
current = record { public_key = wrapper toy_find_pda (key_of 1) 1 2; vault_id = 1; nft_id = 2 }

abbrev stale : PositionWrapper
stale = record { public_key = key_of 7; vault_id = 1; nft_id = 3 }

list_wrappers-IsCurrent_example :
    Among current (list_wrappers toy_find_pda (key_of 1) (stale ∷ current ∷ []))
    ↔ (Among current (stale ∷ current ∷ []) × IsCurrent toy_find_pda (key_of 1) current)
list_wrappers-IsCurrent_example =
    list_wrappers-IsCurrent toy_find_pda (key_of 1) current (stale ∷ current ∷ [])

-- A position without debt.
abbrev lender : Key → Option Bytes
lender k = some (zeros 46 ++ (1 ∷ zeros 24))

abbrev refreshed_input : RefreshInput
refreshed_input =
    refresh_input toy_find_pda (key_of 1) lender (key_of 2) 1 2 (key_of 9)
      (jupiter_tick_pda toy_find_pda (key_of 9) 1 (pos 0)) nothing

refreshes :
    refresh_wrapper toy_find_pda (key_of 1) lender (key_of 2) 1 2 (key_of 9) ≡ ok refreshed_input
unfolding refresh_wrapper decode_jupiter_position_fields collect_live_position_accounts read_le
    le_value is_nonzero_at of_word
refreshes = refl

refresh_wrapper-IsRefresh_example :
    IsRefresh toy_find_pda (key_of 1) lender (key_of 2) 1 2 (key_of 9) refreshed_input none
refresh_wrapper-IsRefresh_example =
    refresh_wrapper-IsRefresh toy_find_pda (key_of 1) lender (key_of 2) 1 2 (key_of 9)
      refreshed_input none refreshes

-- The caller is a snapshotter, and a list of callers is attached.
abbrev chain : RefreshState
chain = record {
  shared = record {
    senders = [];
    wrapper_ids = λ _. some (1, 2);
    ondemand_list =
        λ _. some (record { wrapper = wrapper toy_find_pda (key_of 1) 1 2; callers = [] });
    ccip_route = λ _. none;
    owner = λ _. key_of 9;
    data_is_empty = λ _. true;
    snapshot_time = λ _. none;
    last_sent_snapshot_time = λ _. pos 0;
    combines = λ _ _. true;
  };
  snapshotters = key_of 2 ∷ [];
  vaults_program = key_of 9;
  wrapper_owner = λ _. key_of 5;
}

-- A liquidated position whose debt is on branch 2, which is not merged: one account can be read as the
-- position, as its tick and as the branch.
abbrev borrower : Key → Option Bytes
borrower k =
    some (zeros 8 ++ (1 ∷ 0 ∷ 2 ∷ 0 ∷ 0 ∷ 0 ∷ 1 ∷ zeros 13) ++ (2 ∷ zeros 18) ++ (2 ∷ zeros 23))

abbrev position : JupiterPositionFields
position = record {
  vault_id = 1;
  nft_id = 2;
  is_supply_only = false;
  tick = pos 2;
  tick_id = 0;
  supply_amount = 0;
  dust_debt_amount = 0;
}

abbrev tick : JupiterTickFields
tick = record {
  tick = pos 2;
  is_liquidated = true;
  total_ids = 0;
  is_fully_liquidated = false;
  liquidation_branch_id = 2;
  debt_factor = 0;
}

abbrev branch : JupiterBranchFields
branch = record {
  branch_id = 2;
  status = 1;
  minima_tick = pos 0;
  minima_tick_partials = 0;
  debt_factor = 0;
  connected_branch_id = 0;
}

abbrev view : JupiterView
view = record {
  position = λ _. some position;
  tick = λ _. some (record { vault_id = 1; fields = tick });
  flushed = λ _. none;
  branch = λ _. some (record { vault_id = 1; fields = branch });
  reads_prices = λ _. true;
  reads_tokens = λ _. true;
  ends_at = λ _. false;
}

abbrev tick_key : Key
tick_key = jupiter_tick_pda toy_find_pda (key_of 9) 1 (pos 2)

refresh_state :
    IsRefreshState toy_find_pda (key_of 1) chain borrower (key_of 2) 1 2 (key_of 9) tick_key none
unfolding ondemand ondemand_seeds eqb contains
refresh_state = record {
  nft_fits = omega arith;
  wrapper_there = refl;
  list = record {
    is_other = refl;
    attached = λ account there.
        (record { wrapper = wrapper toy_find_pda (key_of 1) 1 2; callers = [] }, refl, refl);
    allowed = inl refl;
  };
  same_vaults = refl;
  position_owned = refl;
  state_owned = refl;
  config_owned = refl;
  tick_owned = refl;
  liquidation_owned = tt;
  liquidation_other = tt;
}

position_state :
    IsPositionState toy_find_pda
      (key_of 1)
      chain
      borrower
      (key_of 2)
      1
      2
      (key_of 9)
      view
      position
      tick
unfolding decode_jupiter_position_fields decode_jupiter_tick_fields read_le le_value is_nonzero_at
    of_word normalize_tick
position_state = record {
  account = _;
  there = refl;
  decoded = refl;
  on_chain = refl;
  vault = refl;
  nft = refl;
  tick_account = _;
  tick_there = refl;
  tick_decoded = refl;
  tick_on_chain = refl;
  tick_named = refl;
  prices = refl;
  tokens = refl;
}

last : IsLast toy_find_pda borrower chain.shared.owner view (key_of 9) 1 2
unfolding decode_jupiter_branch_fields read_le le_value of_word
last = record {
  fields = branch;
  branch = record {
    fits = omega arith;
    account = _;
    there = refl;
    decoded = refl;
    on_chain = refl;
    named = refl;
    owned = refl;
  };
  unmerged = refl;
}

abbrev branches : List Key
branches = jupiter_branch_pda toy_find_pda (key_of 9) 1 2 ∷ []

situation :
    IsSituation toy_find_pda borrower chain.shared.owner view
      (key_of 9)
      1
      position
      tick
      none
      branches
unfolding contains
situation = chained none 2 [] refl (on_tick refl) last (refl, tt) (omega arith)

refresh_wrapper-IsAccepted_example :
    IsAcceptedRefresh toy_find_pda
      (key_of 1)
      chain
      borrower
      (key_of 2)
      1
      2
      (key_of 9)
      view
      tick_key
      none
      branches
refresh_wrapper-IsAccepted_example =
    refresh_wrapper-IsAccepted toy_find_pda (key_of 1) chain borrower (key_of 2) 1 2 (key_of 9) view
      position tick none branches refresh_state position_state situation
