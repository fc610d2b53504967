-- ===== src/Runs/Loops.antt =====
-- The loop over the positions, the wiring of the graph, and the command line wrapper.
use lendmirror.Common.{
  ℕ, ◌+◌, ◌≡◌, refl, ◌↔◌, inl, true, false, none, some, List, [], ◌∷◌, ◌==◌, if◌then◌else◌,
}
use lendmirror.Common.Int.{pos}
use lendmirror.Common.Keys.{eqb}
use lendmirror.Common.Text.{codes}
use lendmirror.Common.Outcome.{ok}
use lendmirror.Pda.{Key}
use lendmirror.SyncAll.{StoredSnapshot, WrapperAccount, Node, changed}
use lendmirror.SyncAll.Changed.{IsSame, changed-IsSame}
use lendmirror.Wire.{
  ChainType, evm, solana, aptos, Connection, Graph, UlnConfigs, find_solana_endpoint_id,
  wire_configure,
}
use lendmirror.Wire.Endpoint.{IsFirst, find_solana_endpoint_id-IsFirst}
use lendmirror.Wire.Checks.{IsConfigured, wire_configure-IsConfigured}
use lendmirror.Cli.{Settings, Invocation, run_command, is_flag, starts_with}
use lendmirror.Cli.Command.{ArePlain, IsFoundry, run_command-IsFoundry}
use lendmirror.Runs.{key_of}

abbrev snapshot_at : ℕ → StoredSnapshot
snapshot_at col = record {
  col_raw = col;
  debt_raw = 3;
  tick = pos 4;
  is_liquidated = false;
  snapshot_time = pos 5;
}

abbrev wrapper_with : ℕ → WrapperAccount
wrapper_with col = record {
  vault_id = 1;
  nft_id = 2;
  snapshot = some (snapshot_at col);
  last_sent_snapshot_time = pos 5;
}

changed-IsSame_example :
    (changed (wrapper_with 7) (wrapper_with 8) ≡ false) ↔ IsSame (wrapper_with 7) (wrapper_with 8)
changed-IsSame_example = changed-IsSame (wrapper_with 7) (wrapper_with 8)

-- A chain that counts what was submitted.
abbrev counting : Node
counting = record {
  Chain = ℕ;
  Failure = Unit {0};
  get_account = λ s k. none;
  get_wrapper = λ s vault nft. ok (some (wrapper_with 8));
  quote_payload = λ s vault nft. ok 100;
  submit_refresh = λ s input. (true, s + 1);
  submit_send = λ s vault nft fee. (true, s + 1);
}

abbrev chain_of : ℕ → ChainType
chain_of eid = if eid == 40168 then solana else if eid == 40108 then aptos else evm

abbrev link : ℕ → ℕ → Connection
link from to = record { from = from; to = to; send_library = some (key_of 1) }

abbrev links : List Connection
links = link 40161 40245 ∷ link 40161 40168 ∷ link 40168 40161 ∷ link 40108 40161 ∷ []

find_solana_endpoint_id-IsFirst_example :
    IsFirst chain_of links (find_solana_endpoint_id chain_of links)
find_solana_endpoint_id-IsFirst_example = find_solana_endpoint_id-IsFirst chain_of refl links

abbrev all_set : (from : ℕ) → (library : Key) → (to : ℕ) → UlnConfigs
all_set from library to = record { send_config = true; receive_config = true }

abbrev graph : Graph
graph = record { contracts = 40161 ∷ 40168 ∷ 40108 ∷ []; connections = links }

wire_configure-IsConfigured_example :
    IsConfigured chain_of all_set false false graph
      (wire_configure chain_of all_set false false graph)
wire_configure-IsConfigured_example = wire_configure-IsConfigured chain_of all_set false false graph

abbrev settings : Settings
settings = record {
  program_id = codes "8LKD";
  solana_rpc = codes "https://sol";
  solana_keypair_path = codes "key.json";
  evm_rpc = codes "https://evm";
  evm_private_key = codes "0x12";
}

settings-ArePlain : ArePlain settings
unfolding is_flag eqb starts_with
settings-ArePlain = record { rpc_plain = refl; key_plain = refl }

abbrev create_args : List (List ℕ)
create_args = codes "create" ∷ codes "LendMirror" ∷ codes "--constructor-args" ∷ codes "0x5" ∷ []

run_command-IsFoundry_example :
    (inv : Invocation) × (run_command settings (codes "forge" ∷ create_args) ≡ ok inv)
    × IsFoundry settings settings-ArePlain (codes "forge") create_args inv
run_command-IsFoundry_example =
    run_command-IsFoundry settings settings-ArePlain (codes "forge") create_args (inl refl)
