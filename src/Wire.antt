-- ===== src/Wire.antt =====
-- tasks/common/wire.ts, tasks/solana/utils.ts, lib/config.ts, and the factories of
-- tasks/common/utils.ts: what the wiring task decides before LayerZero's tooling configures the graph.
-- The kind of chain behind an endpoint id and the state of the chain are parameters.
pub mod Endpoint
pub mod Checks
pub mod Edges
use lendmirror.Common.{
  ℕ, Bool, true, false, not, ◌&&◌, ◌||◌, Option, none, some, List, [], ◌∷◌, ◌++◌, ◌==◌,
  if◌then◌else◌,
}
use lendmirror.Common.Filter.{filter}
use lendmirror.Common.Outcome.{Result, ok, err, ◌>>=◌, ◌>>◌, guard}
use lendmirror.Pda.{Key}
use lendmirror.Sdk.{SdkInstruction, PathState, send_config_is_initialized, init_config}

pub data ChainType : Type 0 where
  evm solana aptos initia other : ChainType

pub data WireError : Type 0 where
  -- `Multiple Solana Endpoint IDs found`
  multiple_solana_eids : WireError
  -- `No Solana Endpoint ID found`
  no_solana_eid : WireError
  -- `SendConfig or ReceiveConfig not initialized`
  config_not_initialized : WireError
  -- `Unsupported chain type for EID …`
  unsupported_chain : WireError
  -- `Solana signer factory can only create signers for Solana networks`
  not_a_solana_eid : WireError

-- A connection of the graph, by the endpoint ids of its ends and the library of its configuration.
pub record Connection : Type 0 where
  pub from : ℕ
  pub to : ℕ
  pub send_library : Option Key

pub record Graph : Type 0 where
  pub contracts : List ℕ
  pub connections : List Connection

-- Whether the two accounts of a path exist under a library.
pub record UlnConfigs : Type 0 where
  pub send_config : Bool
  pub receive_config : Bool

abbrev pub solana_type : ChainType → Bool
solana_type solana = true
solana_type evm = false
solana_type aptos = false
solana_type initia = false
solana_type other = false

abbrev pub is_wired : ChainType → Bool
is_wired aptos = false
is_wired initia = false
is_wired evm = true
is_wired solana = true
is_wired other = true

pub data SdkKind : Type 0 where
  evm_sdk solana_sdk : SdkKind

-- `createSdkFactory`
abbrev pub sdk_of_type : ChainType → Result WireError SdkKind
sdk_of_type solana = ok solana_sdk
sdk_of_type evm = ok evm_sdk
sdk_of_type aptos = err unsupported_chain
sdk_of_type initia = err unsupported_chain
sdk_of_type other = err unsupported_chain

pub data SignerKind : Type 0 where
  wallet_signer : SignerKind
  squads_signer : Key → SignerKind

abbrev pub signer_kind : Option Key → SignerKind
signer_kind none = wallet_signer
signer_kind (some multisig) = squads_signer multisig

-- What the tooling's SDK for an edge offers, and what it says of the path to each remote id.
pub record EdgeSdk : Type 0 where
  pub has_send_config_is_initialized : Bool
  pub has_init_config : Bool
  pub path : ℕ → PathState
  pub admin : Key
  pub delegate : Option Key

module _ (chain_type : ℕ → ChainType) where
  abbrev pub is_solana : ℕ → Bool
  is_solana eid = solana_type (chain_type eid)

  -- `checkSolanaEndpoint`. The id found before is 0 where there is none, as `null` and 0 are alike to
  -- the code.
  unfoldable pub check_endpoint : ℕ → ℕ → Result WireError ℕ
  check_endpoint found eid =
      if is_solana eid
      then (guard ((found == 0) || (found == eid)) multiple_solana_eids >> ok eid)
      else ok found

  abbrev pub next_or : ℕ → Result WireError ℕ → Result WireError ℕ
  next_or found later = if found == 0 then later else ok found

  unfoldable pub find_solana_endpoint_id : List Connection → Result WireError ℕ
  find_solana_endpoint_id [] = err no_solana_eid
  find_solana_endpoint_id (c ∷ cs) =
      let later = find_solana_endpoint_id cs in
      do first ← check_endpoint 0 c.from; both ← check_endpoint first c.to; next_or both later

  -- `sdk_for` and `signer_for` are the factories that the task hands on.
  unfoldable pub sdk_for : ℕ → Result WireError SdkKind
  sdk_for eid = sdk_of_type (chain_type eid)

  unfoldable pub signer_for : Option Key → ℕ → Result WireError SignerKind
  signer_for multisig eid = do guard (is_solana eid) not_a_solana_eid; ok (signer_kind multisig)

  module _ (uln_configs : (from : ℕ) → (library : Key) → (to : ℕ) → UlnConfigs) where
    abbrev pub check_library : Connection → Option Key → Result WireError (Unit {0})
    check_library c none = ok tt
    check_library c (some library) =
        let found = uln_configs c.from library c.to in
        guard (found.send_config && found.receive_config) config_not_initialized

    unfoldable pub check_connection : Connection → Result WireError (Unit {0})
    check_connection c = if is_solana c.from then check_library c c.send_library else ok tt

    unfoldable pub check_connections : List Connection → Result WireError (Unit {0})
    check_connections [] = ok tt
    check_connections (c ∷ cs) = let later = check_connections cs in check_connection c >> later

    unfoldable pub wired_contracts : List ℕ → List ℕ
    wired_contracts contracts = filter (λ eid. is_wired (chain_type eid)) contracts

    unfoldable pub wired_connections : List Connection → List Connection
    wired_connections connections = filter (λ c. is_wired (chain_type c.from)) connections

    -- The subtask: the checks, and the graph that is configured.
    unfoldable pub wire_configure :
        (is_solana_init_config dry_run : Bool) → Graph → Result WireError Graph
    wire_configure is_solana_init_config dry_run graph = do
      (if not is_solana_init_config && not dry_run
          then check_connections graph.connections
          else ok tt)
      ok (record {
        contracts = wired_contracts graph.contracts;
        connections = wired_connections graph.connections;
      })

  -- `initConfig` of lib/config.ts, for one edge.
  unfoldable pub init_edge : Connection → EdgeSdk → Option (List SdkInstruction)
  init_edge c sdk =
      if not (is_solana c.from)
      then none
      else if not sdk.has_send_config_is_initialized
      then none
      else if not sdk.has_init_config
      then none
      else if send_config_is_initialized (sdk.path c.to)
      then none
      else init_config sdk.admin sdk.delegate c.to (sdk.path c.to)
