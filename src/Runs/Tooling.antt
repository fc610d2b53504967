-- ===== src/Runs/Tooling.antt =====
-- The LayerZero tooling and the deployment profiles.
use lendmirror.Common.{
  ◌&&◌, ◌==◌, ap, Bool, arith, ℕ, ◌≡◌, refl, true, false, Option, none, some, List, [], ◌∷◌, map,
  All,
}
use lendmirror.Common.Text.{codes}
use lendmirror.Common.Keys.{eqb}
use lendmirror.Common.Dict.{lookup, put}
use lendmirror.Common.Outcome.{ok}
use lendmirror.Pda.{Key}
use lendmirror.Config.{DeploymentType}
use lendmirror.Config.Mainnet
use lendmirror.Sdk.{
  EnforcedOption, PathState, SdkInstruction, set_peer_config, init_oapp_nonce, init_send_library,
  init_receive_library, init_oapp_config, reduce_enforced_options, reduce_from, add_option,
  is_msg_type, or_empty, init_config,
}
use lendmirror.Sdk.Options.{stored, last_option, reduce_enforced_options-last}
use lendmirror.Sdk.Init.{Endpoint, IsAbove, IsInit, init_config-IsInit}
use lendmirror.Deployment.{
  get_profile, type_of_name, trim_start, is_space, profile_of, trim, lower, resolve_solana_eid,
  resolve_evm_eid, resolve_evm_network, solana_mismatch, evm_mismatch, network_mismatch,
}
use lendmirror.Deployment.Resolve.{IsResolved, resolve-IsResolved}
use lendmirror.Deployment.Profiles.{IsListed, name_of, get_profile-IsListed}
use lendmirror.Wire.{ChainType, solana, Connection, EdgeSdk, init_edge}
use lendmirror.Wire.Edges.{IsEdge, init_edge-IsEdge}
use lendmirror.Runs.{key_of}

abbrev twice : List EnforcedOption
twice =
    record { eid = 30110; msg_type = 1; options = 0 ∷ 3 ∷ [] }
    ∷ record { eid = 30110; msg_type = 1; options = 0 ∷ 3 ∷ 1 ∷ [] }
    ∷ []

reduced : reduce_enforced_options some twice ≡ ok ((30110, ((1, 0 ∷ 3 ∷ 1 ∷ []) ∷ [])) ∷ [])
unfolding reduce_enforced_options reduce_from add_option is_msg_type put or_empty lookup
reduced = refl

reduce_enforced_options-last_example :
    stored ((30110, ((1, 0 ∷ 3 ∷ 1 ∷ []) ∷ [])) ∷ []) 30110 1 ≡ last_option some 30110 1 none twice
reduce_enforced_options-last_example =
    reduce_enforced_options-last some ((30110, ((1, 0 ∷ 3 ∷ 1 ∷ []) ∷ [])) ∷ []) twice 30110 1
      reduced

abbrev Paths : Type 0
Paths = ℕ → PathState

abbrev at_once : Bool → PathState → PathState → PathState
at_once true s t = s
at_once false s t = t

-- A change of the path to one id, if the signer may.
abbrev change : Key → ℕ → (PathState → PathState) → Paths → Paths
change k eid f s other = at_once (eqb k (key_of 1) && (eid == other)) (f (s other)) (s other)

abbrev with_send_library : PathState → PathState
with_send_library s = record {
  send_library = true;
  receive_library = s.receive_library;
  send_config = s.send_config;
  receive_config = s.receive_config;
}

abbrev with_receive_library : PathState → PathState
with_receive_library s = record {
  send_library = s.send_library;
  receive_library = true;
  send_config = s.send_config;
  receive_config = s.receive_config;
}

abbrev with_config : PathState → PathState
with_config s = record {
  send_library = s.send_library;
  receive_library = s.receive_library;
  send_config = true;
  receive_config = true;
}

abbrev apply_ix : SdkInstruction → Paths → Paths
apply_ix (set_peer_config k eid c) s = s
apply_ix (init_oapp_nonce k eid p) s = s
apply_ix (init_send_library k eid) s = change k eid with_send_library s
apply_ix (init_receive_library k eid) s = change k eid with_receive_library s
apply_ix (init_oapp_config k eid) s = change k eid with_config s

same-IsAbove : (s : PathState) → IsAbove s s
same-IsAbove s = record {
  send_library = λ h. h;
  receive_library = λ h. h;
  send_config = λ h. h;
  receive_config = λ h. h;
}

at_once-IsAbove : (b : Bool) (s t : PathState) → IsAbove t s → IsAbove t (at_once b s t)
at_once-IsAbove true s t h = h
at_once-IsAbove false s t h = same-IsAbove t

apply_ix-IsAbove : (ix : SdkInstruction) (s : Paths) (eid : ℕ) → IsAbove (s eid) (apply_ix ix s eid)
apply_ix-IsAbove (set_peer_config k e c) s eid = same-IsAbove (s eid)
apply_ix-IsAbove (init_oapp_nonce k e p) s eid = same-IsAbove (s eid)
apply_ix-IsAbove (init_send_library k e) s eid =
    at_once-IsAbove (eqb k (key_of 1) && (e == eid)) (with_send_library (s eid)) (s eid) (record {
      send_library = λ h. refl;
      receive_library = λ h. h;
      send_config = λ h. h;
      receive_config = λ h. h;
    })
apply_ix-IsAbove (init_receive_library k e) s eid =
    at_once-IsAbove (eqb k (key_of 1) && (e == eid)) (with_receive_library (s eid)) (s eid)
      (record {
        send_library = λ h. h;
        receive_library = λ h. refl;
        send_config = λ h. h;
        receive_config = λ h. h;
      })
apply_ix-IsAbove (init_oapp_config k e) s eid =
    at_once-IsAbove (eqb k (key_of 1) && (e == eid)) (with_config (s eid)) (s eid) (record {
      send_library = λ h. h;
      receive_library = λ h. h;
      send_config = λ h. refl;
      receive_config = λ h. refl;
    })

change_lem :
    (k : Key) (eid : ℕ) (f : PathState → PathState) (s : Paths)
    → eqb k (key_of 1) ≡ true
    → change k eid f s eid ≡ f (s eid)
change_lem k eid f s h = let same : (eid == eid) ≡ true = ground arith in rw (h, same) refl

abbrev endpoint : Endpoint
endpoint = record {
  State = Paths;
  path = λ s eid. s eid;
  may_sign = λ k. eqb k (key_of 1);
  apply = apply_ix;
  keeps = apply_ix-IsAbove;
  sends = λ k eid s h. ap (λ p. p.send_library) (change_lem k eid with_send_library s h);
  receives = λ k eid s h. ap (λ p. p.receive_library) (change_lem k eid with_receive_library s h);
  configures = λ k eid s h. (
    ap (λ p. p.send_config) (change_lem k eid with_config s h),
    ap (λ p. p.receive_config) (change_lem k eid with_config s h),
  );
}

abbrev half_way : Paths
half_way eid = record {
  send_library = true;
  receive_library = false;
  send_config = true;
  receive_config = false;
}

init_config-IsInit_example :
    IsInit endpoint half_way 30110 (init_config (key_of 1) none 30110 (half_way 30110))
unfolding eqb
init_config-IsInit_example = init_config-IsInit endpoint (key_of 1) none 30110 half_way refl

-- An edge from Solana, of which only half is set up.
abbrev from_solana : ℕ → ChainType
from_solana eid = solana

abbrev edge_sdk : EdgeSdk
edge_sdk = record {
  has_send_config_is_initialized = true;
  has_init_config = true;
  path = half_way;
  admin = key_of 1;
  delegate = none;
}

abbrev edge : Connection
edge = record { from = 40168; to = 40161; send_library = none }

init_edge-IsEdge_example :
    IsEdge endpoint from_solana half_way edge edge_sdk (init_edge from_solana edge edge_sdk)
unfolding eqb
init_edge-IsEdge_example =
    init_edge-IsEdge endpoint from_solana half_way edge edge_sdk (λ eid. refl) refl

abbrev environment : List ℕ → Option (List ℕ)
environment name = some (codes " MainNet ")

on_mainnet : get_profile environment ≡ ok Mainnet.profile
unfolding get_profile type_of_name eqb trim trim_start is_space lower profile_of
on_mainnet = refl

resolve-IsResolved_example :
    IsResolved
      (some 30168)
      Mainnet.profile.solana_eid
      solana_mismatch
      (resolve_solana_eid environment (some 30168))
    × IsResolved
        (some 5)
        Mainnet.profile.evm_eid
        evm_mismatch
        (resolve_evm_eid environment (some 5))
    × IsResolved none Mainnet.profile.evm_network network_mismatch
        (resolve_evm_network environment none)
resolve-IsResolved_example =
    resolve-IsResolved environment Mainnet.profile on_mainnet (some 30168) (some 5) none

get_profile-IsListed_example :
    (raw : List ℕ) × (t : DeploymentType) × (environment (codes "DEPLOYMENT_TYPE") ≡ some raw)
    × (map lower (trim raw) ≡ name_of t)
    × (Mainnet.profile.type ≡ t)
    × (Mainnet.profile ≡ profile_of t)
    × All (IsListed Mainnet.profile) Mainnet.profile.lz_tokens
get_profile-IsListed_example = get_profile-IsListed environment Mainnet.profile on_mainnet
