-- ===== src/Deployment.antt =====
-- lib/deployment.ts and tasks/common/deployment.ts: the profile that the environment names, and what
-- a task may take from the command line. The environment, the key files and the two libraries' key
-- loaders are parameters.
pub mod Profiles
pub mod Resolve
use lendmirror.Common.{
  ℕ, ◌+◌, Bool, true, false, ◌&&◌, ◌||◌, Option, none, some, List, [], ◌∷◌, ◌++◌, map, leb, ltb,
  ◌==◌, if◌then◌else◌,
}
use mathlib.Core.List.{reverse}
use lendmirror.Common.Keys.{eqb}
use lendmirror.Common.Outcome.{Result, ok, err, ◌>>=◌, ◌>>◌, guard, require}
use lendmirror.Common.Text.{codes}
use lendmirror.Bytes.{Bytes}
use lendmirror.Pda.{Key}
use lendmirror.Config.{DeploymentType, devnet, mainnet, DeploymentProfile, CcipProfile}
use lendmirror.Config.Devnet
use lendmirror.Config.Mainnet

pub data DeploymentError : Type 0 where
  -- `Missing …`, with the variable's name
  missing_env : List ℕ → DeploymentError
  -- `DEPLOYMENT_TYPE must be "devnet" or "mainnet"`
  unknown_type : DeploymentError
  -- `Solana keypair file not found`
  no_keypair_file : DeploymentError
  -- what `JSON.parse`, `Keypair` or `Wallet` throw
  bad_key : DeploymentError
  -- `Chainlink is not wired`
  no_ccip : DeploymentError
  solana_mismatch evm_mismatch network_mismatch : DeploymentError

unfoldable pub profile_of : DeploymentType → DeploymentProfile
profile_of devnet = Devnet.profile
profile_of mainnet = Mainnet.profile

-- The white space that `trim` removes.
unfoldable pub is_space : ℕ → Bool
is_space c =
    (leb 9 c && leb c 13)
    || ((c == 32)
        || ((c == 160)
            || ((c == 5760)
                || ((leb 8192 c && leb c 8202)
                    || ((c == 8232)
                        || ((c == 8233)
                            || ((c == 8239)
                                || ((c == 8287) || ((c == 12288) || (c == 65279))))))))))

unfoldable pub trim_start : List ℕ → List ℕ
trim_start [] = []
trim_start (c ∷ cs) = let rest = trim_start cs in if is_space c then rest else c ∷ cs

unfoldable pub trim : List ℕ → List ℕ
trim cs = reverse (trim_start (reverse (trim_start cs)))

-- `toLowerCase` of ASCII letters. No other letter becomes one of the two names.
unfoldable pub lower : ℕ → ℕ
lower c = if leb 65 c && leb c 90 then c + 32 else c

unfoldable pub type_of_name : List ℕ → Option DeploymentType
type_of_name name =
    if eqb name (codes "devnet")
    then some devnet
    else if eqb name (codes "mainnet")
    then some mainnet
    else none

-- `process.env`
module _ (env : List ℕ → Option (List ℕ)) where
  unfoldable pub require_env : List ℕ → Result DeploymentError (List ℕ)
  require_env name = do
    value ← require (env name) (missing_env name)
    guard (if eqb (trim value) [] then false else true) (missing_env name)
    ok (trim value)

  unfoldable pub get_profile : Result DeploymentError DeploymentProfile
  get_profile = do
    raw ← require (env (codes "DEPLOYMENT_TYPE")) unknown_type
    type ← require (type_of_name (map lower (trim raw))) unknown_type
    ok (profile_of type)

  unfoldable pub require_ccip : Result DeploymentError CcipProfile
  require_ccip = do profile ← get_profile; require profile.ccip no_ccip

  -- `value !== undefined && value !== expected`
  abbrev differs : Option ℕ → ℕ → Bool
  differs none expected = false
  differs (some value) expected = if value == expected then false else true

  abbrev differs_text : Option (List ℕ) → List ℕ → Bool
  differs_text none expected = false
  differs_text (some value) expected = if eqb value expected then false else true

  unfoldable pub assert_matches_profile :
      (solana_eid evm_eid : Option ℕ) → Option (List ℕ) → Result DeploymentError DeploymentProfile
  assert_matches_profile solana_eid evm_eid evm_network = do
    profile ← get_profile
    guard (if differs solana_eid profile.solana_eid then false else true) solana_mismatch
    guard (if differs evm_eid profile.evm_eid then false else true) evm_mismatch
    guard (if differs_text evm_network profile.evm_network then false else true) network_mismatch
    ok profile

  unfoldable pub resolve_solana_eid : Option ℕ → Result DeploymentError ℕ
  resolve_solana_eid eid = do
    profile ← assert_matches_profile eid none none
    ok (elim eid [ none ↦ profile.solana_eid | some e ↦ e ])

  unfoldable pub resolve_evm_eid : Option ℕ → Result DeploymentError ℕ
  resolve_evm_eid eid = do
    profile ← assert_matches_profile none eid none
    ok (elim eid [ none ↦ profile.evm_eid | some e ↦ e ])

  unfoldable pub resolve_evm_network : Option (List ℕ) → Result DeploymentError (List ℕ)
  resolve_evm_network network = do
    profile ← assert_matches_profile none none network
    ok (elim network [ none ↦ profile.evm_network | some n ↦ n ])

  pub record ResolvedDeployment : Type 0 where
    pub profile : DeploymentProfile
    pub solana_keypair_path : List ℕ
    pub solana_keypair : Key
    pub solana_rpc : List ℕ
    pub evm_private_key : List ℕ
    pub evm_address : List ℕ
    pub evm_rpc : List ℕ

  -- The files, the key that a file's text holds, and the address of a private key.
  module _ (read_file : List ℕ → Option (List ℕ)) (keypair_of : List ℕ → Option Key)
      (wallet_address : List ℕ → Option (List ℕ)) where
    unfoldable pub resolve_deployment : Result DeploymentError ResolvedDeployment
    resolve_deployment = do
      profile ← get_profile
      solana_keypair_path ← require_env profile.env.solana_keypair_path
      solana_rpc ← require_env profile.env.solana_rpc
      evm_private_key ← require_env profile.env.evm_private_key
      evm_rpc ← require_env profile.env.evm_rpc
      secret ← require (read_file solana_keypair_path) no_keypair_file
      solana_keypair ← require (keypair_of secret) bad_key
      evm_address ← require (wallet_address evm_private_key) bad_key
      ok (record {
        profile = profile;
        solana_keypair_path = solana_keypair_path;
        solana_keypair = solana_keypair;
        solana_rpc = solana_rpc;
        evm_private_key = evm_private_key;
        evm_address = evm_address;
        evm_rpc = evm_rpc;
      })
