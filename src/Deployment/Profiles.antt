-- ===== src/Deployment/Profiles.antt =====
-- What the profiles of the repository keep.
use lendmirror.Common.{
  ℕ, ◌≤◌, ◌<◌, ◌≡◌, refl, sym, ap, ◌∙◌, Option, some, List, [], ◌∷◌, map, All, ◌⊎◌, inl, inr, arith,
  Option-cases, Bool-cases, ◌^◌,
}
use lendmirror.Common.Keys.{eqb, eqb_iff}
use mathlib.Core.Path.{subst}
use lendmirror.Common.Outcome.{ok}
use lendmirror.Common.Text.{codes}
use lendmirror.Config.{DeploymentType, devnet, mainnet, DeploymentProfile, LzTokenProfile}
use lendmirror.Config.Devnet
use lendmirror.Config.Mainnet
use lendmirror.LzSend.Build.{IsToken}
use lendmirror.Deployment.{profile_of, type_of_name, trim, lower, get_profile}

-- A token that the program's route check admits, and that goes to the profile's own EVM chain.
pub record IsListed (profile : DeploymentProfile) (token : LzTokenProfile) : Type 0 where
  pub admitted : IsToken token
  pub destination : token.dst_eid ≡ profile.evm_eid

IsListed-plain :
    (profile : DeploymentProfile) (token : LzTokenProfile)
    → token.dst_eid ≡ profile.evm_eid
    → token.dst_eid < 2 ^ 32
    → token.min_under_bps ≤ 50
    → (token.options ≡ []) ⊎ (token.options ≡ 0 ∷ 3 ∷ [])
    → IsListed profile token
IsListed-plain profile token e d h o = record {
  admitted = record { dst_eid = d; headroom = h; options = o };
  destination = e;
}

profile_of-IsListed : (t : DeploymentType) → All (IsListed (profile_of t)) (profile_of t).lz_tokens
unfolding profile_of
profile_of-IsListed devnet =
    (IsListed-plain Devnet.profile Devnet.pyusd refl (omega arith) (omega arith) (inl refl), tt)
profile_of-IsListed mainnet = (
  IsListed-plain Mainnet.profile Mainnet.usdai_token refl (omega arith) (omega arith) (inl refl),
  (
    IsListed-plain Mainnet.profile Mainnet.susdai_token refl (omega arith) (omega arith) (inl refl),
    (
      IsListed-plain Mainnet.profile Mainnet.usdt_token refl (omega arith) (omega arith) (inr refl),
      tt,
    ),
  ),
)

profile_of-type : (t : DeploymentType) → (profile_of t).type ≡ t
unfolding profile_of
profile_of-type devnet = refl
profile_of-type mainnet = refl

-- The name of a deployment, as DEPLOYMENT_TYPE gives it.
pub name_of : DeploymentType → List ℕ
name_of devnet = codes "devnet"
name_of mainnet = codes "mainnet"

type_of_name_lem :
    (name : List ℕ) (t : DeploymentType) → type_of_name name ≡ some t → name ≡ name_of t
unfolding type_of_name name_of
type_of_name_lem name t e = elim (Bool-cases (eqb name (codes "devnet"))) [
  | inl dev ↦ (eqb_iff name (codes "devnet")).0 dev ∙ ap name_of {x = devnet} (ground arith)
  | inr other ↦ elim (Bool-cases (eqb name (codes "mainnet"))) [
    | inl main ↦ (eqb_iff name (codes "mainnet")).0 main ∙ ap name_of {x = mainnet} (ground arith)
    | inr neither ↦ ground arith
  ]
]

-- A profile is only returned where DEPLOYMENT_TYPE, without its outer white space and in lower case,
-- is the name of the profile's own type. Every token that it lists is one that a route admits, and goes to the
-- profile's EVM chain.
pub get_profile-IsListed :
    (env : List ℕ → Option (List ℕ)) (profile : DeploymentProfile)
    → get_profile env ≡ ok profile
    → (raw : List ℕ) × (t : DeploymentType) × (env (codes "DEPLOYMENT_TYPE") ≡ some raw)
      × (map lower (trim raw) ≡ name_of t)
      × (profile.type ≡ t)
      × (profile ≡ profile_of t)
      × All (IsListed profile) profile.lz_tokens
unfolding get_profile
get_profile-IsListed env profile e = elim (Option-cases (env (codes "DEPLOYMENT_TYPE"))) [
  | inl unset ↦ ground arith
  | inr (raw, given) ↦ elim (Option-cases (type_of_name (map lower (trim raw)))) [
    | inl unknown ↦ ground arith
    | inr (t, known) ↦
        let is : profile_of t ≡ profile = ground arith in
        (
          raw,
          t,
          given,
          type_of_name_lem (map lower (trim raw)) t known,
          subst (λ p. p.type ≡ t) is (profile_of-type t),
          sym is,
          subst (λ p. All (IsListed p) p.lz_tokens) is (profile_of-IsListed t),
        )
  ]
]
