-- ===== src/Deployment/Resolve.antt =====
-- The values that a task takes from the command line are the profile's.
use lendmirror.Common.{
  ℕ, ◌≡◌, ◌≢◌, refl, ap, Option, none, some, List, ◌==◌, inl, inr, arith, Bool-cases,
}
use lendmirror.Common.Keys.{eqb, eqb_iff}
use lendmirror.Common.Outcome.{Result, ok, err}
use lendmirror.Config.{DeploymentProfile}
use lendmirror.Deployment.{
  DeploymentError, solana_mismatch, evm_mismatch, network_mismatch, get_profile,
  assert_matches_profile, resolve_solana_eid, resolve_evm_eid, resolve_evm_network,
}

-- The outcome of resolving an optional value against the profile's.
pub data IsResolved {A : Type 0} (given : Option A) (expected : A) (mismatch : DeploymentError)
    (r : Result DeploymentError A) : Type 0 where
  taken : r ≡ ok expected → IsResolved given expected mismatch r
  refused :
      (a : A)
      → given ≡ some a
      → a ≢ expected
      → r ≡ err mismatch
      → IsResolved given expected mismatch r

module _ (env : List ℕ → Option (List ℕ)) (profile : DeploymentProfile)
    (found : get_profile env ≡ ok profile) where
  solana :
      (eid : Option ℕ)
      → IsResolved eid profile.solana_eid solana_mismatch (resolve_solana_eid env eid)
  unfolding resolve_solana_eid assert_matches_profile
  solana none = taken (rw found refl)
  solana (some e) = elim (Bool-cases (e == profile.solana_eid)) [
    | inl same ↦ taken (rw (found, same) (ap ok (ground arith)))
    | inr other ↦ refused e refl (λ h. ground arith) (rw (found, other) refl)
  ]

  evm : (eid : Option ℕ) → IsResolved eid profile.evm_eid evm_mismatch (resolve_evm_eid env eid)
  unfolding resolve_evm_eid assert_matches_profile
  evm none = taken (rw found refl)
  evm (some e) = elim (Bool-cases (e == profile.evm_eid)) [
    | inl same ↦ taken (rw (found, same) (ap ok (ground arith)))
    | inr other ↦ refused e refl (λ h. ground arith) (rw (found, other) refl)
  ]

  network :
      (name : Option (List ℕ))
      → IsResolved name profile.evm_network network_mismatch (resolve_evm_network env name)
  unfolding resolve_evm_network assert_matches_profile
  network none = taken (rw found refl)
  network (some n) = elim (Bool-cases (eqb n profile.evm_network)) [
    | inl same ↦ taken (rw (found, same) (ap ok ((eqb_iff n profile.evm_network).0 same)))
    | inr other ↦
        refused n refl (λ h. ground (arith, eqb_iff n profile.evm_network)) (rw (found, other) refl)
  ]

  -- Where the environment names a profile, each of the three resolvers either returns the profile's
  -- own value, or was given another value and refuses it.
  pub resolve-IsResolved :
      (solana_eid evm_eid : Option ℕ) (name : Option (List ℕ))
      → IsResolved solana_eid profile.solana_eid solana_mismatch (resolve_solana_eid env solana_eid)
        × IsResolved evm_eid profile.evm_eid evm_mismatch (resolve_evm_eid env evm_eid)
        × IsResolved name profile.evm_network network_mismatch (resolve_evm_network env name)
  resolve-IsResolved solana_eid evm_eid name = (solana solana_eid, evm evm_eid, network name)
