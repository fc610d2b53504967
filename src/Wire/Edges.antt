-- ===== src/Wire/Edges.antt =====
-- Which edges of the graph are initialized.
use lendmirror.Common.{
  ℕ, ◌≡◌, Bool, true, false, not, ◌&&◌, ◌⊎◌, inl, inr, Option, none, some, List, Bool-cases, arith,
  if◌then◌else◌,
}
use lendmirror.Sdk.{SdkInstruction, send_config_is_initialized, init_config}
use lendmirror.Sdk.Init.{Endpoint, run, IsInit, MaySign, init_config-IsInit}
use lendmirror.Wire.{ChainType, Connection, EdgeSdk, is_solana, init_edge}

module _ (a b c : Bool) (rest : Option (List SdkInstruction)) where
  abbrev guarded : Option (List SdkInstruction)
  guarded = if not a then none else if not b then none else if not c then none else rest

  guarded-none : (a && (b && c)) ≡ false → guarded ≡ none
  guarded-none h = ground arith

  guarded-rest : (a && (b && c)) ≡ true → guarded ≡ rest
  guarded-rest h = ground arith

module _ (endpoint : Endpoint) (chain_type : ℕ → ChainType) where
  -- The edge is one that the task has to care for.
  abbrev pub is_due : Connection → EdgeSdk → Bool
  is_due c sdk =
      is_solana chain_type c.from && (sdk.has_send_config_is_initialized && sdk.has_init_config)

  abbrev pub IsEdge : endpoint.State → Connection → EdgeSdk → Option (List SdkInstruction) → Type 0
  IsEdge s c sdk none =
      (is_due c sdk ≡ false) ⊎ (send_config_is_initialized (endpoint.path s c.to) ≡ true)
  IsEdge s c sdk (some ixs) =
      (is_due c sdk ≡ true)
      × (send_config_is_initialized (endpoint.path s c.to) ≡ false)
      × (send_config_is_initialized (endpoint.path (run endpoint ixs s) c.to) ≡ true)

  due-IsEdge :
      (s : endpoint.State) (c : Connection) (sdk : EdgeSdk) (r : Option (List SdkInstruction))
      → is_due c sdk ≡ true
      → IsInit endpoint s c.to r
      → IsEdge s c sdk r
  due-IsEdge s c sdk none d i = inr i
  due-IsEdge s c sdk (some ixs) d i = (d, i.0, i.1)

  -- The SDK of the edge says of every path what the endpoint has.
  abbrev pub IsCurrent : endpoint.State → EdgeSdk → Type 0
  IsCurrent s sdk = (eid : ℕ) → sdk.path eid ≡ endpoint.path s eid

  -- If the SDK tells the paths as the endpoint has them, and its delegate, or its admin where there is
  -- none, may sign there, then an edge gets a transaction exactly if it starts on Solana, its SDK has
  -- both methods, and the path to its other end is not set up; after the transaction that path is.
  pub init_edge-IsEdge :
      (s : endpoint.State) (c : Connection) (sdk : EdgeSdk)
      → IsCurrent s sdk
      → MaySign endpoint sdk.admin sdk.delegate
      → IsEdge s c sdk (init_edge chain_type c sdk)
  unfolding init_edge
  init_edge-IsEdge s c sdk current may =
      let path = endpoint.path s c.to in
      let rest : Option (List SdkInstruction) =
        if send_config_is_initialized path
        then none
        else init_config sdk.admin sdk.delegate c.to path in
      elim (Bool-cases (is_due c sdk)) [
        | inr spared ↦
            rw
              (
                current c.to,
                guarded-none (is_solana chain_type c.from) sdk.has_send_config_is_initialized
                    sdk.has_init_config rest spared,
              )
              (inl spared)
        | inl due ↦
            rw
              (
                current c.to,
                guarded-rest (is_solana chain_type c.from) sdk.has_send_config_is_initialized
                    sdk.has_init_config rest due,
              )
              (elim (Bool-cases (send_config_is_initialized path)) [
                | inl set ↦ rw set (inr set)
                | inr unset ↦ rw unset (
                    due-IsEdge s c sdk (init_config sdk.admin sdk.delegate c.to path) due
                      (init_config-IsInit endpoint sdk.admin sdk.delegate c.to s may))
              ])
      ]
