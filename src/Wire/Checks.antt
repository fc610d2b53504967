-- ===== src/Wire/Checks.antt =====
-- What the task has checked when it configures the graph, and what it configures.
use lendmirror.Common.{
  ℕ, ◌≡◌, ◌≢◌, ◌↔◌, refl, sym, ◌∙◌, Bool, true, false, inl, inr, Option, none, some, List, [], ◌∷◌,
  All, Bool-cases, arith,
}
use lendmirror.Common.Filter.{Member, Member-filter}
use lendmirror.Common.Outcome.{Result, ok, err, Result-cases}
use lendmirror.Pda.{Key}
use lendmirror.Wire.{
  ChainType, evm, solana, aptos, initia, other, WireError, Connection, Graph, UlnConfigs, SdkKind,
  evm_sdk, solana_sdk, is_wired, is_solana, check_library, check_connection, check_connections,
  wired_contracts, wired_connections, wire_configure, sdk_for,
}

module _ (chain_type : ℕ → ChainType)
    (uln_configs : (from : ℕ) → (library : Key) → (to : ℕ) → UlnConfigs) where
  abbrev pub ReadyOver : Connection → Option Key → Type 0
  ReadyOver c none = Unit {0}
  ReadyOver c (some library) =
      ((uln_configs c.from library c.to).send_config ≡ true)
      × ((uln_configs c.from library c.to).receive_config ≡ true)

  -- If it comes from Solana and has a configured library, then both accounts of the path exist.
  abbrev pub IsReady : Connection → Type 0
  IsReady c = is_solana chain_type c.from ≡ true → ReadyOver c c.send_library

  check_library-ReadyOver :
      (c : Connection) (o : Option Key)
      → (check_library chain_type uln_configs c o ≡ ok tt) ↔ ReadyOver c o
  check_library-ReadyOver c none = (λ h. tt, λ h. refl)
  check_library-ReadyOver c (some l) = (λ h. (ground arith, ground arith), λ h. rw (h.0, h.1) refl)

  check_connection-IsReady :
      (c : Connection) → (check_connection chain_type uln_configs c ≡ ok tt) ↔ IsReady c
  unfolding check_connection
  check_connection-IsReady c = elim (Bool-cases (is_solana chain_type c.from)) [
    | inl from_solana ↦ (
      λ h _. (check_library-ReadyOver c c.send_library).0 (rw from_solana at h),
      λ h. rw from_solana ((check_library-ReadyOver c c.send_library).1 (h from_solana)),
    )
    | inr elsewhere ↦
        (λ h from_solana. absurd (clash elsewhere from_solana), λ h. rw elsewhere refl)
  ]
    where
      clash : is_solana chain_type c.from ≡ false → is_solana chain_type c.from ≡ true → ⊥
      clash f t = ground arith

  check_connections-IsReady :
      (cs : List Connection)
      → (check_connections chain_type uln_configs cs ≡ ok tt) ↔ All IsReady cs
  unfolding check_connections
  check_connections-IsReady [] = (λ h. tt, λ h. refl)
  check_connections-IsReady (c ∷ cs) =
      elim (Result-cases (check_connection chain_type uln_configs c)) [
        | inl (u, fine) ↦ (
          λ h. (
            (check_connection-IsReady c).0 fine,
            (check_connections-IsReady cs).0 (rw fine at h),
          ),
          λ h. rw fine ((check_connections-IsReady cs).1 h.1),
        )
        | inr (e, bad) ↦
            (λ h. absurd (failed e (rw bad at h)), λ h. absurd (failed e (bad_not_ready e bad h.0)))
      ]
    where
      failed : (e : WireError) → ◌≡◌ {A = Result WireError (Unit {0})} (err e) (ok tt) → ⊥
      failed e h = cc

      bad_not_ready :
          (e : WireError)
          → check_connection chain_type uln_configs c ≡ err e
          → IsReady c
          → ◌≡◌ {A = Result WireError (Unit {0})} (err e) (ok tt)
      bad_not_ready e bad ready = sym bad ∙ (check_connection-IsReady c).1 ready

  -- What the task hands on: the contracts and connections of the graph but for those on Aptos and
  -- Initia. Each contract on a chain that the tooling knows has an SDK.
  pub record IsWired (is_init dry : Bool) (graph result : Graph) : Type 0 where
    pub ready : is_init ≡ false → dry ≡ false → All IsReady graph.connections
    pub contracts :
        (eid : ℕ)
        → Member eid result.contracts
          ↔ (Member eid graph.contracts × (is_wired (chain_type eid) ≡ true))
    pub connections :
        (c : Connection)
        → Member c result.connections
          ↔ (Member c graph.connections × (is_wired (chain_type c.from) ≡ true))
    pub have_sdk :
        (eid : ℕ)
        → Member eid result.contracts
        → chain_type eid ≢ other
        → (k : SdkKind) × (sdk_for chain_type eid ≡ ok k)

  sdk_for_wired :
      (eid : ℕ) (t : ChainType)
      → chain_type eid ≡ t
      → is_wired (chain_type eid) ≡ true
      → chain_type eid ≢ other
      → (k : SdkKind) × (sdk_for chain_type eid ≡ ok k)
  unfolding sdk_for
  sdk_for_wired eid evm e w n = (evm_sdk, rw e refl)
  sdk_for_wired eid solana e w n = (solana_sdk, rw e refl)
  sdk_for_wired eid aptos e w n = absurd (not_wired (rw e at w))
    where
      not_wired : false ≡ true → ⊥
      not_wired h = cc
  sdk_for_wired eid initia e w n = absurd (not_wired (rw e at w))
    where
      not_wired : false ≡ true → ⊥
      not_wired h = cc
  sdk_for_wired eid other e w n = absurd (n e)

  abbrev wired : Graph → Graph
  wired graph = record {
    contracts = wired_contracts chain_type uln_configs graph.contracts;
    connections = wired_connections chain_type uln_configs graph.connections;
  }

  wired-IsWired :
      (is_init dry : Bool) (graph : Graph)
      → (is_init ≡ false → dry ≡ false → All IsReady graph.connections)
      → IsWired is_init dry graph (wired graph)
  unfolding wired_contracts wired_connections
  wired-IsWired is_init dry graph ready = record {
    ready = ready;
    contracts = λ eid. Member-filter (λ e. is_wired (chain_type e)) eid graph.contracts;
    connections = λ c. Member-filter (λ d. is_wired (chain_type d.from)) c graph.connections;
    have_sdk = λ eid m n.
        sdk_for_wired eid (chain_type eid) refl
          ((Member-filter (λ e. is_wired (chain_type e)) eid graph.contracts).0 m).1 n;
  }

  -- The outcomes of the task, and what each says of the graph.
  abbrev pub IsConfigured : (is_init dry : Bool) → Graph → Result WireError Graph → Type 0
  IsConfigured is_init dry graph (ok result) = IsWired is_init dry graph result
  IsConfigured is_init dry graph (err e) =
      (is_init ≡ false) × (dry ≡ false) × (¬ All IsReady graph.connections)

  -- Without the two flags, the task succeeds exactly if every connection from Solana with a
  -- configured library has both accounts of its path. With a flag there is no such check, and it
  -- always succeeds. What it hands on is the graph's contracts and connections but for those on Aptos
  -- and Initia, and each contract on a chain that the tooling knows has an SDK.
  pub wire_configure-IsConfigured :
      (is_init dry : Bool) (graph : Graph)
      → IsConfigured is_init dry graph (wire_configure chain_type uln_configs is_init dry graph)
  unfolding wire_configure
  wire_configure-IsConfigured true dry graph = wired-IsWired true dry graph (λ h. cc)
  wire_configure-IsConfigured false true graph = wired-IsWired false true graph (λ h k. cc)
  wire_configure-IsConfigured false false graph =
      elim (Result-cases (check_connections chain_type uln_configs graph.connections)) [
        | inl (u, fine) ↦ rw fine (
            wired-IsWired false false graph
              (λ h k. (check_connections-IsReady graph.connections).0 fine))
        | inr (e, bad) ↦ rw bad (
          refl,
          refl,
          λ ready. failed e (sym bad ∙ (check_connections-IsReady graph.connections).1 ready),
        )
      ]
    where
      failed : (e : WireError) → ◌≡◌ {A = Result WireError (Unit {0})} (err e) (ok tt) → ⊥
      failed e h = cc
