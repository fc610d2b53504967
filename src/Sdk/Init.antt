-- ===== src/Sdk/Init.antt =====
-- Setting a path up. What the endpoint does with an instruction is an interface.
use lendmirror.Common.{
  ℕ, ◌≡◌, refl, Bool, true, false, ◌&&◌, Option, none, some, List, [], ◌∷◌, ◌++◌, Bool-cases, inl,
  inr, arith,
}
use lendmirror.Pda.{Key}
use lendmirror.Sdk.{
  PathState, SdkInstruction, init_send_library, init_receive_library, init_oapp_config,
  send_config_is_initialized, init_instructions, init_config, unless,
}

-- Nothing that is set up in one state is missing in the other.
pub record IsAbove (s t : PathState) : Type 0 where
  pub send_library : s.send_library ≡ true → t.send_library ≡ true
  pub receive_library : s.receive_library ≡ true → t.receive_library ≡ true
  pub send_config : s.send_config ≡ true → t.send_config ≡ true
  pub receive_config : s.receive_config ≡ true → t.receive_config ≡ true

-- The endpoint, with the paths to every remote id. An instruction takes nothing away on any path, and
-- the three initialisations do their part on the path to their own id, if a key signs that may.
pub record Endpoint : Type 1 where
  pub State : Type 0
  pub path : State → ℕ → PathState
  pub may_sign : Key → Bool
  pub apply : SdkInstruction → State → State
  pub keeps :
      (ix : SdkInstruction) (s : State) (eid : ℕ) → IsAbove (path s eid) (path (apply ix s) eid)
  pub sends :
      (k : Key) (eid : ℕ) (s : State)
      → may_sign k ≡ true
      → (path (apply (init_send_library k eid) s) eid).send_library ≡ true
  pub receives :
      (k : Key) (eid : ℕ) (s : State)
      → may_sign k ≡ true
      → (path (apply (init_receive_library k eid) s) eid).receive_library ≡ true
  pub configures :
      (k : Key) (eid : ℕ) (s : State)
      → may_sign k ≡ true
      → ((path (apply (init_oapp_config k eid) s) eid).send_config ≡ true)
        × ((path (apply (init_oapp_config k eid) s) eid).receive_config ≡ true)

module _ (endpoint : Endpoint) where
  -- The instructions of a transaction, one after the other.
  abbrev pub run : List SdkInstruction → endpoint.State → endpoint.State
  run [] s = s
  run (ix ∷ ixs) s = run ixs (endpoint.apply ix s)

  run-append :
      (xs ys : List SdkInstruction) (s : endpoint.State) → run (xs ++ ys) s ≡ run ys (run xs s)
  run-append [] ys s = refl
  run-append (x ∷ xs) ys s = run-append xs ys (endpoint.apply x s)

  run-unless-IsAbove :
      (done : Bool) (ix : SdkInstruction) (s : endpoint.State) (eid : ℕ)
      → IsAbove (endpoint.path s eid) (endpoint.path (run (unless done ix) s) eid)
  run-unless-IsAbove true ix s eid = record {
    send_library = λ h. h;
    receive_library = λ h. h;
    send_config = λ h. h;
    receive_config = λ h. h;
  }
  run-unless-IsAbove false ix s eid = endpoint.keeps ix s eid

  module _ (k : Key) (eid : ℕ) (signs : endpoint.may_sign k ≡ true) where
    abbrev at : endpoint.State → PathState
    at s = endpoint.path s eid

    configured :
        (c : Bool) (s : endpoint.State)
        → (c ≡ true → ((at s).send_config ≡ true) × ((at s).receive_config ≡ true))
        → ((at (run (unless c (init_oapp_config k eid)) s)).send_config ≡ true)
          × ((at (run (unless c (init_oapp_config k eid)) s)).receive_config ≡ true)
    configured true s h = h refl
    configured false s h = endpoint.configures k eid s signs

    sending :
        (done : Bool) (s : endpoint.State)
        → (done ≡ true → (at s).send_library ≡ true)
        → (at (run (unless done (init_send_library k eid)) s)).send_library ≡ true
    sending true s h = h refl
    sending false s h = endpoint.sends k eid s signs

    receiving :
        (done : Bool) (s : endpoint.State)
        → (done ≡ true → (at s).receive_library ≡ true)
        → (at (run (unless done (init_receive_library k eid)) s)).receive_library ≡ true
    receiving true s h = h refl
    receiving false s h = endpoint.receives k eid s signs

    AllSet : PathState → Type 0
    AllSet s =
        (s.send_library ≡ true)
        × (s.receive_library ≡ true)
        × (s.send_config ≡ true)
        × (s.receive_config ≡ true)

    run_init : (s : endpoint.State) → AllSet (at (run (init_instructions k eid (at s)) s))
    unfolding init_instructions AllSet
    run_init s =
        let p = at s in
        let c = p.send_config && p.receive_config in
        let s1 = run (unless c (init_oapp_config k eid)) s in
        let s2 = run (unless p.send_library (init_send_library k eid)) s1 in
        let s3 = run (unless p.receive_library (init_receive_library k eid)) s2 in
        let a1 = run-unless-IsAbove c (init_oapp_config k eid) s eid in
        let a2 = run-unless-IsAbove p.send_library (init_send_library k eid) s1 eid in
        let a3 = run-unless-IsAbove p.receive_library (init_receive_library k eid) s2 eid in
        let cfg = configured c s (λ h. (ground arith, ground arith)) in
        rw
          (
            run-append (unless c (init_oapp_config k eid))
                (unless p.send_library (init_send_library k eid)
                  ++ unless p.receive_library (init_receive_library k eid))
                s,
            run-append (unless p.send_library (init_send_library k eid))
                (unless p.receive_library (init_receive_library k eid)) s1,
          )
          (
            a3.send_library (sending p.send_library s1 a1.send_library),
            receiving p.receive_library s2 (λ h. a2.receive_library (a1.receive_library h)),
            a3.send_config (a2.send_config cfg.0),
            a3.receive_config (a2.receive_config cfg.1),
          )

    initialized_of_AllSet : (s : PathState) → AllSet s → send_config_is_initialized s ≡ true
    unfolding send_config_is_initialized AllSet
    initialized_of_AllSet s (a, b, c, d) = rw (a, b, c, d) refl

  -- What `initConfig` promises for the path to an id, of what it returns in a state.
  abbrev pub IsInit : endpoint.State → ℕ → Option (List SdkInstruction) → Type 0
  IsInit s eid none = send_config_is_initialized (endpoint.path s eid) ≡ true
  IsInit s eid (some ixs) =
      (send_config_is_initialized (endpoint.path s eid) ≡ false)
      × (send_config_is_initialized (endpoint.path (run ixs s) eid) ≡ true)

  -- The delegate, or the admin where there is none, may sign.
  abbrev pub MaySign : (admin : Key) → (delegate : Option Key) → Type 0
  MaySign admin none = endpoint.may_sign admin ≡ true
  MaySign admin (some d) = endpoint.may_sign d ≡ true

  IsInit-elim :
      (s : endpoint.State) (eid : ℕ) (ixs : List SdkInstruction)
      → send_config_is_initialized (endpoint.path s eid) ≡ false
      → send_config_is_initialized (endpoint.path (run ixs s) eid) ≡ true
      → IsInit s eid
          (elim ixs as (λ _. Option (List SdkInstruction)) [ [] ↦ none | ◌∷◌ x xs ↦ some (x ∷ xs) ])
  IsInit-elim s eid [] n y = y
  IsInit-elim s eid (x ∷ xs) n y = (n, y)

  signer-MaySign :
      (admin : Key) (delegate : Option Key)
      → MaySign admin delegate
      → endpoint.may_sign (elim delegate [ none ↦ admin | some d ↦ d ]) ≡ true
  signer-MaySign admin none h = h
  signer-MaySign admin (some d) h = h

  -- If the delegate, or the admin where there is none, may sign at the endpoint, then `initConfig`
  -- returns nothing exactly where the path to the remote id is already set up, and otherwise a
  -- transaction after which that path is.
  pub init_config-IsInit :
      (admin : Key) (delegate : Option Key) (eid : ℕ) (s : endpoint.State)
      → MaySign admin delegate
      → IsInit s eid (init_config admin delegate eid (endpoint.path s eid))
  unfolding init_config
  init_config-IsInit admin delegate eid s may =
      elim (Bool-cases (send_config_is_initialized (endpoint.path s eid))) [
        | inl set ↦ rw set set
        | inr unset ↦
            let signer : Key = elim delegate [ none ↦ admin | some d ↦ d ] in
            let signs = signer-MaySign admin delegate may in
            rw unset (
              IsInit-elim s eid (init_instructions signer eid (endpoint.path s eid)) unset
                (initialized_of_AllSet signer eid signs _ (run_init signer eid signs s)))
      ]
