-- ===== src/Cli/Command.antt =====
-- What is started for each command.
use lendmirror.Common.{
  ◌≡◌, refl, sym, ap, ◌∙◌, Bool, true, false, not, ◌||◌, ◌⊎◌, ◌↔◌, inl, inr, List, [], ◌∷◌, ◌++◌,
  arith,
}
use mathlib.Core.Path.{subst}
use lendmirror.Common.Filter.{Member}
use lendmirror.Common.Keys.{eqb, eqb_iff, contains}
use lendmirror.Common.Text.{codes}
use lendmirror.Common.Outcome.{ok}
use lendmirror.Cli.{
  Word, Settings, Invocation, rpc_url_flag, private_key_flag, starts_with, is_flag, has_flag,
  unless_given, first_is, needs_key, injected, with_flags, foundry_args, foundry, run_command,
}
use lendmirror.Cli.Flags.{has_flag-append, IsCut, IsInserted, insert_forge_flags-IsInserted}

rpc-key_apart :
    (is_flag private_key_flag rpc_url_flag ≡ false)
    × (is_flag rpc_url_flag private_key_flag ≡ false)
unfolding is_flag eqb starts_with
rpc-key_apart = (refl, refl)

-- The values of the environment are no flags.
pub record ArePlain (settings : Settings) : Type 0 where
  pub rpc_plain : is_flag private_key_flag settings.evm_rpc ≡ false
  pub key_plain : is_flag rpc_url_flag settings.evm_private_key ≡ false

-- The first word is the given one.
abbrev pub IsFirst : Word → List Word → Type 0
IsFirst w [] = ⊥
IsFirst w (a ∷ args) = a ≡ w

-- The commands that sign: all of forge, `send` and `publish`, and whatever is broadcast.
abbrev pub NeedsKey : Word → List Word → Type 0
NeedsKey cmd rest =
    (cmd ≡ codes "forge")
    ⊎ (IsFirst (codes "send") rest
        ⊎ (IsFirst (codes "publish") rest ⊎ Member (codes "--broadcast") rest))

first_is_iff : (w : Word) (args : List Word) → (first_is w args ≡ true) ↔ IsFirst w args
first_is_iff w [] = (λ h. cc, λ h. absurd h)
first_is_iff w (a ∷ args) = eqb_iff a w

contains_iff : (w : Word) (args : List Word) → (contains w args ≡ true) ↔ Member w args
unfolding contains
contains_iff w [] = (λ h. cc, λ h. absurd h)
contains_iff w (a ∷ args) = ground (arith, eqb_iff a w, contains_iff w args)

needs_key_iff :
    (settings : Settings) (cmd : Word) (rest : List Word)
    → (needs_key settings cmd rest ≡ true) ↔ NeedsKey cmd rest
unfolding needs_key
needs_key_iff settings cmd rest = ground (
  arith,
  eqb_iff cmd (codes "forge"),
  first_is_iff (codes "send") rest,
  first_is_iff (codes "publish") rest,
  contains_iff (codes "--broadcast") rest,
)

-- A flag with its value, or nothing where there is no need for it.
abbrev pub IsAdded : (spared : Bool) → (name value : Word) → List Word → Type 0
IsAdded true name value part = part ≡ []
IsAdded false name value part = part ≡ name ∷ value ∷ []

unless_given-IsAdded :
    (given : Bool) (name value : Word)
    → IsAdded given name value (unless_given given (name ∷ value ∷ []))
unless_given-IsAdded true name value = refl
unless_given-IsAdded false name value = refl

module _ (settings : Settings) (plain : ArePlain settings) where
  -- Forge and cast get the caller's arguments, with the deployment's RPC and key put in before the
  -- values of a constructor, each only where the caller gave none, and the key only where it is needed.
  pub record IsFoundry (cmd : Word) (rest : List Word) (inv : Invocation) : Type 0 where
    pub command_is : inv.command ≡ cmd
    pub front : List Word
    pub rpc_part : List Word
    pub key_part : List Word
    pub back : List Word
    pub cut : IsCut rest front back
    pub args_are : inv.args ≡ front ++ ((rpc_part ++ key_part) ++ back)
    pub rpc_is : IsAdded (has_flag rest rpc_url_flag) rpc_url_flag settings.evm_rpc rpc_part
    pub key_is :
        IsAdded
          (has_flag rest private_key_flag || not (needs_key settings cmd rest))
          private_key_flag
          settings.evm_private_key
          key_part
    pub env_is : inv.env ≡ (codes "PRIVATE_KEY", settings.evm_private_key) ∷ []
    pub signs : (needs_key settings cmd rest ≡ true) ↔ NeedsKey cmd rest
    pub has_rpc : has_flag inv.args rpc_url_flag ≡ true
    pub has_key : needs_key settings cmd rest ≡ true → has_flag inv.args private_key_flag ≡ true
    pub key_withheld :
        needs_key settings cmd rest ≡ false
        → has_flag inv.args private_key_flag ≡ has_flag rest private_key_flag

  abbrev with_rpc : Bool → List Word
  with_rpc given = unless_given given (rpc_url_flag ∷ settings.evm_rpc ∷ [])

  abbrev with_key : Bool → List Word
  with_key given = unless_given given (private_key_flag ∷ settings.evm_private_key ∷ [])

  rpc-with_rpc : (given : Bool) → (given || has_flag (with_rpc given) rpc_url_flag) ≡ true
  unfolding has_flag is_flag eqb starts_with
  rpc-with_rpc true = refl
  rpc-with_rpc false = refl

  key-with_key : (given : Bool) → (given || has_flag (with_key given) private_key_flag) ≡ true
  unfolding has_flag is_flag eqb starts_with
  key-with_key true = refl
  key-with_key false = refl

  key-with_rpc : (given : Bool) → has_flag (with_rpc given) private_key_flag ≡ false
  unfolding has_flag
  key-with_rpc true = refl
  key-with_rpc false = rw (rpc-key_apart.0, plain.rpc_plain) refl

  rpc-with_key : (given : Bool) → has_flag (with_key given) rpc_url_flag ≡ false
  unfolding has_flag
  rpc-with_key true = refl
  rpc-with_key false = rw (rpc-key_apart.1, plain.key_plain) refl

  given-with_key :
      (given : Bool) (name : Word) → given ≡ true → has_flag (with_key given) name ≡ false
  unfolding has_flag
  given-with_key true name h = refl
  given-with_key false name h = cc

  with_flags-IsInserted :
      (args flags : List Word) → IsInserted args flags (with_flags settings flags args)
  with_flags-IsInserted args [] =
      let i = insert_forge_flags-IsInserted args [] in
      record { front = i.front; back = i.back; cut = i.cut; result_is = sym i.cut.whole }
  with_flags-IsInserted args (f ∷ flags) = insert_forge_flags-IsInserted args (f ∷ flags)

  module _ (cmd : Word) (rest args : List Word)
      (i : IsInserted rest (injected settings cmd rest) args) where
    has_flag-args :
        (name : Word)
        → has_flag args name ≡ (
            has_flag i.front name
            || (has_flag (injected settings cmd rest) name || has_flag i.back name))
    has_flag-args name =
        ap (λ l. has_flag l name) i.result_is
        ∙ (has_flag-append name i.front (injected settings cmd rest ++ i.back)
            ∙ ap (λ b. has_flag i.front name || b)
                (has_flag-append name (injected settings cmd rest) i.back))

    has_flag-rest :
        (name : Word) → has_flag rest name ≡ (has_flag i.front name || has_flag i.back name)
    has_flag-rest name =
        ap (λ l. has_flag l name) (sym i.cut.whole) ∙ has_flag-append name i.front i.back

    key_given : Bool
    key_given = has_flag rest private_key_flag || not (needs_key settings cmd rest)

    has_flag-injected :
        (name : Word)
        → has_flag (injected settings cmd rest) name ≡ (
            has_flag (with_rpc (has_flag rest rpc_url_flag)) name
            || has_flag (with_key key_given) name)
    unfolding injected key_given
    has_flag-injected name =
        has_flag-append name (with_rpc (has_flag rest rpc_url_flag))
          (with_key (has_flag rest private_key_flag || not (needs_key settings cmd rest)))

    args-IsFoundry : IsFoundry cmd rest (record {
      command = cmd;
      args = args;
      env = (codes "PRIVATE_KEY", settings.evm_private_key) ∷ [];
    })
    unfolding key_given injected
    args-IsFoundry =
        let rpc = rpc_url_flag in
        let key = private_key_flag in
        record {
          command_is = refl;
          front = i.front;
          rpc_part = with_rpc (has_flag rest rpc);
          key_part = with_key (has_flag rest key || not (needs_key settings cmd rest));
          rpc_is = unless_given-IsAdded (has_flag rest rpc) rpc settings.evm_rpc;
          key_is =
              unless_given-IsAdded (has_flag rest key || not (needs_key settings cmd rest)) key
                settings.evm_private_key;
          env_is = refl;
          signs = needs_key_iff settings cmd rest;
          back = i.back;
          cut = i.cut;
          args_are = i.result_is;
          has_rpc = ground (
            arith,
            has_flag-args rpc,
            has_flag-rest rpc,
            has_flag-injected rpc,
            rpc-with_rpc (has_flag rest rpc),
          );
          has_key = λ h. ground (
            arith,
            has_flag-args key,
            has_flag-rest key,
            has_flag-injected key,
            key-with_key (has_flag rest key || not (needs_key settings cmd rest)),
          );
          key_withheld = λ h. ground (
            arith,
            has_flag-args key,
            has_flag-rest key,
            has_flag-injected key,
            key-with_rpc (has_flag rest rpc),
            given-with_key (has_flag rest key || not (needs_key settings cmd rest)) key,
          );
        }

  foundry-IsFoundry :
      (cmd : Word) (rest : List Word) → IsFoundry cmd rest (foundry settings cmd rest)
  unfolding foundry foundry_args
  foundry-IsFoundry cmd rest =
      args-IsFoundry cmd rest (with_flags settings (injected settings cmd rest) rest)
        (with_flags-IsInserted rest (injected settings cmd rest))

  abbrev StartsFoundry : List Word → Word → Type 0
  StartsFoundry rest cmd = run_command settings (cmd ∷ rest) ≡ ok (foundry settings cmd rest)

  run_forge : (rest : List Word) → StartsFoundry rest (codes "forge")
  unfolding run_command eqb
  run_forge rest = refl

  run_cast : (rest : List Word) → StartsFoundry rest (codes "cast")
  unfolding run_command eqb
  run_cast rest = refl

  -- What `lm` starts for forge and cast has the caller's arguments in their order, with what the
  -- deployment adds before the first flag of a constructor's values. Then the RPC is named, by the
  -- caller's own flag if there was one and else by the deployment's; the private key is there where
  -- the command needs it, the caller's if it was given and else the deployment's; a command that does
  -- not need it gets no key but the caller's; and the variable PRIVATE_KEY is set. This holds if the deployment's RPC and
  -- key do not look like the other flag.
  pub run_command-IsFoundry :
      (cmd : Word) (rest : List Word)
      → (cmd ≡ codes "forge") ⊎ (cmd ≡ codes "cast")
      → (inv : Invocation) × (run_command settings (cmd ∷ rest) ≡ ok inv) × IsFoundry cmd rest inv
  run_command-IsFoundry cmd rest (inl e) = (
    foundry settings cmd rest,
    subst (StartsFoundry rest) (sym e) (run_forge rest),
    foundry-IsFoundry cmd rest,
  )
  run_command-IsFoundry cmd rest (inr e) = (
    foundry settings cmd rest,
    subst (StartsFoundry rest) (sym e) (run_cast rest),
    foundry-IsFoundry cmd rest,
  )
