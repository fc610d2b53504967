-- ===== src/Cli.antt =====
-- bin/lm-cli.ts: the command that `lm` starts, with the deployment's keys and URLs put in where the
-- caller gave none. Texts are the codes of their characters.
pub mod Flags
pub mod Command
use lendmirror.Common.{
  Bool, true, false, not, ◌&&◌, ◌||◌, List, [], ◌∷◌, ◌++◌, length, take, if◌then◌else◌, Option,
  none, some, ◌==◌, drop, zero, suc, ℕ,
}
use lendmirror.Common.Keys.{eqb, contains}
use lendmirror.Common.Text.{codes}
use lendmirror.Common.Outcome.{Result, ok, err}

abbrev pub Word : Type 0
Word = List ℕ

abbrev pub rpc_url_flag : Word
rpc_url_flag = codes "--rpc-url"

abbrev pub private_key_flag : Word
private_key_flag = codes "--private-key"

abbrev pub url_flag : Word
url_flag = codes "--url"

abbrev pub keypair_flag : Word
keypair_flag = codes "--keypair"

-- `startsWith`
unfoldable pub starts_with : Word → Word → Bool
starts_with s [] = true
starts_with [] (p ∷ ps) = false
starts_with (c ∷ s) (p ∷ ps) = c == p && starts_with s ps

unfoldable pub is_flag : Word → Word → Bool
is_flag name a = eqb a name || starts_with a (name ++ codes "=")

unfoldable pub has_flag : List Word → Word → Bool
has_flag [] name = false
has_flag (a ∷ args) name = is_flag name a || has_flag args name

unfoldable pub is_constructor_flag : Word → Bool
is_constructor_flag a =
    is_flag (codes "--constructor-args") a
    || (is_flag (codes "--constructor-args-path") a
        || is_flag (codes "--encoded-constructor-args") a)

-- `args.findIndex(…)`
abbrev pub index_after : Bool → Option ℕ → Option ℕ
index_after true later = some 0
index_after false none = none
index_after false (some i) = some (suc i)

unfoldable pub find_index : (Word → Bool) → List Word → Option ℕ
find_index p [] = none
find_index p (a ∷ args) = index_after (p a) (find_index p args)

abbrev pub insert_at : Option ℕ → List Word → List Word → List Word
insert_at none args flags = args ++ flags
insert_at (some cut) args flags = take cut args ++ (flags ++ drop cut args)

unfoldable pub insert_forge_flags : List Word → List Word → List Word
insert_forge_flags args flags = insert_at (find_index is_constructor_flag args) args flags

-- What the wrapper takes from the resolved deployment.
pub record Settings : Type 0 where
  pub program_id : Word
  pub solana_rpc : Word
  pub solana_keypair_path : Word
  pub evm_rpc : Word
  pub evm_private_key : Word

-- A program that is started, its arguments, and the variables set for it.
pub record Invocation : Type 0 where
  pub command : Word
  pub args : List Word
  pub env : List (Word × Word)

pub data CliError : Type 0 where
  -- `Usage: …`
  usage : CliError
  -- `Unknown lm command: …`
  unknown_command : Word → CliError

abbrev pub append_unless : Bool → List Word → List Word → List Word
append_unless given flags args = if given then args else args ++ flags

abbrev pub unless_given : Bool → List Word → List Word
unless_given given flags = if given then [] else flags

abbrev pub first_is : Word → List Word → Bool
first_is w [] = false
first_is w (a ∷ args) = eqb a w

module _ (settings : Settings) where
  unfoldable pub anchor_build : List Word → Invocation
  anchor_build rest = record {
    command = codes "anchor";
    args = codes "build" ∷ codes "-p" ∷ codes "lendmirror" ∷ rest;
    env = (codes "LENDMIRROR_ID", settings.program_id) ∷ [];
  }

  -- Both branches of `anchor` start the same.
  unfoldable pub anchor : List Word → Invocation
  anchor rest = record {
    command = codes "anchor";
    args = rest;
    env = (codes "LENDMIRROR_ID", settings.program_id) ∷ [];
  }

  unfoldable pub solana_args : List Word → List Word
  solana_args rest =
      let args =
        append_unless (has_flag rest url_flag || has_flag rest (codes "-u"))
          (url_flag ∷ settings.solana_rpc ∷ []) rest in
      append_unless (has_flag args keypair_flag || has_flag args (codes "-k"))
        (keypair_flag ∷ settings.solana_keypair_path ∷ []) args

  -- Whether forge or cast needs the key.
  unfoldable pub needs_key : Word → List Word → Bool
  needs_key cmd args =
      eqb cmd (codes "forge")
      || (first_is (codes "send") args
          || (first_is (codes "publish") args || contains (codes "--broadcast") args))

  unfoldable pub injected : Word → List Word → List Word
  injected cmd args =
      unless_given (has_flag args rpc_url_flag) (rpc_url_flag ∷ settings.evm_rpc ∷ [])
      ++ unless_given (has_flag args private_key_flag || not (needs_key cmd args))
          (private_key_flag ∷ settings.evm_private_key ∷ [])

  -- With nothing to inject, the arguments stay as they are.
  abbrev pub with_flags : List Word → List Word → List Word
  with_flags [] args = args
  with_flags (f ∷ flags) args = insert_forge_flags args (f ∷ flags)

  unfoldable pub foundry_args : Word → List Word → List Word
  foundry_args cmd args = with_flags (injected cmd args) args

  unfoldable pub foundry : Word → List Word → Invocation
  foundry cmd rest = record {
    command = cmd;
    args = foundry_args cmd rest;
    env = (codes "PRIVATE_KEY", settings.evm_private_key) ∷ [];
  }

  unfoldable pub run_command : List Word → Result CliError Invocation
  run_command [] = err usage
  run_command (cmd ∷ rest) =
      if eqb cmd (codes "build")
      then ok (anchor_build rest)
      else if eqb cmd (codes "anchor")
      then ok (anchor rest)
      else if eqb cmd (codes "solana")
      then ok (record { command = codes "solana"; args = solana_args rest; env = [] })
      else if eqb cmd (codes "forge") || eqb cmd (codes "cast")
      then ok (foundry cmd rest)
      else err (unknown_command cmd)
