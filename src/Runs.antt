-- ===== src/Runs.antt =====
-- Concrete inputs, and the theorems applied to them.
mod Solana
mod Sends
mod Bridges
mod Routes
mod Tooling
mod Wrappers
mod Commands
mod Operations
mod Tables
mod Loops
mod Messages
use lendmirror.Common.{
  ℕ, ◌+◌, Bool, true, false, Option, none, some, List, [], ◌∷◌, ◌++◌, take, replicate,
  if◌then◌else◌,
}
use lendmirror.Common.Int.{ℤ, pos, negsuc}
use lendmirror.Common.Keys.{eqb}
use lendmirror.Bytes.{Bytes, zeros}
use lendmirror.Pda.{Key, FindPda, seed_bytes}

abbrev pub key_of : ℕ → Key
key_of n = replicate 32 n

-- An address that shows its seeds.
abbrev pub toy_find_pda : FindPda
toy_find_pda program seeds = take 32 (seed_bytes seeds ++ program)

abbrev pub toy_ata : Key → Key → Key → Key
toy_ata owner mint program = take 32 (take 10 owner ++ (take 10 mint ++ program))
