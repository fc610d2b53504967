-- ===== src/Ix.antt =====
-- Account lists and instructions, as the Solana libraries of the client have them.
use lendmirror.Common.{Bool, true, false, List}
use lendmirror.Bytes.{Bytes}
use lendmirror.Pda.{Key}

pub record AccountMeta : Type 0 where
  pub pubkey : Key
  pub is_signer : Bool
  pub is_writable : Bool

pub record Instruction : Type 0 where
  pub program_id : Key
  pub keys : List AccountMeta
  pub data' : Bytes

abbrev pub writable : Key → AccountMeta
writable k = record { pubkey = k; is_signer = false; is_writable = true }

abbrev pub readonly : Key → AccountMeta
readonly k = record { pubkey = k; is_signer = false; is_writable = false }

abbrev pub signer_meta : Key → AccountMeta
signer_meta k = record { pubkey = k; is_signer = true; is_writable = true }
