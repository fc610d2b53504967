-- ===== src/Pda.antt =====
-- Program addresses. A key is the 32 bytes of a public key, whichever library's object or base58
-- text carries it. The derivation of an address from a program and seeds is the libraries'
-- (`findProgramAddressSync`, `eddsa.findPda`), a parameter of the definitions that use it. It reads
-- the seeds one after the other, so seeds are compared by their concatenation.
pub mod Lendmirror
pub mod Pieces
use lendmirror.Common.{ℕ, List, [], ◌∷◌, ◌++◌}
use lendmirror.Bytes.{Bytes}

abbrev pub Key : Type 0
Key = Bytes

abbrev pub FindPda : Type 0
FindPda = Key → List Bytes → Key

-- What is hashed for a list of seeds.
abbrev pub seed_bytes : List Bytes → Bytes
seed_bytes [] = []
seed_bytes (s ∷ ss) = s ++ seed_bytes ss
