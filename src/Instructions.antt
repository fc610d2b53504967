-- ===== src/Instructions.antt =====
-- lib/client/generated/lendmirror: how a generated instruction turns its named accounts into the
-- list that a transaction holds (shared/index.ts, getAccountMetasAndSigners).
pub mod Message
pub mod Refresh
use lendmirror.Common.{Bool, true, false, Option, none, some, List, [], ◌∷◌, ◌++◌}
use lendmirror.Pda.{Key}
use lendmirror.Ix.{AccountMeta}

-- `PublicKey | Pda | Signer | null`
pub data Account : Type 0 where
  no_account : Account
  address signer : Key → Account

pub record ResolvedAccount : Type 0 where
  pub is_writable : Bool
  pub value : Account

abbrev pub read_only : Account → ResolvedAccount
read_only a = record { is_writable = false; value = a }

abbrev pub read_write : Account → ResolvedAccount
read_write a = record { is_writable = true; value = a }

-- `input.account ?? null`
abbrev pub optional : Option Key → Account
optional none = no_account
optional (some k) = address k

abbrev pub entry_meta : Key → Bool → Account → AccountMeta
entry_meta program w no_account = record {
  pubkey = program;
  is_signer = false;
  is_writable = false;
}
entry_meta program w (address k) = record { pubkey = k; is_signer = false; is_writable = w }
entry_meta program w (signer k) = record { pubkey = k; is_signer = true; is_writable = w }

abbrev pub entry_signers : Account → List Key
entry_signers (signer k) = k ∷ []
entry_signers (address k) = []
entry_signers no_account = []

-- `getAccountMetasAndSigners` with the strategy 'programId', which every generated instruction uses.
unfoldable pub account_metas : Key → List ResolvedAccount → List AccountMeta
account_metas program [] = []
account_metas program (a ∷ rest) =
    entry_meta program a.is_writable a.value ∷ account_metas program rest

unfoldable pub account_signers : List ResolvedAccount → List Key
account_signers [] = []
account_signers (a ∷ rest) = entry_signers a.value ++ account_signers rest
