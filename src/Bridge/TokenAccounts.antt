-- ===== src/Bridge/TokenAccounts.antt =====
-- lib/client/bridge.ts, lines 171-246: Chainlink's accounts for a token, read from the registry and
-- the lookup table of the token. The node is three parameters: the program that owns an account, the
-- data of an account, and the addresses of a lookup table.
use lendmirror.Common.{ℕ, suc, ◌+◌, ◌-◌, ◌*◌, ◌/◌, ◌%◌, ◌^◌, Bool, true, false, ◌&&◌, Option}
use lendmirror.Common.{List, [], ◌∷◌, ◌++◌, length, ltb, leb, ◌==◌, get_or, if◌then◌else◌}
use lendmirror.Common.Outcome.{Result, ok, ◌>>=◌, ◌>>◌, guard, require, map_err}
use lendmirror.Common.Text.{codes}
use lendmirror.Bytes.{Bytes, checked_le, slice, zeros}
use lendmirror.Pda.{Key, FindPda}
use lendmirror.Ix.{AccountMeta}
use lendmirror.Ccip.{CcipRouteAccount}
use lendmirror.Bridge.{BridgeError, no_mint, not_registered, no_table, short_table, range}

-- Bit `position` of a word of 128 bits. A byte that is not there counts as 0.
unfoldable pub word_bit : Bytes → ℕ → ℕ → Bool
word_bit writable_bits word position =
    get_or writable_bits (word * 16 + position / 8) 0 / 2 ^ (position % 8) % 2 == 1

-- What the same expressions give past the 256 entries that a lookup table can have: the position is
-- negative there, `%` keeps its sign and `>>` counts modulo 32.
unfoldable pub bit_past : Bytes → ℕ → Bool
bit_past writable_bits past =
    (past % 8 == 0)
    && (leb ((past + 7) / 8) 16 && (get_or writable_bits (16 - (past + 7) / 8) 0 % 2 == 1))

-- Whether entry `index` is writable: its bit, counted from the most significant one of two words.
unfoldable pub is_writable : Bytes → ℕ → Bool
unfolding word_bit bit_past
is_writable writable_bits index =
    if ltb index 128
    then word_bit writable_bits 0 (127 - index)
    else if ltb index 256
    then word_bit writable_bits 1 (127 - (index - 128))
    else bit_past writable_bits (index - 255)

-- `new PublicKey(bytes)` of at most 32 bytes reads them as a number.
unfoldable pub public_key : Bytes → Key
public_key bytes = zeros (32 - length bytes) ++ bytes

unfoldable pub token_meta : Key → Bool → AccountMeta
token_meta key writable = record { pubkey = key; is_signer = false; is_writable = writable }

-- `entries.map((key, index) => meta(key, isWritable(index)))`, from an index on.
unfoldable pub entry_metas : Bytes → ℕ → List Key → List AccountMeta
unfolding token_meta
entry_metas writable_bits index [] = []
entry_metas writable_bits index (key ∷ keys) =
    token_meta key (is_writable writable_bits index) ∷ entry_metas writable_bits (suc index) keys

pub record CcipTokenAccounts : Type 0 where
  pub accounts : List AccountMeta
  pub token_program : Key
  pub lookup_table : Key

module _ (find_pda : FindPda) (ata : Key → Key → Key → Key) (owner_of : Key → Option Key)
    (get_account : Key → Option Bytes) (get_table : Key → Option (List Key)) where
  unfoldable pub registry_of : CcipRouteAccount → Key → Key
  registry_of route mint = find_pda route.router (codes "token_admin_registry" ∷ mint ∷ [])

  unfoldable pub remaining_accounts :
      CcipRouteAccount
      → (mint bridge_signer token_program : Key) → Bytes
      → Bytes
      → Key
      → List Key
      → List AccountMeta
  remaining_accounts route mint bridge_signer token_program selector writable_bits pool_program
        entries =
      token_meta (ata bridge_signer mint token_program) true
      ∷ token_meta
          (find_pda route.fee_quoter (codes "per_chain_per_token_config" ∷ selector ∷ mint ∷ []))
          false
      ∷ token_meta
          (find_pda pool_program (codes "ccip_tokenpool_chainconfig" ∷ selector ∷ mint ∷ [])) true
      ∷ entry_metas writable_bits 0 entries

  unfoldable pub ccip_token_remaining_accounts :
      CcipRouteAccount → (mint bridge_signer : Key) → Result BridgeError CcipTokenAccounts
  ccip_token_remaining_accounts route mint bridge_signer = do
    token_program ← require (owner_of mint) no_mint
    selector ← map_err (λ _. range) (checked_le 8 route.dest_chain_selector)
    registry ← require (get_account (registry_of route mint)) not_registered
    entries ← require (get_table (public_key (slice 73 105 registry))) no_table
    guard (leb 9 (length entries)) short_table
    ok (record {
      accounts =
          remaining_accounts route mint bridge_signer token_program selector
            (slice 105 137 registry) (get_or entries 2 []) entries;
      token_program = token_program;
      lookup_table = public_key (slice 73 105 registry);
    })
