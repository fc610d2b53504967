-- ===== src/Bridge/Entries.antt =====
-- The token accounts follow the lookup table.
use lendmirror.Common.{
  ℕ, zero, suc, ◌+◌, ◌≤◌, ◌≡◌, refl, ap, ◌∙◌, true, Option, some, List, [], ◌∷◌, length, get_elem?,
  get_or, leb, arith,
}
use lendmirror.Common.Outcome.{ok}
use lendmirror.Bytes.{Bytes, checked_le, slice}
use lendmirror.Pda.{Key, FindPda}
use lendmirror.Ccip.{CcipRouteAccount}
use lendmirror.Bridge.TokenAccounts.{
  is_writable, token_meta, entry_metas, public_key, CcipTokenAccounts, registry_of,
  remaining_accounts, ccip_token_remaining_accounts,
}

length-entry_metas :
    (bits : Bytes) (k : ℕ) (keys : List Key) → length (entry_metas bits k keys) ≡ length keys
unfolding entry_metas
length-entry_metas bits k [] = refl
length-entry_metas bits k (key ∷ keys) = ap suc (length-entry_metas bits (suc k) keys)

get_elem?-entry_metas :
    (bits : Bytes) (k i : ℕ) (keys : List Key) (key : Key)
    → get_elem? keys i ≡ some key
    → get_elem? (entry_metas bits k keys) i ≡ some (token_meta key (is_writable bits (k + i)))
unfolding entry_metas
get_elem?-entry_metas bits k i [] key e = cc
get_elem?-entry_metas bits k zero (x ∷ keys) key e =
    let same : x ≡ key = some_injective e in
    let here : k + 0 ≡ k = omega arith in rw (here, same) refl
  where
    some_injective : ◌≡◌ {A = Option Key} (some x) (some key) → x ≡ key
    some_injective h = cc
get_elem?-entry_metas bits k (suc i) (x ∷ keys) key e =
    let next : k + suc i ≡ suc k + i = omega arith in
    rw next (get_elem?-entry_metas bits (suc k) i keys key e)

get_elem?-entries :
    (bits : Bytes) (i : ℕ) (keys : List Key) (key : Key)
    → get_elem? keys i ≡ some key
    → get_elem? (entry_metas bits 0 keys) i ≡ some (token_meta key (is_writable bits i))
get_elem?-entries bits i keys key e =
    let here : 0 + i ≡ i = omega arith in
    get_elem?-entry_metas bits 0 i keys key e
    ∙ ap (λ j. some (token_meta key (is_writable bits j))) here

module _ (find_pda : FindPda) (ata : Key → Key → Key → Key) (owner_of : Key → Option Key)
    (get_account : Key → Option Bytes) (get_table : Key → Option (List Key)) where
  -- The accounts that a send of the token is given: those of the table, each writable where the
  -- registry's bitmap says so, behind the sender's token account.
  pub record IsTokenSend (route : CcipRouteAccount) (mint bridge_signer : Key)
      (result : CcipTokenAccounts) : Type 0 where
    pub entries : List Key
    pub registry : Bytes
    pub registered :
        get_account (registry_of find_pda ata owner_of get_account get_table route mint)
        ≡ some registry
    pub table : get_table result.lookup_table ≡ some entries
    pub owner : owner_of mint ≡ some result.token_program
    pub enough : 9 ≤ length entries
    pub sender :
        get_elem? result.accounts 0
        ≡ some (token_meta (ata bridge_signer mint result.token_program) true)
    pub size : length result.accounts ≡ 3 + length entries
    pub entry :
        (i : ℕ) (key : Key)
        → get_elem? entries i ≡ some key
        → get_elem? result.accounts (suc (suc (suc i)))
          ≡ some (token_meta key (is_writable (slice 105 137 registry) i))

  tokens_of :
      (route : CcipRouteAccount) (mint bridge_signer token_program : Key)
      (selector registry : Bytes) (entries : List Key)
      → CcipTokenAccounts
  tokens_of route mint bridge_signer token_program selector registry entries = record {
    accounts =
        remaining_accounts find_pda ata owner_of get_account get_table route mint bridge_signer
          token_program selector (slice 105 137 registry) (get_or entries 2 []) entries;
    token_program = token_program;
    lookup_table = public_key (slice 73 105 registry);
  }

  tokens_of-IsTokenSend :
      (route : CcipRouteAccount) (mint bridge_signer token_program : Key)
      (selector registry : Bytes) (entries : List Key)
      → owner_of mint ≡ some token_program
      → get_account (registry_of find_pda ata owner_of get_account get_table route mint)
        ≡ some registry
      → get_table (public_key (slice 73 105 registry)) ≡ some entries
      → 9 ≤ length entries
      → IsTokenSend route mint bridge_signer
          (tokens_of route mint bridge_signer token_program selector registry entries)
  unfolding tokens_of remaining_accounts
  tokens_of-IsTokenSend route mint bridge_signer token_program selector registry entries o r t n =
      record {
        entries = entries;
        registry = registry;
        registered = r;
        table = t;
        owner = o;
        enough = n;
        sender = refl;
        size = omega (arith, length-entry_metas (slice 105 137 registry) 0 entries);
        entry = λ i key h. get_elem?-entries (slice 105 137 registry) i entries key h;
      }

  -- If the mint is owned by a token program, its registry and its lookup table exist, the table has
  -- at least 9 entries and the destination's selector fits 64 bits, then the account list of the
  -- send is returned, and it is the whole table in order behind three accounts, with the sender's
  -- token account in front and each entry writable exactly as the bitmap of the registry says.
  pub ccip_token_remaining_accounts-IsTokenSend :
      (route : CcipRouteAccount) (mint bridge_signer token_program : Key)
      (selector registry : Bytes) (entries : List Key)
      → owner_of mint ≡ some token_program
      → checked_le 8 route.dest_chain_selector ≡ ok selector
      → get_account (registry_of find_pda ata owner_of get_account get_table route mint)
        ≡ some registry
      → get_table (public_key (slice 73 105 registry)) ≡ some entries
      → 9 ≤ length entries
      → (result : CcipTokenAccounts) × (ccip_token_remaining_accounts find_pda ata owner_of
            get_account get_table route mint bridge_signer
          ≡ ok result)
        × IsTokenSend route mint bridge_signer result
  unfolding ccip_token_remaining_accounts tokens_of
  ccip_token_remaining_accounts-IsTokenSend route mint bridge_signer token_program selector registry
        entries o s r t n =
      (
        tokens_of route mint bridge_signer token_program selector registry entries,
        rw (o, s, r, t, enough) refl,
        tokens_of-IsTokenSend route mint bridge_signer token_program selector registry entries o r t
            n,
      )
    where
      enough : leb 9 (length entries) ≡ true
      enough = ground arith
