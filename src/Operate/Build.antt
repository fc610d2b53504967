-- ===== src/Operate/Build.antt =====
-- The instructions of an operation: what Jupiter is given, who signs, and which accounts exist then.
use lendmirror.Common.{
  ℕ, ◌≡◌, refl, ap, sym, false, Option, none, some, List, [], ◌∷◌, ◌++◌, map, drop, length, All,
  drop-append, ◌⊎◌, inl, inr,
}
use mathlib.Core.Path.{subst}
use lendmirror.Common.Text.{codes}
use lendmirror.Common.Outcome.{Result, ok}
use lendmirror.Bytes.{Bytes, zeros}
use lendmirror.Pda.{Key, FindPda}
use lendmirror.Pda.Lendmirror.{oapp, wrapper, wrapper_authority}
use lendmirror.Ix.{AccountMeta, Instruction, signer_meta, readonly, writable}
use lendmirror.Client.{ondemand_if_attached}
use lendmirror.Known.{token_program}
use lendmirror.Instructions.{entry_signers, optional, account_metas, account_signers}
use lendmirror.Operate.{TokenAccount, pda_token_accounts}
use lendmirror.Operate.Calls.{
  DexRequest, SdkResult, SdkFailure, SetupIx, jupiter, create_token_account, OperateSerializer,
  OperateBuild, OperateArgs, drop_last, last?, unsigned, create_for, labelled, dex_request,
  operate_accounts, operate_discriminator, operate_position, operate_input, operate_build,
  build_operate_position,
}

-- What the serializer promises: it reads back what it wrote, behind any 8 bytes.
pub record IsInverse (codec : OperateSerializer) : Type 0 where
  pub inverse :
      (prefix : Bytes) (a : codec.Args)
      → length prefix ≡ 8
      → codec.deserialize (prefix ++ codec.serialize a) ≡ some a

-- One of the instructions creates this token account, of its mint and under its token program, for
-- this owner, paid by this wallet.
abbrev pub IsCreated : (payer owner : Key) → TokenAccount → List SetupIx → Type 0
IsCreated payer owner t [] = ⊥
IsCreated payer owner t (jupiter ix ∷ rest) = IsCreated payer owner t rest
IsCreated payer owner t (create_token_account p a o m program ∷ rest) =
    ((p ≡ payer) × (a ≡ t.address) × (o ≡ owner) × (m ≡ t.mint) × (program ≡ t.program))
    ⊎ IsCreated payer owner t rest

abbrev pub IsUnsigned : AccountMeta → Type 0
IsUnsigned m = m.is_signer ≡ false

All-unsigned : (ms : List AccountMeta) → All IsUnsigned (map unsigned ms)
All-unsigned [] = tt
All-unsigned (m ∷ ms) = (refl, All-unsigned ms)

optional-unsigned : (o : Option Key) → entry_signers (optional o) ≡ []
optional-unsigned none = refl
optional-unsigned (some k) = refl

module _ (payer owner : Key) where
  abbrev Listed : List SetupIx → List TokenAccount → Type 0
  Listed setup ts = All (λ t. IsCreated payer owner t setup) ts

  Listed-weaken :
      (u : TokenAccount) (setup : List SetupIx) (ts : List TokenAccount)
      → Listed setup ts
      → Listed (create_for payer owner u ∷ setup) ts
  Listed-weaken u setup [] h = tt
  Listed-weaken u setup (t ∷ ts) h = (inr h.0, Listed-weaken u setup ts h.1)

  Listed-created : (ts : List TokenAccount) → Listed (map (create_for payer owner) ts) ts
  Listed-created [] = tt
  Listed-created (t ∷ ts) = (
    inl (refl, refl, refl, refl, refl),
    Listed-weaken t (map (create_for payer owner) ts) ts (Listed-created ts),
  )

  IsCreated-behind_jupiter :
      (t : TokenAccount) (ixs : List Instruction) (rest : List SetupIx)
      → IsCreated payer owner t rest
      → IsCreated payer owner t (map jupiter ixs ++ rest)
  IsCreated-behind_jupiter t [] rest h = h
  IsCreated-behind_jupiter t (ix ∷ ixs) rest h = IsCreated-behind_jupiter t ixs rest h

  Listed-behind_jupiter :
      (ixs : List Instruction) (setup : List SetupIx) (ts : List TokenAccount)
      → Listed setup ts
      → Listed (map jupiter ixs ++ setup) ts
  Listed-behind_jupiter ixs setup [] h = tt
  Listed-behind_jupiter ixs setup (t ∷ ts) h =
      (IsCreated-behind_jupiter t ixs setup h.0, Listed-behind_jupiter ixs setup ts h.1)

map-append {ℓ κ} :
    {A : Type ℓ} {B : Type κ} (f : A → B) (xs ys : List A) → map f (xs ++ ys) ≡ map f xs ++ map f ys
map-append f [] ys = refl
map-append f (x ∷ xs) ys = ap (λ l. f x ∷ l) (map-append f xs ys)

-- The accounts of `OperatePosition` in programs/lendmirror/src/instructions/operate_position.rs, in
-- the order of the struct; the program's own id stands for no list of callers.
abbrev pub or_program : Key → Option Key → Key
or_program program_id none = program_id
or_program program_id (some key) = key

unfoldable pub program_metas :
    (program_id authority store wrapper_key : Key)
    → Option Key
    → (pda vaults_program : Key) → List AccountMeta
program_metas program_id authority store wrapper_key list pda vaults_program =
    signer_meta authority
    ∷ readonly store
    ∷ readonly wrapper_key
    ∷ readonly (or_program program_id list)
    ∷ writable pda
    ∷ readonly vaults_program
    ∷ []

-- A finished operation: Jupiter's arguments and accounts behind our own, with no other signer than
-- the caller, and every token account of the authority created before, after Jupiter's own setup.
pub record IsOperation (program_id authority pda : Key) (own_metas : List AccountMeta)
    (existing : List TokenAccount) (jupiter_setup : List Instruction) (operate : Instruction)
    (build : OperateBuild) : Type 0 where
  pub creations : List SetupIx
  pub program : build.operate_ix.program_id ≡ program_id
  pub same_arguments : build.operate_ix.data' ≡ operate_discriminator ++ drop 8 operate.data'
  pub keys_are : build.operate_ix.keys ≡ own_metas ++ map unsigned operate.keys
  pub others_unsigned : All IsUnsigned (map unsigned operate.keys)
  pub signers_are : build.operate_signers ≡ authority ∷ []
  pub setup_is : build.setup_ixs ≡ map jupiter jupiter_setup ++ creations
  pub created : Listed authority pda build.setup_ixs existing
  pub accounts_are : map (λ l. l.account) build.authority_accounts ≡ map (λ t. t.address) existing

module _ (find_pda : FindPda) (program_id : Key) (ata : Key → Key → Key → Key)
    (get_account : Key → Option Bytes)
    (get_operate_dex_ix : DexRequest → Result SdkFailure SdkResult) (codec : OperateSerializer)
    (a : OperateArgs) where
  abbrev pub own_wrapper : Key
  own_wrapper = wrapper find_pda program_id a.vault_id a.nft_id

  abbrev pub authority_of : Key
  authority_of = wrapper_authority find_pda program_id own_wrapper

  abbrev pub own_metas : List AccountMeta
  own_metas =
      program_metas program_id a.authority (oapp find_pda program_id) own_wrapper
        (ondemand_if_attached find_pda program_id get_account own_wrapper) authority_of
        a.vaults_program

  -- The account of the position's NFT.
  abbrev pub nft_account : TokenAccount
  nft_account = record {
    label = codes "position NFT";
    address = ata authority_of a.position_mint token_program;
    mint = a.position_mint;
    program = token_program;
  }

  -- The token accounts that the operation needs.
  abbrev pub existing_of : SdkResult → List TokenAccount
  existing_of for_pda = pda_token_accounts for_pda.accounts ++ (nft_account ∷ [])

  abbrev pub built : SdkResult → SdkResult → Instruction → codec.Args → OperateBuild
  built for_wallet for_pda operate arguments =
      operate_build find_pda program_id ata get_account get_operate_dex_ix codec a for_wallet
        for_pda operate arguments

  metas_lem :
      (o : Option Key)
      → account_metas program_id (
          operate_accounts (record {
            authority = a.authority;
            store = oapp find_pda program_id;
            wrapper_key = own_wrapper;
            ondemand = o;
            authority_pda = authority_of;
            vaults_program = a.vaults_program;
          }))
        ≡ program_metas program_id a.authority
            (oapp find_pda program_id)
            own_wrapper
            o
            authority_of
            a.vaults_program
  unfolding operate_accounts account_metas program_metas
  metas_lem none = refl
  metas_lem (some key) = refl

  setup_lem :
      (for_pda : SdkResult)
      → map (create_for a.authority authority_of) (existing_of for_pda)
        ≡ map (create_for a.authority authority_of) (pda_token_accounts for_pda.accounts)
          ++ (create_token_account a.authority nft_account.address authority_of a.position_mint
                token_program
              ∷ [])
  setup_lem for_pda =
      map-append (create_for a.authority authority_of) (pda_token_accounts for_pda.accounts)
        (nft_account ∷ [])

  addresses_lem :
      (ts : List TokenAccount) (label : List ℕ)
      → map
          (λ l. l.account)
          (map labelled ts ++ (record { label = label; account = nft_account.address } ∷ []))
        ≡ map (λ t. t.address) (ts ++ (nft_account ∷ []))
  addresses_lem [] label = refl
  addresses_lem (t ∷ ts) label = ap (λ l. t.address ∷ l) (addresses_lem ts label)

  built-IsOperation :
      (for_wallet for_pda : SdkResult) (operate : Instruction) (arguments : codec.Args)
      → drop 8 operate.data' ≡ codec.serialize arguments
      → IsOperation program_id a.authority authority_of own_metas
          (existing_of for_pda)
          (drop_last for_wallet.ixs)
          operate
          (built for_wallet for_pda operate arguments)
  unfolding operate_build operate_input operate_position operate_accounts account_signers
  built-IsOperation for_wallet for_pda operate arguments behind = record {
    creations = map (create_for a.authority authority_of) (existing_of for_pda);
    program = refl;
    same_arguments = ap (λ bytes. operate_discriminator ++ bytes) (sym behind);
    keys_are =
        ap (λ ms. ms ++ map unsigned operate.keys)
          (metas_lem (ondemand_if_attached find_pda program_id get_account own_wrapper));
    others_unsigned = All-unsigned operate.keys;
    signers_are =
        ap (λ ks. a.authority ∷ (ks ++ []))
          (optional-unsigned (ondemand_if_attached find_pda program_id get_account own_wrapper));
    setup_is = ap (λ l. map jupiter (drop_last for_wallet.ixs) ++ l) (sym (setup_lem for_pda));
    created =
        subst
          (λ l.
            Listed a.authority authority_of (map jupiter (drop_last for_wallet.ixs) ++ l)
              (existing_of for_pda))
          (setup_lem for_pda)
          (Listed-behind_jupiter a.authority authority_of (drop_last for_wallet.ixs)
            (map (create_for a.authority authority_of) (existing_of for_pda)) (existing_of for_pda)
            (Listed-created a.authority authority_of (existing_of for_pda)));
    accounts_are = addresses_lem (pda_token_accounts for_pda.accounts) (codes "position NFT");
  }

  -- If Jupiter's SDK answers both requests, and the last instruction for the authority carries
  -- serialized arguments behind 8 bytes, then the operation is built. Its instruction carries exactly
  -- those argument bytes, and behind our six accounts, in the order and with the flags that the
  -- program demands, Jupiter's, in Jupiter's order and with no signer; only the caller signs; and the
  -- wallet's instructions are Jupiter's setup and then creations, among them one for each token
  -- account of the authority, of its mint and program, and for the position's NFT. The accounts that
  -- are reported are these.
  pub build_operate_position-IsOperation :
      (for_wallet for_pda : SdkResult) (operate : Instruction) (prefix : Bytes)
      (arguments : codec.Args)
      → IsInverse codec
      → get_operate_dex_ix (dex_request a a.authority none none) ≡ ok for_wallet
      → get_operate_dex_ix (dex_request a authority_of (some authority_of) (some authority_of))
        ≡ ok for_pda
      → last? for_pda.ixs ≡ some operate
      → length prefix ≡ 8
      → operate.data' ≡ prefix ++ codec.serialize arguments
      → (b : OperateBuild) × (build_operate_position find_pda program_id ata get_account
            get_operate_dex_ix codec a
          ≡ ok b)
        × IsOperation program_id a.authority authority_of own_metas
            (existing_of for_pda)
            (drop_last for_wallet.ixs)
            operate
            b
  unfolding build_operate_position
  build_operate_position-IsOperation for_wallet for_pda operate prefix arguments inv w p l n d = (
    built for_wallet for_pda operate arguments,
    rw (w, p, l, read) refl,
    built-IsOperation for_wallet for_pda operate arguments behind,
  )
    where
      behind : drop 8 operate.data' ≡ codec.serialize arguments
      behind = rw d (
          subst (λ k. drop k (prefix ++ codec.serialize arguments) ≡ codec.serialize arguments) n
            (drop-append prefix (codec.serialize arguments)))

      read : codec.deserialize (zeros 8 ++ drop 8 operate.data') ≡ some arguments
      read = rw behind (inv.inverse (zeros 8) arguments refl)
