-- ===== src/Operate/Calls.antt =====
-- lib/client/jupiterOperate.ts, buildOperatePosition: the two calls of Jupiter's SDK, and the
-- instructions that are made of its answers. The SDK, the node, the derivations of addresses and the
-- serializer of the arguments are parameters.
use lendmirror.Common.{ℕ, Bool, false, Option, none, some, List, [], ◌∷◌, ◌++◌, map, drop}
use lendmirror.Common.Text.{codes}
use lendmirror.Common.Outcome.{Result, ok, err, ◌>>=◌, require}
use lendmirror.Bytes.{Bytes, zeros}
use lendmirror.Pda.{Key, FindPda}
use lendmirror.Pda.Lendmirror.{oapp, wrapper, wrapper_authority}
use lendmirror.Ix.{AccountMeta, Instruction}
use lendmirror.Known.{token_program}
use lendmirror.Client.{ondemand_if_attached}
use lendmirror.Instructions.{
  ResolvedAccount, read_only, read_write, address, signer, optional, account_metas, account_signers,
}
use lendmirror.Tasks.{DexLeg}
use lendmirror.Operate.{SdkLeg, SdkAccounts, TokenAccount, sdk_leg, pda_token_accounts}

pub record DexRequest : Type 0 where
  pub vault_id : ℕ
  pub position_id : ℕ
  pub signer_key : Key
  pub position_owner : Option Key
  pub recipient : Option Key
  pub market : List ℕ
  pub include_ata_setup : Bool
  pub include_wrap_sol : Bool
  pub col : Option SdkLeg
  pub debt : Option SdkLeg

pub record SdkResult : Type 0 where
  pub accounts : SdkAccounts
  pub ixs : List Instruction
  pub lookup_tables : List Key

-- What the SDK throws: an error that may carry the details of a simulation.
pub record SdkFailure : Type 0 where
  pub message : List ℕ
  pub simulation : Option (List ℕ)

pub data OperateError : Type 0 where
  sdk_threw : SdkFailure → OperateError
  -- `Jupiter SDK simulation failed (signer = …): …`
  simulation_failed : (label details : List ℕ) → OperateError
  -- the SDK's list of instructions is empty
  no_operate : OperateError
  -- what `deserialize` throws
  bad_arguments : OperateError

abbrev pub with_details : List ℕ → SdkFailure → Option (List ℕ) → OperateError
with_details label e none = sdk_threw e
with_details label e (some details) = simulation_failed label details

abbrev pub with_simulation_details {ℓ} :
    {A : Type ℓ} → List ℕ → Result SdkFailure A → Result OperateError A
with_simulation_details label (ok a) = ok a
with_simulation_details label (err e) = err (with_details label e e.simulation)

-- `slice(0, -1)`
abbrev pub drop_last {ℓ} : {A : Type ℓ} → List A → List A
drop_last [] = []
drop_last (x ∷ []) = []
drop_last (x ∷ y ∷ ys) = x ∷ drop_last (y ∷ ys)

-- `ixs[ixs.length - 1]`
abbrev pub last? {ℓ} : {A : Type ℓ} → List A → Option A
last? [] = none
last? (x ∷ []) = some x
last? (x ∷ y ∷ ys) = last? (y ∷ ys)

-- An instruction that the wallet signs: one of Jupiter's, or
-- `createAssociatedTokenAccountIdempotentInstruction`.
pub data SetupIx : Type 0 where
  jupiter : Instruction → SetupIx
  create_token_account : (payer account owner mint program : Key) → SetupIx

-- The generated serializer of the four arguments, which reads any 8 bytes as the discriminator.
pub record OperateSerializer : Type 1 where
  pub Args : Type 0
  pub serialize : Args → Bytes
  pub deserialize : Bytes → Option Args

pub record OperateInput : Type 0 where
  pub authority : Key
  pub store : Key
  pub wrapper_key : Key
  pub ondemand : Option Key
  pub authority_pda : Key
  pub vaults_program : Key

unfoldable pub operate_accounts : OperateInput → List ResolvedAccount
operate_accounts i =
    read_write (signer i.authority)
    ∷ read_only (address i.store)
    ∷ read_only (address i.wrapper_key)
    ∷ read_only (optional i.ondemand)
    ∷ read_write (address i.authority_pda)
    ∷ read_only (address i.vaults_program)
    ∷ []

abbrev pub operate_discriminator : Bytes
operate_discriminator = 130 ∷ 148 ∷ 215 ∷ 15 ∷ 4 ∷ 176 ∷ 195 ∷ 175 ∷ []

-- `operatePosition`, with the arguments serialized, and `addRemainingAccounts`.
unfoldable pub operate_position :
    Key → OperateInput → (arguments : Bytes) → (remaining : List AccountMeta) → Instruction
operate_position program i arguments remaining = record {
  program_id = program;
  keys = account_metas program (operate_accounts i) ++ remaining;
  data' = operate_discriminator ++ arguments;
}

-- Nothing but the authority signs for Jupiter.
abbrev pub unsigned : AccountMeta → AccountMeta
unsigned m = record { pubkey = m.pubkey; is_signer = false; is_writable = m.is_writable }

pub record LabelledAccount : Type 0 where
  pub label : List ℕ
  pub account : Key

pub record OperateBuild : Type 0 where
  pub setup_ixs : List SetupIx
  pub operate_ix : Instruction
  pub operate_signers : List Key
  pub lookup_tables : List Key
  pub authority_accounts : List LabelledAccount

pub record OperateArgs : Type 0 where
  pub authority : Key
  pub vault_id : ℕ
  pub nft_id : ℕ
  pub vaults_program : Key
  pub position_mint : Key
  pub col : Option DexLeg
  pub debt : Option DexLeg
  pub market : Option (List ℕ)

abbrev pub or_main : Option (List ℕ) → List ℕ
or_main none = codes "main"
or_main (some m) = m

unfoldable pub dex_request : OperateArgs → Key → (owner recipient : Option Key) → DexRequest
dex_request a by owner recipient = record {
  vault_id = a.vault_id;
  position_id = a.nft_id;
  signer_key = by;
  position_owner = owner;
  recipient = recipient;
  market = or_main a.market;
  include_ata_setup = false;
  include_wrap_sol = false;
  col = sdk_leg a.col;
  debt = sdk_leg a.debt;
}

abbrev pub create_for : (wallet pda : Key) → TokenAccount → SetupIx
create_for wallet pda t = create_token_account wallet t.address pda t.mint t.program

abbrev pub labelled : TokenAccount → LabelledAccount
labelled t = record { label = t.label; account = t.address }

module _ (find_pda : FindPda) (program_id : Key) (ata : Key → Key → Key → Key)
    (get_account : Key → Option Bytes)
    (get_operate_dex_ix : DexRequest → Result SdkFailure SdkResult)
    (codec : OperateSerializer) where
  unfoldable pub operate_input : OperateArgs → OperateInput
  operate_input a =
      let w = wrapper find_pda program_id a.vault_id a.nft_id in
      record {
        authority = a.authority;
        store = oapp find_pda program_id;
        wrapper_key = w;
        ondemand = ondemand_if_attached find_pda program_id get_account w;
        authority_pda = wrapper_authority find_pda program_id w;
        vaults_program = a.vaults_program;
      }

  -- The answers for the wallet and for the authority, Jupiter's own operate, and its arguments.
  unfoldable pub operate_build :
      OperateArgs → (for_wallet for_pda : SdkResult) → Instruction → codec.Args → OperateBuild
  operate_build a for_wallet for_pda operate arguments =
      let input = operate_input a in
      let token_accounts = pda_token_accounts for_pda.accounts in
      let nft_ata = ata input.authority_pda a.position_mint token_program in
      record {
        setup_ixs =
            map jupiter (drop_last for_wallet.ixs)
            ++ (map (create_for a.authority input.authority_pda) token_accounts
                ++ (create_token_account a.authority nft_ata input.authority_pda a.position_mint
                      token_program
                    ∷ []));
        operate_ix =
            operate_position program_id input (codec.serialize arguments)
              (map unsigned operate.keys);
        operate_signers = account_signers (operate_accounts input);
        lookup_tables = for_pda.lookup_tables;
        authority_accounts =
            map labelled token_accounts
            ++ (record { label = codes "position NFT"; account = nft_ata } ∷ []);
      }

  unfoldable pub build_operate_position : OperateArgs → Result OperateError OperateBuild
  build_operate_position a = do
    let pda =
        wrapper_authority find_pda program_id (wrapper find_pda program_id a.vault_id a.nft_id)
    for_wallet ←
        with_simulation_details (codes "wallet")
          (get_operate_dex_ix (dex_request a a.authority none none))
    for_pda ←
        with_simulation_details (codes "authority PDA")
          (get_operate_dex_ix (dex_request a pda (some pda) (some pda)))
    operate ← require (last? for_pda.ixs) no_operate
    arguments ← require (codec.deserialize (zeros 8 ++ drop 8 operate.data')) bad_arguments
    ok (operate_build a for_wallet for_pda operate arguments)
