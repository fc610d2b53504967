-- ===== src/Runs/Operations.antt =====
-- Operations on a position through Jupiter's SDK.
use lendmirror.Common.{◌≡◌, refl, none, some, [], ◌∷◌, ◌++◌, drop, ap, drop-append}
use mathlib.Core.Path.{subst}
use lendmirror.Common.Text.{codes}
use lendmirror.Common.Keys.{Distinct}
use lendmirror.Common.Outcome.{ok}
use lendmirror.Bytes.{Bytes, zeros}
use lendmirror.Pda.{Key}
use lendmirror.Ix.{Instruction, writable, signer_meta}
use lendmirror.Tasks.{DexLeg}
use lendmirror.Operate.{DexAccounts, SdkAccounts, pda_token_accounts, token_candidates}
use lendmirror.Operate.Tokens.{addresses, first_listed, first_candidate, pda_token_accounts_lem}
use lendmirror.Operate.Calls.{
  SdkResult, OperateSerializer, OperateArgs, OperateBuild, drop_last, build_operate_position,
}
use lendmirror.Operate.Build.{
  IsInverse, IsOperation, authority_of, own_metas, existing_of, build_operate_position-IsOperation,
}
use lendmirror.Runs.{key_of, toy_find_pda, toy_ata}

-- The pool and the debt share one account.
abbrev pub no_pool : DexAccounts
no_pool = record {
  dex_user_token0_account = none;
  dex_user_token1_account = none;
  dex_recipient_token0_account = none;
  dex_recipient_token1_account = none;
  dex_token0 = none;
  dex_token1 = none;
  dex_token0_program = none;
  dex_token1_program = none;
}

abbrev pub sdk_accounts : SdkAccounts
sdk_accounts = record {
  signer_supply_token_account = some (key_of 20);
  signer_borrow_token_account = some (key_of 21);
  recipient_supply_token_account = some (key_of 20);
  recipient_borrow_token_account = none;
  supply_token = some (key_of 30);
  supply_token_program = some (key_of 31);
  borrow_token = some (key_of 32);
  borrow_token_program = some (key_of 31);
  supply_dex = record no_pool {
    dex_user_token0_account = some (key_of 21);
    dex_token0 = some (key_of 32);
    dex_token0_program = some (key_of 31);
  };
  borrow_dex = no_pool;
}

pda_token_accounts_lem_example :
    Distinct (addresses (pda_token_accounts sdk_accounts))
    × ((k : Key)
        → first_listed k (pda_token_accounts sdk_accounts)
          ≡ first_candidate k (token_candidates sdk_accounts))
pda_token_accounts_lem_example = pda_token_accounts_lem sdk_accounts

-- The arguments as their own bytes.
abbrev plain_codec : OperateSerializer
plain_codec = record { Args = Bytes; serialize = λ b. b; deserialize = λ b. some (drop 8 b) }

abbrev jupiter_operate : Instruction
jupiter_operate = record {
  program_id = key_of 40;
  keys = signer_meta (key_of 41) ∷ writable (key_of 42) ∷ [];
  data' = zeros 8 ++ (1 ∷ 2 ∷ 3 ∷ []);
}

abbrev jupiter_result : SdkResult
jupiter_result = record {
  accounts = sdk_accounts;
  ixs = record { program_id = key_of 40; keys = []; data' = [] } ∷ jupiter_operate ∷ [];
  lookup_tables = [];
}

abbrev payback : DexLeg
payback = record {
  action = codes "payback";
  token0 = none;
  token1 = none;
  amount = some 5;
  shares = some 7;
}

abbrev operate_args : OperateArgs
operate_args = record {
  authority = key_of 50;
  vault_id = 1;
  nft_id = 2;
  vaults_program = key_of 51;
  position_mint = key_of 52;
  col = none;
  debt = some payback;
  market = none;
}

plain_inverse : IsInverse plain_codec
plain_inverse = record {
  inverse = λ prefix a n. ap some (subst (λ k. drop k (prefix ++ a) ≡ a) n (drop-append prefix a));
}

build_operate_position-IsOperation_example :
    (b : OperateBuild) × (build_operate_position toy_find_pda
        (key_of 1)
        toy_ata
        (λ k. none)
        (λ r. ok jupiter_result)
        plain_codec
        operate_args
      ≡ ok b)
    × IsOperation
        (key_of 1)
        (key_of 50)
        (authority_of toy_find_pda
          (key_of 1)
          toy_ata
          (λ k. none)
          (λ r. ok jupiter_result)
          plain_codec
          operate_args)
        (own_metas toy_find_pda
          (key_of 1)
          toy_ata
          (λ k. none)
          (λ r. ok jupiter_result)
          plain_codec
          operate_args)
        (existing_of toy_find_pda
          (key_of 1)
          toy_ata
          (λ k. none)
          (λ r. ok jupiter_result)
          plain_codec
          operate_args
          jupiter_result)
        (drop_last jupiter_result.ixs)
        jupiter_operate
        b
build_operate_position-IsOperation_example =
    build_operate_position-IsOperation toy_find_pda (key_of 1) toy_ata (λ k. none)
      (λ r. ok jupiter_result) plain_codec operate_args jupiter_result jupiter_result
      jupiter_operate (zeros 8) (1 ∷ 2 ∷ 3 ∷ []) plain_inverse refl refl refl refl refl
