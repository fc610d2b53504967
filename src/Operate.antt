-- ===== src/Operate.antt =====
-- lib/client/jupiterOperate.ts: the operation on a smart vault's position, through the SDK of Jupiter
-- Lend and our `operate_position` (generated/lendmirror/instructions/operatePosition.ts).
pub mod Tokens
pub mod Calls
pub mod Build
use lendmirror.Common.{
  ℕ, Bool, true, false, ◌||◌, Option, none, some, List, [], ◌∷◌, ◌++◌, map, if◌then◌else◌,
}
use lendmirror.Common.Keys.{eqb, contains}
use lendmirror.Common.Text.{codes}
use lendmirror.Pda.{Key}
use lendmirror.Tasks.{DexLeg}

-- The SDK's input for one side.
pub record SdkSide : Type 0 where
  pub amount : Option ℕ
  pub token0 : Option ℕ
  pub token1 : Option ℕ
  pub min_shares : Option ℕ
  pub max_shares : Option ℕ

pub record SdkLeg : Type 0 where
  pub action : List ℕ
  pub input : SdkSide

-- The share bound goes where the SDK expects it.
unfoldable pub side_of : Bool → DexLeg → SdkSide
side_of positive leg = record {
  amount = leg.amount;
  token0 = leg.token0;
  token1 = leg.token1;
  min_shares = if positive then leg.shares else none;
  max_shares = if positive then none else leg.shares;
}

unfoldable pub sdk_leg : Option DexLeg → Option SdkLeg
sdk_leg none = none
sdk_leg (some leg) = some (record {
  action = leg.action;
  input = side_of (eqb leg.action (codes "supply") || eqb leg.action (codes "borrow")) leg;
})

-- The accounts that the SDK names, of which any may be null.
pub record DexAccounts : Type 0 where
  pub dex_user_token0_account : Option Key
  pub dex_user_token1_account : Option Key
  pub dex_recipient_token0_account : Option Key
  pub dex_recipient_token1_account : Option Key
  pub dex_token0 : Option Key
  pub dex_token1 : Option Key
  pub dex_token0_program : Option Key
  pub dex_token1_program : Option Key

pub record SdkAccounts : Type 0 where
  pub signer_supply_token_account : Option Key
  pub signer_borrow_token_account : Option Key
  pub recipient_supply_token_account : Option Key
  pub recipient_borrow_token_account : Option Key
  pub supply_token : Option Key
  pub supply_token_program : Option Key
  pub borrow_token : Option Key
  pub borrow_token_program : Option Key
  pub supply_dex : DexAccounts
  pub borrow_dex : DexAccounts

pub record Candidate : Type 0 where
  pub label : List ℕ
  pub address : Option Key
  pub mint : Option Key
  pub program : Option Key

pub record TokenAccount : Type 0 where
  pub label : List ℕ
  pub address : Key
  pub mint : Key
  pub program : Key

abbrev pub candidate : List ℕ → (address mint program : Option Key) → Candidate
candidate l a m p = record { label = l; address = a; mint = m; program = p }

unfoldable pub pool_candidates : List ℕ → DexAccounts → List Candidate
pool_candidates group dex =
    candidate (group ++ codes " token0") dex.dex_user_token0_account dex.dex_token0
      dex.dex_token0_program
    ∷ candidate (group ++ codes " token1") dex.dex_user_token1_account dex.dex_token1
        dex.dex_token1_program
    ∷ candidate (group ++ codes " token0 (recipient)") dex.dex_recipient_token0_account
        dex.dex_token0 dex.dex_token0_program
    ∷ candidate (group ++ codes " token1 (recipient)") dex.dex_recipient_token1_account
        dex.dex_token1 dex.dex_token1_program
    ∷ []

unfoldable pub token_candidates : SdkAccounts → List Candidate
unfolding pool_candidates
token_candidates a =
    candidate (codes "supply token") a.signer_supply_token_account a.supply_token
      a.supply_token_program
    ∷ candidate (codes "borrow token") a.signer_borrow_token_account a.borrow_token
        a.borrow_token_program
    ∷ candidate (codes "supply token (recipient)") a.recipient_supply_token_account a.supply_token
        a.supply_token_program
    ∷ candidate (codes "borrow token (recipient)") a.recipient_borrow_token_account a.borrow_token
        a.borrow_token_program
    ∷ (pool_candidates (codes "collateral pool") a.supply_dex
        ++ pool_candidates (codes "debt pool") a.borrow_dex)

-- `!address || !mint || !program`
abbrev pub complete_of : List ℕ → Option Key → Option Key → Option Key → Option TokenAccount
complete_of l (some a) (some m) (some p) =
    some (record { label = l; address = a; mint = m; program = p })
complete_of l (some a) (some m) none = none
complete_of l (some a) none p = none
complete_of l none m p = none

abbrev pub complete : Candidate → Option TokenAccount
complete c = complete_of c.label c.address c.mint c.program

-- What one turn of the loop adds, before what the later turns give.
unfoldable pub add_fresh :
    List Key → Option TokenAccount → (List Key → List TokenAccount) → List TokenAccount
add_fresh seen none later = later seen
add_fresh seen (some t) later =
    if contains t.address seen then later seen else t ∷ later (t.address ∷ seen)

unfoldable pub fresh_accounts : List Candidate → List Key → List TokenAccount
fresh_accounts [] seen = []
fresh_accounts (c ∷ cs) seen = add_fresh seen (complete c) (fresh_accounts cs)

unfoldable pub pda_token_accounts : SdkAccounts → List TokenAccount
pda_token_accounts a = fresh_accounts (token_candidates a) []
