-- ===== src/Tasks.antt =====
-- tasks/solana: the decisions that the command line tasks take before and around a transaction:
-- resolveMint of bridge.ts, and in custody.ts legFrom and the retries of operate.
pub mod Mint
pub mod Retry
use lendmirror.Common.{
  ℕ, zero, suc, ◌+◌, Bool, true, false, ◌&&◌, ◌||◌, Option, none, some, List, [], ◌∷◌, map, ◌==◌,
  if◌then◌else◌,
}
use lendmirror.Common.Int.{ℤ, pos, negsuc}
use lendmirror.Common.Keys.{eqb, contains}
use lendmirror.Common.Outcome.{Result, ok, err, ◌>>=◌, ◌>>◌, guard, require}
use lendmirror.Common.Text.{codes}
use lendmirror.Pda.{Key}
use lendmirror.Config.{LzTokenProfile, CctpProfile, DeploymentProfile}
use lendmirror.Deployment.{lower}

pub data TaskError : Type 0 where
  -- `No USDC mint in the profile; pass the mint itself.`
  no_usdc : TaskError
  -- `Amounts for the … need --…-action.`
  amounts_without_action : TaskError
  -- `… action must be …`
  unknown_action : TaskError
  -- what `BigInt` throws
  not_a_number : TaskError
  -- `… must be a positive amount`
  negative : TaskError

pub record ResolvedMint : Type 0 where
  pub mint : List ℕ
  pub lz_token : Option LzTokenProfile

abbrev pub lower_text : List ℕ → List ℕ
lower_text = map lower

-- `bySymbol ?? byMint`
abbrev pub or_else : Option LzTokenProfile → Option LzTokenProfile → Option LzTokenProfile
or_else none b = b
or_else (some t) b = some t

-- `text_of` is the base58 text of a key.
module _ (text_of : Key → List ℕ) where
  unfoldable pub find_by_symbol : List ℕ → List LzTokenProfile → Option LzTokenProfile
  find_by_symbol raw [] = none
  find_by_symbol raw (t ∷ ts) =
      let rest = find_by_symbol raw ts in
      if eqb (lower_text t.symbol) (lower_text raw) then some t else rest

  unfoldable pub find_by_mint : List ℕ → List LzTokenProfile → Option LzTokenProfile
  find_by_mint raw [] = none
  find_by_mint raw (t ∷ ts) =
      let rest = find_by_mint raw ts in if eqb (text_of t.mint) raw then some t else rest

  unfoldable pub find_token : List ℕ → List LzTokenProfile → Option LzTokenProfile
  find_token raw ts = or_else (find_by_symbol raw ts) (find_by_mint raw ts)

  unfoldable pub resolved : List ℕ → Option LzTokenProfile → ResolvedMint
  resolved raw none = record { mint = raw; lz_token = none }
  resolved raw (some t) = record { mint = text_of t.mint; lz_token = some t }

  unfoldable pub resolve_mint : DeploymentProfile → List ℕ → Result TaskError ResolvedMint
  resolve_mint profile raw =
      if eqb raw (codes "usdc")
      then (require profile.cctp no_usdc >>= λ cctp.
          ok (record { mint = text_of cctp.usdc_mint; lz_token = none }))
      else ok (resolved raw (find_token raw profile.lz_tokens))

-- How one attempt to send the operate instruction ends: an error that shows a lagging node can be
-- tried again.
pub data Attempt : Type 0 where
  sent lagging failed : Attempt

-- What an attempt leads to: the end, or, before the third, what the later attempts give.
abbrev pub after_attempt : Attempt → ℕ → Result ℕ ℕ → Result ℕ ℕ
after_attempt sent attempt again = ok attempt
after_attempt failed attempt again = err attempt
after_attempt lagging attempt again = if attempt == 3 then err attempt else again

-- The loop from an attempt on: the number of the attempt that was sent, or that threw.
unfoldable pub operate_from : (ℕ → Attempt) → ℕ → ℕ → Result ℕ ℕ
operate_from outcome zero attempt = err attempt
operate_from outcome (suc fuel) attempt =
    after_attempt (outcome attempt) attempt (operate_from outcome fuel (suc attempt))

-- The loop of three attempts at most, so that fuel for three is enough.
unfoldable pub operate_with_retries : (ℕ → Attempt) → Result ℕ ℕ
operate_with_retries outcome = operate_from outcome 3 1

-- One side of an operate call.
pub record DexLeg : Type 0 where
  pub action : List ℕ
  pub token0 : Option ℕ
  pub token1 : Option ℕ
  pub amount : Option ℕ
  pub shares : Option ℕ

-- `big_int` reads a text as a number, or throws.
module _ (big_int : List ℕ → Option ℤ) where
  unfoldable pub natural : ℤ → Result TaskError (Option ℕ)
  natural (pos n) = ok (some n)
  natural (negsuc n) = err negative

  unfoldable pub parse_amount : List ℕ → Result TaskError (Option ℕ)
  parse_amount [] = ok none
  parse_amount (c ∷ cs) = do n ← require (big_int (c ∷ cs)) not_a_number; natural n

  unfoldable pub leg_from :
      (actions : List (List ℕ))
      → (action token0 token1 amount shares : List ℕ) → Result TaskError (Option DexLeg)
  leg_from actions [] token0 token1 amount shares = do
    guard (eqb token0 [] && (eqb token1 [] && (eqb amount [] && eqb shares [])))
        amounts_without_action
    ok none
  leg_from actions (a ∷ more) token0 token1 amount shares = do
    guard (contains (a ∷ more) actions) unknown_action
    n0 ← parse_amount token0
    n1 ← parse_amount token1
    n2 ← parse_amount amount
    n3 ← parse_amount shares
    ok (some (record { action = a ∷ more; token0 = n0; token1 = n1; amount = n2; shares = n3 }))
