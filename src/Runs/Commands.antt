-- ===== src/Runs/Commands.antt =====
-- The decisions of the command line tasks.
use lendmirror.Common.{ℕ, zero, suc, ◌≡◌, ◌≢◌, true, arith}
use lendmirror.Common.Text.{codes}
use lendmirror.Common.Outcome.{ok}
use lendmirror.Common.Keys.{eqb, eqb_iff}
use lendmirror.Config.Mainnet
use lendmirror.Tasks.{ResolvedMint, Attempt, sent, lagging, operate_with_retries, resolve_mint}
use lendmirror.Tasks.Mint.{IsFound, resolve_mint-IsFound}
use lendmirror.Tasks.Retry.{IsRetry, operate_with_retries-IsRetry}

abbrev second_time : ℕ → Attempt
second_time zero = lagging
second_time (suc zero) = lagging
second_time (suc (suc n)) = sent

operate_with_retries-IsRetry_example : IsRetry second_time (operate_with_retries second_time)
operate_with_retries-IsRetry_example = operate_with_retries-IsRetry second_time

not_usdc : codes "usdt" ≢ codes "usdc"
unfolding eqb
not_usdc = λ h.
    let same : eqb (codes "usdt") (codes "usdc") ≡ true =
      (eqb_iff (codes "usdt") (codes "usdc")).1 h in
    ground arith

resolve_mint-IsFound_example :
    (r : ResolvedMint) × (resolve_mint (λ k. k) Mainnet.profile (codes "usdt") ≡ ok r)
    × IsFound (λ k. k) (codes "usdt") Mainnet.profile.lz_tokens r
resolve_mint-IsFound_example = resolve_mint-IsFound (λ k. k) (codes "usdt") Mainnet.profile not_usdc
