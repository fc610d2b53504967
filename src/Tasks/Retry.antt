-- ===== src/Tasks/Retry.antt =====
-- The retries of operate.
use lendmirror.Common.{ℕ, ◌≡◌, refl, ◌⊎◌, inl, inr}
use lendmirror.Common.Outcome.{Result, ok, err}
use lendmirror.Tasks.{Attempt, sent, lagging, failed, operate_from, operate_with_retries}

-- How the loop can end: at the first attempt that does not fail by a lagging node, or at the third.
pub data IsRetry (outcome : ℕ → Attempt) (r : Result ℕ ℕ) : Type 0 where
  first_sent : outcome 1 ≡ sent → r ≡ ok 1 → IsRetry outcome r
  first_failed : outcome 1 ≡ failed → r ≡ err 1 → IsRetry outcome r
  second_sent : outcome 1 ≡ lagging → outcome 2 ≡ sent → r ≡ ok 2 → IsRetry outcome r
  second_failed : outcome 1 ≡ lagging → outcome 2 ≡ failed → r ≡ err 2 → IsRetry outcome r
  third_sent :
      outcome 1 ≡ lagging → outcome 2 ≡ lagging → outcome 3 ≡ sent → r ≡ ok 3 → IsRetry outcome r
  third_thrown :
      outcome 1 ≡ lagging
      → outcome 2 ≡ lagging
      → (outcome 3 ≡ failed) ⊎ (outcome 3 ≡ lagging)
      → r ≡ err 3
      → IsRetry outcome r

Attempt-cases : (a : Attempt) → (a ≡ sent) ⊎ ((a ≡ failed) ⊎ (a ≡ lagging))
Attempt-cases sent = inl refl
Attempt-cases failed = inr (inl refl)
Attempt-cases lagging = inr (inr refl)

-- Whatever the attempts do, operate is sent at the first attempt that succeeds if only lagging nodes
-- came before it, an error of another kind is thrown at once, and after a third lagging answer the
-- loop gives up.
pub operate_with_retries-IsRetry :
    (outcome : ℕ → Attempt) → IsRetry outcome (operate_with_retries outcome)
unfolding operate_with_retries operate_from
operate_with_retries-IsRetry outcome = elim (Attempt-cases (outcome 1)) [
  | inl s ↦ first_sent s (rw s refl)
  | inr (inl f) ↦ first_failed f (rw f refl)
  | inr (inr l) ↦ elim (Attempt-cases (outcome 2)) [
    | inl s ↦ second_sent l s (rw (l, s) refl)
    | inr (inl f) ↦ second_failed l f (rw (l, f) refl)
    | inr (inr m) ↦ elim (Attempt-cases (outcome 3)) [
      | inl s ↦ third_sent l m s (rw (l, m, s) refl)
      | inr (inl f) ↦ third_thrown l m (inl f) (rw (l, m, f) refl)
      | inr (inr k) ↦ third_thrown l m (inr k) (rw (l, m, k) refl)
    ]
  ]
]
