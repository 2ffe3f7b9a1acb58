-- ===== src/Migration/Failed/Laws.antt =====
-- The retries of a failed migration in vmmigration_controller.go.
use virtrigaud.Prelude.{ℕ, ◌+◌, ◌≤◌, ◌<◌, ◌≡◌, ◌⊎◌, inl, inr, none, some, arith, Option-cases}
use virtrigaud.Migration.Types.{
  Migration, RetryPolicy, failed, pending, Outcome, requeue, requeue_after,
}
use virtrigaud.Migration.Failed.{
  Env, after_update, retry_policy, max_retries_of, retry_delay, remaining_wait, handle_failed_phase,
  reconcile,
}

abbrev pub Handler : Type 0
Handler = Env → Migration → ℕ → Outcome × Migration × ℕ

-- Reconcile never asks for the deletion of the source snapshot of a migration in the phase Failed,
-- neither while it is retried nor when it is given up, whatever its cleanup policy is.
pub failed_never_cleans_up :
    (handle : Handler) (env : Env) (m : Migration) (deletions : ℕ)
    → m.status.phase ≡ failed
    → (reconcile handle env m deletions).2 ≡ deletions
unfolding reconcile
failed_never_cleans_up handle env m deletions h = ground arith

-- Reconcile of a failed migration that has retries left, by what remains of the wait
pub waits_or_retries :
    (handle : Handler) (env : Env) (m : Migration) (p : RetryPolicy) (deletions : ℕ)
    → m.status.phase ≡ failed
    → retry_policy m ≡ some p
    → m.status.retry_count < max_retries_of p
    → ((wait : ℕ) × (remaining_wait env.now
            (retry_delay p m.status.retry_count)
            m.status.last_retry_time
          ≡ some wait)
        × (reconcile handle env m deletions ≡ (requeue_after wait, m, deletions)))
      ⊎ ((remaining_wait env.now (retry_delay p m.status.retry_count) m.status.last_retry_time
            ≡ none)
          × (let m' = (reconcile handle env m deletions).1 in
              ((reconcile handle env m deletions).0 ≡ after_update env requeue)
              × (m'.status.phase ≡ pending)
              × (m'.status.retry_count ≡ m.status.retry_count + 1)
              × (m'.status.last_retry_time ≡ some env.now)
              × (m'.status.task_ref ≡ "")
              × (m'.status.export_id ≡ m.status.export_id)
              × (m'.spec ≡ m.spec)))
unfolding reconcile
waits_or_retries handle env m p deletions f e h =
    elim (Option-cases
      (remaining_wait env.now (retry_delay p m.status.retry_count) m.status.last_retry_time)) [
        | inl w ↦ inr (
          w,
          (
            ground arith,
            ground arith,
            ground arith,
            ground arith,
            ground arith,
            ground arith,
            ground arith,
          ),
        )
        | inr (wait, w) ↦ inl (wait, w, ground arith)
      ]

-- A failed migration that comes back to Pending keeps its export's ID and has no task.
pub retried_keeps_export :
    (handle : Handler) (env : Env) (m : Migration) (deletions : ℕ)
    → m.status.phase ≡ failed
    → (reconcile handle env m deletions).1.status.phase ≡ pending
    → ((reconcile handle env m deletions).1.status.export_id ≡ m.status.export_id)
      × ((reconcile handle env m deletions).1.status.task_ref ≡ "")
unfolding reconcile
retried_keeps_export handle env m deletions f p = ground arith

-- And its import's ID.
pub retried_keeps_import :
    (handle : Handler) (env : Env) (m : Migration) (deletions : ℕ)
    → m.status.phase ≡ failed
    → (reconcile handle env m deletions).1.status.phase ≡ pending
    → ((reconcile handle env m deletions).1.status.import_id ≡ m.status.import_id)
      × ((reconcile handle env m deletions).1.status.task_ref ≡ "")
unfolding reconcile
retried_keeps_import handle env m deletions f p = ground arith

-- No retry is counted beyond the policy's limit.
abbrev pub Bounded : Migration → Type 0
Bounded m = (p : RetryPolicy) → retry_policy m ≡ some p → m.status.retry_count ≤ max_retries_of p

pub handle_failed-Bounded :
    (env : Env) (m : Migration) (deletions : ℕ)
    → Bounded m
    → Bounded (handle_failed_phase env m deletions).1
unfolding handle_failed_phase
handle_failed-Bounded env m deletions b p e = ground (arith, b p)
