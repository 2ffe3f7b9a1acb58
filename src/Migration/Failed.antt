-- ===== src/Migration/Failed.antt =====
-- internal/controller/vmmigration_controller.go: transitionToFailed, handleFailedPhase with its
-- backoff, and what Reconcile does before it dispatches on the phase. Each handler takes the answers of
-- the API server and of the provider as arguments and returns its outcome and the migration as it is
-- in memory, which is what the API server stores when the status write succeeds; the number of source
-- snapshots that the controller asked to delete is carried along. Times are int64 nanoseconds since
-- 1970, so that their differences do not saturate as those of `time.Sub` can.
pub mod Backoff
pub mod Laws
pub mod Waiting
mod Tests
use virtrigaud.Prelude.{
  ℕ, zero, suc, ◌+◌, ◌*◌, ◌-◌, ◌%◌, Bool, true, false, ◌&&◌, ◌||◌, not, String, List, [], ◌∷◌,
  Option, none, some, str_eq, ltb, leb, sprintf, decimal, if◌then◌else◌,
}
use virtrigaud.Prelude.Word.{int64_mod, mul64, lt64}
use virtrigaud.K8s.Conditions.{condition_true, condition_false, set_condition}
use virtrigaud.Migration.Types.{
  Migration, Options, RetryPolicy, Spec, Status, Phase, unset, pending, validating, snapshotting,
  exporting, transferring, converting, importing, creating, validating_target, ready, failed,
  unknown_phase, Outcome, done, requeue, requeue_after, error, Answer, returned, refused,
}

abbrev pub minute : ℕ
minute = 60_000_000_000

-- Whether a handler's status write succeeds, and the clock at that time.
pub record Env : Type 0 where
  pub now : ℕ
  pub update_status : Option String

-- `if err := r.updateStatus(...); err != nil { return ctrl.Result{}, err }; return outcome`
abbrev pub after_update : Env → Outcome → Outcome
after_update env outcome = elim env.update_status [ none ↦ outcome | some err ↦ error err ]

-- transitionToFailed
unfoldable pub transition_to_failed : Env → String → Migration → Outcome × Migration
transition_to_failed env message m = (
  after_update env requeue,
  record m {
    status = record (m.status) {
      phase = failed;
      message = message;
      completion_time = some env.now;
      conditions = set_condition env.now "Ready" condition_false "MigrationFailed" message (
          set_condition env.now "Failed" condition_true "MigrationFailed" message
            m.status.conditions);
    };
  },
)

abbrev pub retry_policy : Migration → Option RetryPolicy
retry_policy m = elim m.spec.options [ none ↦ none | some o ↦ o.retry_policy ]

abbrev pub or_default : ℕ → Option ℕ → ℕ
or_default d none = d
or_default d (some n) = n

abbrev pub max_retries_of : RetryPolicy → ℕ
max_retries_of p = or_default 3 p.max_retries

-- The loop of the backoff: multiplied once for each retry so far.
unfoldable pub scale : ℕ → ℕ → ℕ → ℕ
scale multiplier zero delay = delay
scale multiplier (suc n) delay = scale multiplier n (mul64 delay multiplier)

-- The delay before the next retry, capped at 30 minutes
unfoldable pub retry_delay : RetryPolicy → ℕ → ℕ
unfolding scale
retry_delay p retry_count =
    let delay =
      scale (or_default 2 p.backoff_multiplier) retry_count
        (or_default (5 * minute) p.retry_delay) in
    if lt64 (30 * minute) delay then 30 * minute else delay

-- A difference of times or durations
abbrev pub sub64 : ℕ → ℕ → ℕ
sub64 a b = (a + int64_mod - b) % int64_mod

-- The time that is left of the delay, if it has not passed since the last retry.
unfoldable pub remaining_wait : ℕ → ℕ → Option ℕ → Option ℕ
remaining_wait now delay none = none
remaining_wait now delay (some last) =
    if lt64 (sub64 now last) delay then some (sub64 delay (sub64 now last)) else none

retrying_message : ℕ → ℕ → String
retrying_message attempt max_retries =
    sprintf
      ("Retrying migration (attempt " ∷ decimal attempt ∷ "/" ∷ decimal max_retries ∷ ")" ∷ [])

-- The end of handleFailedPhase: back to Pending.
perform_retry : Env → ℕ → Migration → Outcome × Migration
unfolding retrying_message
perform_retry env max_retries m =
    let message = retrying_message (m.status.retry_count + 1) max_retries in
    (
      after_update env requeue,
      record m {
        status = record (m.status) {
          retry_count = m.status.retry_count + 1;
          last_retry_time = some env.now;
          phase = pending;
          message = message;
          task_ref = "";
          conditions =
              set_condition env.now "Failed" condition_false "Retrying" message m.status.conditions;
        };
      },
    )

-- cleanupAllowed
unfoldable pub cleanup_allowed : Migration → Bool
cleanup_allowed m = elim m.spec.options [
  | none ↦ true
  | some o ↦ not (str_eq o.cleanup_policy "Never")
]

abbrev is_none : Option String → Bool
is_none none = true
is_none (some s) = false

-- cleanupSnapshotOnTerminalFailure, as the number of deletions asked for so far; it swallows the
-- outcome of deleteSourceSnapshot.
cleanup_snapshot : Migration → ℕ → ℕ
unfolding cleanup_allowed
cleanup_snapshot m deletions =
    if not (cleanup_allowed m)
      || str_eq m.status.snapshot_id ""
      || not (is_none m.spec.source.snapshot_ref)
    then deletions
    else deletions + 1

failed_with_policy : Env → RetryPolicy → Migration → ℕ → Outcome × Migration × ℕ
unfolding cleanup_snapshot remaining_wait perform_retry
failed_with_policy env p m deletions =
    if leb (max_retries_of p) m.status.retry_count
    then (
      after_update env done,
      record m {
        status = record (m.status) {
          message = sprintf (
              "Migration failed after "
              ∷ decimal m.status.retry_count
              ∷ " retries: "
              ∷ m.status.message
              ∷ []);
        };
      },
      cleanup_snapshot m deletions,
    )
    else elim (remaining_wait env.now (retry_delay p m.status.retry_count)
        m.status.last_retry_time) [
          | some wait ↦ (requeue_after wait, m, deletions)
          | none ↦ let (o, m') = perform_retry env (max_retries_of p) m in (o, m', deletions)
        ]

-- handleFailedPhase
unfoldable pub handle_failed_phase : Env → Migration → ℕ → Outcome × Migration × ℕ
unfolding failed_with_policy cleanup_snapshot
handle_failed_phase env m deletions = elim (retry_policy m) [
  | none ↦ (done, m, cleanup_snapshot m deletions)
  | some p ↦ failed_with_policy env p m deletions
]

-- The short circuit of Reconcile for a migration in the phase Failed.
unfoldable pub permanently_failed : Migration → Bool
permanently_failed m = elim (retry_policy m) [
  | none ↦ true
  | some p ↦ leb (max_retries_of p) m.status.retry_count
]

abbrev is_failed : Phase → Bool
is_failed failed = true
is_failed _ = false

-- Reconcile of a migration that is not being deleted, has its finalizer and has a phase. `handle`
-- stands for the handlers of the phases other than Failed.
unfoldable pub reconcile :
    (Env → Migration → ℕ → Outcome × Migration × ℕ) → Env → Migration → ℕ → Outcome × Migration × ℕ
unfolding permanently_failed handle_failed_phase
reconcile handle env m deletions =
    if is_failed m.status.phase
    then (if permanently_failed m
        then (done, m, deletions)
        else handle_failed_phase env m deletions)
    else handle env m deletions
