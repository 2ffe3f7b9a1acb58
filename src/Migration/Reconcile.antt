-- ===== src/Migration/Reconcile.antt =====
-- internal/controller/vmmigration_controller.go: Reconcile, with the dispatch on the phase.
pub mod Graph
pub mod Retries
pub mod History
pub mod Limit
mod Tests
use virtrigaud.Prelude.{
  ℕ, ◌*◌, Bool, true, false, not, String, List, [], ◌∷◌, ◌++◌, Option, none, some, contains,
  if◌then◌else◌,
}
use virtrigaud.Migration.Types.{
  Migration, Phase, unset, pending, validating, snapshotting, exporting, transferring, converting,
  importing, creating, validating_target, ready, failed, unknown_phase, Outcome, done, requeue,
  requeue_after, error,
}
use virtrigaud.Migration.Guard.{Manager}
use virtrigaud.Migration.Failed.{Env, after_update, handle_failed_phase, permanently_failed}
use virtrigaud.Migration.Machines.{Effect, Effected}
use virtrigaud.Migration.PowerOff.{ValidatingEnv}
use virtrigaud.Migration.Validating.{handle_pending_phase, handle_validating_phase}
use virtrigaud.Migration.Snapshotting.{SnapshotEnv, handle_snapshotting_phase}
use virtrigaud.Migration.Exporting.{ExportEnv, Handled, second, handle_exporting_phase}
use virtrigaud.Migration.Importing.{
  ImportEnv, handle_transferring_phase, handle_converting_phase, handle_importing_phase,
}
use virtrigaud.Migration.Creating.{TargetEnv, handle_creating_phase, handle_validating_target_phase}
use virtrigaud.Migration.Cleanup.{CleanupEnv, handle_ready_phase}
use virtrigaud.Migration.Deletion.{DeletionEnv, handle_deletion, finalizer_name}

-- What a reconcile meets: the answers to its calls, phase by phase. `update` answers the update that
-- adds the finalizer.
pub record World : Type 0 where
  pub env : Env
  pub update : Option String
  pub validating_env : ValidatingEnv
  pub snapshot_env : SnapshotEnv
  pub export_env : ExportEnv
  pub import_env : ImportEnv
  pub target_env : TargetEnv
  pub cleanup_env : CleanupEnv
  pub deletion_env : DeletionEnv

-- What outlives a reconcile besides the migration: the manager process, the calls made so far, and
-- the number of snapshot deletions that failed migrations asked for.
pub record Process : Type 0 where
  pub manager : Manager
  pub effects : List Effect
  pub deletions : ℕ

abbrev pub Reconciled : Type 0
Reconciled = Outcome × Migration × Process

abbrev pub of_plain : Process → Outcome × Migration → Reconciled
of_plain p (o, m) = (o, m, p)

abbrev pub of_handled : Process → Handled → Reconciled
of_handled p (o, m, mgr) = (o, m, record p { manager = mgr })

abbrev pub of_effected : Process → Effected → Reconciled
of_effected p (o, m, effects) = (o, m, record p { effects = effects })

abbrev pub of_failed : Process → Outcome × Migration × ℕ → Reconciled
of_failed p (o, m, deletions) = (o, m, record p { deletions = deletions })

-- The dispatch, with the short circuit for a migration that has failed for good
unfoldable pub handle_phase : World → Phase → Migration → Process → Reconciled
handle_phase w pending m p = of_plain p (handle_pending_phase w.env m)
handle_phase w validating m p = of_effected p (handle_validating_phase w.validating_env m p.effects)
handle_phase w snapshotting m p =
    of_effected p (handle_snapshotting_phase w.snapshot_env m p.effects)
handle_phase w exporting m p = of_handled p (handle_exporting_phase w.export_env m p.manager)
handle_phase w transferring m p = of_plain p (handle_transferring_phase w.env m)
handle_phase w converting m p = of_plain p (handle_converting_phase w.env m)
handle_phase w importing m p = of_handled p (handle_importing_phase w.import_env m p.manager)
handle_phase w creating m p = of_effected p (handle_creating_phase w.target_env m p.effects)
handle_phase w validating_target m p =
    of_effected p (handle_validating_target_phase w.target_env m p.effects)
handle_phase w ready m p = of_effected p (handle_ready_phase w.cleanup_env m p.effects)
handle_phase w failed m p =
    if permanently_failed m
    then (done, m, p)
    else of_failed p (handle_failed_phase w.env m p.deletions)
handle_phase w (unknown_phase text) m p = (requeue_after (30 * second), m, p)
handle_phase w unset m p = (
  after_update w.env requeue,
  record m { status = record (m.status) { phase = pending; start_time = some w.env.now } },
  p,
)

-- controllerutil.AddFinalizer for a finalizer that is not there
abbrev pub add_finalizer : Migration → Migration
add_finalizer m = record m { finalizers = m.finalizers ++ (finalizer_name ∷ []) }

-- Reconcile of a migration that the API server has. The last phase of the dispatch, the unset one, is
-- initialised to Pending before the code dispatches.
unfoldable pub reconcile_migration : World → Migration → Process → Reconciled
unfolding handle_phase
reconcile_migration w m p = elim m.deletion_timestamp [
  | some at ↦ of_effected p (handle_deletion w.deletion_env m p.effects)
  | none ↦
      if not (contains m.finalizers finalizer_name)
      then ((elim w.update [ none ↦ requeue | some err ↦ error err ]), add_finalizer m, p)
      else handle_phase w m.status.phase m p
]
