-- ===== src/Migration/Reconcile/Graph.antt =====
-- The phases of a migration in vmmigration_controller.go and how each reconcile moves between them.
use virtrigaud.Prelude.{
  true, none, contains, ◌≡◌, refl, String, List, arith, inl, inr, ◌∙◌, Option-cases, ℕ,
}
use virtrigaud.Migration.Phases.{Moves}
use virtrigaud.Migration.Importing.Phases.{importing-Moves}
use virtrigaud.Migration.Reconcile.{World, Process, handle_phase, reconcile_migration}
use virtrigaud.Migration.Cleanup.Order.{ready_phase}
use virtrigaud.Migration.Deletion.Laws.{deletion_phase}
use virtrigaud.Migration.Types.{
  Migration, Phase, unset, pending, validating, snapshotting, exporting, transferring, converting,
  importing, creating, validating_target, ready, failed, unknown_phase, Answer-cases, Provider,
}
use virtrigaud.Migration.Guard.{Manager}
use virtrigaud.Migration.Failed.Laws.{Handler}
use virtrigaud.Migration.Deletion.{finalizer_name}
use virtrigaud.Migration.Reconcile.{of_failed}
use virtrigaud.Migration.Failed.{reconcile, Env, transition_to_failed, handle_failed_phase}
use virtrigaud.Migration.Machines.{Effect, VirtualMachine, provider_key}
use virtrigaud.Migration.PowerOff.{ValidatingEnv}
use virtrigaud.Migration.Validating.{
  power_and_finish, finish_validation, wait_validating, await_mount, prepare_pvc, prepare_backend,
  validate_storage, validate_providers, find_providers, handle_validating_phase,
  handle_pending_phase, source_provider_ref,
}
use virtrigaud.Migration.Validating.Laws.{ensure_keeps}
use virtrigaud.Migration.Snapshotting.{
  SnapshotEnv, handle_snapshotting_phase, reach_provider, make_snapshot, note_snapshot,
  to_exporting,
}
use virtrigaud.Migration.Exporting.{
  ExportEnv, handle_exporting_phase, guarded_export, prepare_export, claim_and_export, issue_export,
  after_export, finish_task, advance, note_export,
}
use virtrigaud.Migration.Importing.{handle_transferring_phase, handle_converting_phase}
use virtrigaud.Migration.Creating.{
  TargetEnv, handle_creating_phase, create_target, await_target, handle_validating_target_phase,
  validate_target, complete_migration,
}

module _ (x : ValidatingEnv) (effects : List Effect) where
  power-Moves :
      (m : Migration)
      → m.status.phase ≡ validating
      → Moves validating (power_and_finish x m effects).1.status.phase
  unfolding power_and_finish finish_validation transition_to_failed
  power-Moves m v = ground (arith, ensure_keeps x m effects)

  mount-Moves :
      (source target : Provider) (pvc : String) (m : Migration)
      → m.status.phase ≡ validating
      → Moves validating (await_mount x source target pvc m effects).1.status.phase
  unfolding await_mount transition_to_failed wait_validating
  mount-Moves source target pvc m v = ground (arith, power-Moves m v)

  pvc-Moves :
      (source target : Provider) (m : Migration)
      → m.status.phase ≡ validating
      → Moves validating (prepare_pvc x source target m effects).1.status.phase
  unfolding prepare_pvc transition_to_failed
  pvc-Moves source target m v = elim (Answer-cases x.migration_pvc) [
    | inl (err, e) ↦ ground arith
    | inr (pvc, e) ↦ ground (
      arith,
      mount-Moves source target pvc m v,
      mount-Moves source target pvc
          (record m { status = record (m.status) { storage_pvc_name = pvc } }) v,
    )
  ]

  backend-Moves :
      (source target : Provider) (m : Migration)
      → m.status.phase ≡ validating
      → Moves validating (prepare_backend x source target m effects).1.status.phase
  unfolding prepare_backend transition_to_failed
  backend-Moves source target m v = ground (arith, power-Moves m v, pvc-Moves source target m v)

  storage-Moves :
      (source target : Provider) (m : Migration)
      → m.status.phase ≡ validating
      → Moves validating (validate_storage x source target m effects).1.status.phase
  unfolding validate_storage transition_to_failed
  storage-Moves source target m v = ground (arith, power-Moves m v, backend-Moves source target m v)

  providers-Moves :
      (source target : Provider) (m : Migration)
      → m.status.phase ≡ validating
      → Moves validating (validate_providers x source target m effects).1.status.phase
  unfolding validate_providers transition_to_failed wait_validating
  providers-Moves source target m v = ground (arith, storage-Moves source target m v)

  find-Moves :
      (vm : VirtualMachine) (m : Migration)
      → m.status.phase ≡ validating
      → Moves validating (find_providers x vm m effects).1.status.phase
  unfolding find_providers transition_to_failed
  find-Moves vm m v =
      elim (Answer-cases (x.get_provider (provider_key m.namespace (source_provider_ref m vm)))) [
        | inl (err, e) ↦ ground arith
        | inr (source, e) ↦
            (elim (Answer-cases
              (x.get_provider (provider_key m.namespace m.spec.target.provider_ref))) [
                | inl (err, f) ↦ ground arith
                | inr (target, f) ↦ ground (arith, providers-Moves source target m v)
              ])
      ]

  pub validating-Moves :
      (m : Migration)
      → m.status.phase ≡ validating
      → Moves validating (handle_validating_phase x m effects).1.status.phase
  unfolding handle_validating_phase transition_to_failed wait_validating
  validating-Moves m v = elim (Answer-cases x.source_vm) [
    | inl (err, e) ↦ ground arith
    | inr (vm, e) ↦ ground (arith, find-Moves vm m v)
  ]

pub snapshotting-Moves :
    (x : SnapshotEnv) (m : Migration) (effects : List Effect)
    → m.status.phase ≡ snapshotting
    → Moves snapshotting (handle_snapshotting_phase x m effects).1.status.phase
unfolding handle_snapshotting_phase reach_provider make_snapshot note_snapshot to_exporting
    transition_to_failed
snapshotting-Moves x m effects v = ground arith

pub exporting-Moves :
    (x : ExportEnv) (m : Migration) (mgr : Manager)
    → m.status.phase ≡ exporting
    → Moves exporting (handle_exporting_phase x m mgr).1.status.phase
unfolding handle_exporting_phase guarded_export prepare_export claim_and_export issue_export
    after_export finish_task advance note_export transition_to_failed
exporting-Moves x m mgr v = ground arith

pub creating-Moves :
    (x : TargetEnv) (m : Migration) (effects : List Effect)
    → m.status.phase ≡ creating
    → Moves creating (handle_creating_phase x m effects).1.status.phase
unfolding handle_creating_phase create_target await_target transition_to_failed
creating-Moves x m effects v = ground arith

pub validating_target-Moves :
    (x : TargetEnv) (m : Migration) (effects : List Effect)
    → m.status.phase ≡ validating_target
    → Moves validating_target (handle_validating_target_phase x m effects).1.status.phase
unfolding handle_validating_target_phase validate_target complete_migration transition_to_failed
validating_target-Moves x m effects v = ground arith

pub failed-Moves :
    (env : Env) (m : Migration) (deletions : ℕ)
    → m.status.phase ≡ failed
    → Moves failed (handle_failed_phase env m deletions).1.status.phase
unfolding handle_failed_phase
failed-Moves env m deletions v = ground arith

handle-Moves :
    (w : World) (q : Phase) (m : Migration) (p : Process)
    → m.status.phase ≡ q
    → Moves q (handle_phase w q m p).1.status.phase
unfolding handle_phase handle_pending_phase handle_transferring_phase handle_converting_phase
handle-Moves w unset m p e = inr refl
handle-Moves w pending m p e = inr refl
handle-Moves w validating m p e = validating-Moves w.validating_env p.effects m e
handle-Moves w snapshotting m p e = snapshotting-Moves w.snapshot_env m p.effects e
handle-Moves w exporting m p e = exporting-Moves w.export_env m p.manager e
handle-Moves w transferring m p e = inr refl
handle-Moves w converting m p e = inr refl
handle-Moves w importing m p e = importing-Moves w.import_env m p.manager e
handle-Moves w creating m p e = creating-Moves w.target_env m p.effects e
handle-Moves w validating_target m p e = validating_target-Moves w.target_env m p.effects e
handle-Moves w ready m p e = inl (ready_phase w.cleanup_env m p.effects ∙ e)
handle-Moves w failed m p e = ground (arith, failed-Moves w.env m p.deletions e)
handle-Moves w (unknown_phase text) m p e = inl e

-- A reconcile leaves the phase of a migration as it is or moves it along the graph: from no phase to
-- Pending; one step of Pending, Validating, Snapshotting (which may be left out), Exporting,
-- Importing, Creating, ValidatingTarget, Ready; from Transferring or Converting, which nothing leads
-- to, to Importing; from Validating, Snapshotting, Exporting, Importing, Creating or
-- ValidatingTarget to Failed; or from Failed back to Pending. Nothing leaves Ready.
pub reconcile-Moves :
    (w : World) (m : Migration) (p : Process)
    → Moves m.status.phase (reconcile_migration w m p).1.status.phase
unfolding reconcile_migration
reconcile-Moves w m p = elim (Option-cases m.deletion_timestamp) [
  | inr (at, d) ↦ ground (arith, deletion_phase w.deletion_env m p.effects)
  | inl n ↦ ground (arith, handle-Moves w m.status.phase m p refl)
]

-- For a migration that has failed, Reconcile does what its short circuit and handleFailedPhase do, as
-- `reconcile` describes them for any handlers of the other phases: if the migration is not being
-- deleted and has its finalizer, the outcome, the migration and the number of snapshot deletions are
-- the same, and nothing else of the process changes.
pub reconcile_migration-reconcile :
    (handle : Handler) (w : World) (m : Migration) (p : Process)
    → m.status.phase ≡ failed
    → m.deletion_timestamp ≡ none
    → contains m.finalizers finalizer_name ≡ true
    → reconcile_migration w m p ≡ of_failed p (reconcile handle w.env m p.deletions)
unfolding reconcile_migration handle_phase reconcile
reconcile_migration-reconcile handle w m p f d c = ground arith
