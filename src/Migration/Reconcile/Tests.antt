-- ===== src/Migration/Reconcile/Tests.antt =====
-- The phases of vmmigration_controller.go on a migration between two libvirt providers.
use virtrigaud.Prelude.{
  ◌≡◌, ◌≤◌, refl, List, [], ◌∷◌, some, none, arith, replicate, All, true, false,
}
use virtrigaud.Migration.Types.{
  Migration, unset, validating, exporting, importing, creating, validating_target, ready, failed,
  RetryPolicy,
}
use virtrigaud.Migration.Samples.{world, process, at_phase}
use virtrigaud.Migration.Reconcile.{World, reconcile_migration}
use virtrigaud.Migration.Validating.{
  handle_pending_phase, handle_validating_phase, find_providers, validate_providers,
  is_provider_ready, any_available, gate_message, validate_storage, power_and_finish,
  finish_validation,
}
use virtrigaud.Migration.Gate.{
  gate_migration_storage_backend, migration_backend_type, backend_of, migration_transfer_mode,
  mode_of, reported_export_backends, export_backends_of, reported_import_backends,
  import_backends_of,
}
use virtrigaud.Migration.Exporting.{
  handle_exporting_phase, guarded_export, export_already_done, advance,
}
use virtrigaud.Migration.Importing.{
  handle_importing_phase, guarded_import, import_already_done, advance_to_creating,
}
use virtrigaud.Migration.Creating.{
  handle_creating_phase, await_target, handle_validating_target_phase, validate_target,
  complete_migration,
}
use virtrigaud.K8s.Conditions.{is_condition_true, get_condition}
use virtrigaud.Migration.Phases.{Moves}
use virtrigaud.Migration.Types.{done}
use virtrigaud.Migration.Failed.Laws.{Handler, Bounded}
use virtrigaud.Migration.Failed.{
  retry_policy, max_retries_of, handle_failed_phase, permanently_failed,
}
use virtrigaud.Migration.Reconcile.Limit.{final, retries_within_limit}
use virtrigaud.Migration.Reconcile.Graph.{reconcile-Moves}
use virtrigaud.Migration.Reconcile.History.{
  phases, visits, rank, last_of, ready_through, ready_is_final,
}

reconcile-Moves_example :
    Moves validating (reconcile_migration world (at_phase validating) process).1.status.phase
reconcile-Moves_example = reconcile-Moves world (at_phase validating) process

-- A migration whose disk is on the target already, so that its passes only go through the phases.
abbrev landed : Migration
landed = record (at_phase unset) {
  spec = record ((at_phase unset).spec) {
    source = record ((at_phase unset).spec.source) {
      create_snapshot = false;
      power_off_before_migration = false;
    };
  };
  status = record ((at_phase unset).status) { export_id = "e1"; import_id = "d1" };
}

abbrev seven : List World
seven = replicate 7 world

migrates : last_of unset (phases seven landed process) ≡ ready
unfolding phases reconcile_migration handle_pending_phase handle_validating_phase find_providers
    validate_providers is_provider_ready any_available gate_message gate_migration_storage_backend
    migration_backend_type backend_of migration_transfer_mode mode_of reported_export_backends
    export_backends_of reported_import_backends import_backends_of validate_storage power_and_finish
    finish_validation handle_exporting_phase guarded_export export_already_done advance
    handle_importing_phase guarded_import import_already_done advance_to_creating
    handle_creating_phase await_target is_condition_true get_condition
    handle_validating_target_phase validate_target complete_migration
migrates = refl

ready_through_example :
    (visits (rank validating) (phases seven landed process) ≡ true)
    × (visits (rank exporting) (phases seven landed process) ≡ true)
    × (visits (rank importing) (phases seven landed process) ≡ true)
    × (visits (rank creating) (phases seven landed process) ≡ true)
    × (visits (rank validating_target) (phases seven landed process) ≡ true)
ready_through_example = ready_through seven landed process refl migrates

ready_is_final_example : All (λ q. q ≡ ready) (phases seven (at_phase ready) process)
ready_is_final_example = ready_is_final seven (at_phase ready) process refl

abbrev idle : Handler
idle env m deletions = (done, m, deletions)

abbrev once_more : RetryPolicy
once_more = record { max_retries = some 1; retry_delay = none; backoff_multiplier = none }

-- A migration that has failed and may be retried once
abbrev retriable : Migration
retriable = record (at_phase failed) {
  spec = record ((at_phase failed).spec) {
    options = some (record {
      disk_format = "";
      compress = false;
      verify_checksums = true;
      retry_policy = some once_more;
      cleanup_policy = "";
    });
  };
}

abbrev retried : List World
retried = world ∷ world ∷ []

retries_once : (final retried retriable process).status.retry_count ≡ 1
unfolding final reconcile_migration handle_pending_phase handle_failed_phase permanently_failed
retries_once = refl

policy_kept : retry_policy (final retried retriable process) ≡ some once_more
unfolding final reconcile_migration handle_pending_phase handle_failed_phase permanently_failed
policy_kept = refl

retriable-Bounded : Bounded retriable
retriable-Bounded p e = ground arith

retries_within_limit_example :
    (final retried retriable process).status.retry_count ≤ max_retries_of once_more
retries_within_limit_example =
    retries_within_limit retried retriable process once_more retriable-Bounded policy_kept
