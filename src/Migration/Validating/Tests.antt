-- ===== src/Migration/Validating/Tests.antt =====
-- The validation of vmmigration_controller.go, with a source VM that is off.
use virtrigaud.Prelude.{◌≡◌, refl, true, []}
use virtrigaud.Migration.Types.{validating}
use virtrigaud.Migration.Samples.{validating_sample, at_phase}
use virtrigaud.Migration.Gate.{
  gate_migration_storage_backend, migration_backend_type, backend_of, migration_transfer_mode,
  mode_of, reported_export_backends, export_backends_of, reported_import_backends,
  import_backends_of,
}
use virtrigaud.Migration.PowerOff.{
  ensure_source_powered_off, align_power, describe_power, poll_power,
}
use virtrigaud.Migration.Validating.{
  handle_validating_phase, find_providers, validate_providers, is_provider_ready, any_available,
  gate_message, validate_storage, power_and_finish, finish_validation,
}
use virtrigaud.Migration.Validating.Laws.{is_past_validation, IsValidated, validating-IsValidated}

passes :
    is_past_validation
      (handle_validating_phase validating_sample (at_phase validating) []).1.status.phase
    ≡ true
unfolding handle_validating_phase find_providers validate_providers is_provider_ready any_available
    gate_message gate_migration_storage_backend migration_backend_type backend_of
    migration_transfer_mode mode_of reported_export_backends export_backends_of
    reported_import_backends import_backends_of validate_storage power_and_finish finish_validation
    ensure_source_powered_off align_power describe_power poll_power
passes = refl

validating-IsValidated_example : IsValidated validating_sample (at_phase validating)
validating-IsValidated_example =
    validating-IsValidated validating_sample (at_phase validating) [] refl passes
