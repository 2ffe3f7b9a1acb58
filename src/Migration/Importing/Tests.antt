-- ===== src/Migration/Importing/Tests.antt =====
-- handleImportingPhase of vmmigration_controller.go on small inputs, after an export.
use virtrigaud.Prelude.{◌≡◌, refl, [], ◌∷◌, true, arith}
use virtrigaud.Migration.Types.{Migration, ImportRequest, done, returned}
use virtrigaud.Migration.Gate.{
  migration_backend_type, migration_transfer_mode, resolve_transfer_mode,
}
use virtrigaud.K8s.Conditions.{is_condition_true}
use virtrigaud.Migration.Guard.{mark_long_op_started, blocked, long_op_already_started}
use virtrigaud.Migration.Failed.Laws.{Handler}
use virtrigaud.Migration.Exporting.{
  handle_exporting_phase, export_already_done, guarded_export, prepare_export, claim_and_export,
  issue_export, after_export, note_export, disk_format_of,
}
use virtrigaud.Migration.ImportRequest.{import_request, import_format, verify_checksums_of}
use virtrigaud.Migration.Importing.{
  ImportEnv, handle_importing_phase, guarded_import, prepare_import, claim_and_import, issue_import,
  import_already_done, prepared,
}
use virtrigaud.Migration.Once.{started}
use virtrigaud.Migration.Samples.{libvirt, export_response, healthy_export, healthy_import, fresh}
use virtrigaud.Migration.Exporting.Checksum.{Answers}
use virtrigaud.Migration.Importing.Request.{checksum_carried}
use virtrigaud.Migration.Importing.Retried.{ReachesTarget}

abbrev breaking : ImportEnv
breaking = record healthy_import { task_error = returned "disk full" }

abbrev waiting : Migration
waiting = record fresh { status = record (fresh.status) { import_id = "d1"; task_ref = "t2" } }

abbrev again : Migration
again = record fresh { status = record (fresh.status) { import_id = "d1"; retry_count = 1 } }

idle : Handler
idle e m deletions = (done, m, deletions)

Reaches-of :
    (x : ImportEnv)
    → x.target_provider ≡ returned libvirt
    → x.provider_instance ≡ returned "client"
    → ReachesTarget x
Reaches-of x p c = record { provider = (libvirt, p); client = ("client", c) }

abbrev exported : Migration
exported = (handle_exporting_phase healthy_export fresh started).1

abbrev request : ImportRequest
request = record {
  source_url = "pvc://disk";
  format = "qcow2";
  target_name = "vm2-migrated";
  verify_checksum = true;
  expected_checksum = "sha";
  credentials = "";
  backend_type = "pvc";
  transfer_mode = "relay";
  storage_options_json = "";
}

export_answered : Answers healthy_export fresh started
unfolding handle_exporting_phase guarded_export export_already_done prepare_export claim_and_export
    issue_export after_export note_export blocked mark_long_op_started long_op_already_started
    is_condition_true
export_answered e = ground arith

request_sent :
    (handle_importing_phase healthy_import exported started).2.import_requests ≡ request ∷ []
unfolding handle_exporting_phase guarded_export export_already_done prepare_export claim_and_export
    issue_export after_export note_export blocked mark_long_op_started long_op_already_started
    is_condition_true handle_importing_phase guarded_import import_already_done prepare_import
    prepared import_request import_format claim_and_import issue_import migration_backend_type
    resolve_transfer_mode migration_transfer_mode disk_format_of
request_sent = refl

checksum_carried_example :
    (request.expected_checksum ≡ "sha")
    × (request.verify_checksum ≡ verify_checksums_of exported.spec.options)
    × (request.backend_type ≡ migration_backend_type exported)
    × (request.transfer_mode ≡ resolve_transfer_mode exported)
checksum_carried_example =
    checksum_carried healthy_export healthy_import fresh exported started started export_response
      request refl export_answered refl request_sent
