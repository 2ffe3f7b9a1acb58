-- ===== src/Migration/ImportRequest.antt =====
-- internal/controller/vmmigration_controller.go: the ImportDiskRequest that handleImportingPhase builds.
use virtrigaud.Prelude.{
  true, Bool, String, [], ◌∷◌, Option, none, some, str_eq, sprintf, if◌then◌else◌,
}
use virtrigaud.Migration.Types.{
  Migration, Options, Provider, ImportRequest, Answer, returned, refused,
}
use virtrigaud.Migration.Gate.{
  backend_s3, backend_nfs, migration_backend_type, resolve_transfer_mode, native_disk_format,
}
use virtrigaud.Migration.Exporting.Checksum.{recorded_checksum}
use virtrigaud.Migration.Exporting.{disk_format_of}

-- importFormat, for the answer of getSourceProvider
unfoldable pub import_format : Migration → Answer Provider → Answer String
import_format m source =
    if str_eq (migration_backend_type m) backend_s3
    then (elim source [
      | refused err ↦ refused err
      | returned provider ↦ returned (native_disk_format provider)
    ])
    else if str_eq (migration_backend_type m) backend_nfs
    then returned "qcow2"
    else returned (disk_format_of m.spec.options)

abbrev pub verify_checksums_of : Option Options → Bool
verify_checksums_of none = true
verify_checksums_of (some o) = o.verify_checksums

-- importReq; an expected checksum that is not set is empty, as the recorded one is then.
unfoldable pub import_request : Migration → String → String → String → String → ImportRequest
import_request m url format creds options = record {
  source_url = url;
  format = format;
  target_name = sprintf (m.spec.target.name ∷ "-migrated" ∷ []);
  verify_checksum = verify_checksums_of m.spec.options;
  expected_checksum = recorded_checksum m.status.disk_info;
  credentials = creds;
  backend_type = migration_backend_type m;
  transfer_mode = resolve_transfer_mode m;
  storage_options_json = options;
}
