-- ===== src/Migration/Gate.antt =====
-- internal/storage/migration/backend.go, and the storage gate of
-- internal/controller/vmmigration_controller.go.
pub mod Laws
mod Tests
use virtrigaud.Prelude.{
  Bool, true, false, ◌&&◌, ◌||◌, not, String, List, [], ◌∷◌, Option, none, some, str_eq, contains,
  sprintf, quoted, if◌then◌else◌,
}
use virtrigaud.Contracts.Errors.{GoError, nil, status_error, Code, invalid_argument, unimplemented}
use virtrigaud.Migration.Types.{Migration, Provider, ReportedCapabilities, Storage}

abbrev pub backend_pvc : String
backend_pvc = "pvc"

abbrev pub backend_nfs : String
backend_nfs = "nfs"

abbrev pub backend_s3 : String
backend_s3 = "s3"

abbrev pub mode_auto : String
mode_auto = "auto"

abbrev pub mode_relay : String
mode_relay = "relay"

abbrev pub mode_direct : String
mode_direct = "direct"

-- PVCOnlyExportBackends, PVCOnlyImportBackends
abbrev pub pvc_only_backends : List String
pvc_only_backends = backend_pvc ∷ []

-- RelayOnlyTransferModes
abbrev pub relay_only_transfer_modes : List String
relay_only_transfer_modes = mode_relay ∷ []

unsupported_backend : String → GoError
unsupported_backend backend = status_error unimplemented (
    sprintf (
      "backend "
      ∷ quoted backend
      ∷ " not yet supported on this provider/direction (ADR-0006)"
      ∷ []))

-- EnsureRelayMode
unfoldable pub ensure_relay_mode : String → GoError
ensure_relay_mode mode =
    if str_eq mode "" || str_eq mode mode_auto || str_eq mode mode_relay
    then nil
    else status_error invalid_argument (
        sprintf (
          "transfer mode "
          ∷ quoted mode
          ∷ " not supported; only "
          ∷ quoted mode_relay
          ∷ " is implemented (ADR-0006 Slice 1)"
          ∷ []))

-- EnsurePVCBackend
unfoldable pub ensure_pvc_backend : String → GoError
unfolding unsupported_backend
ensure_pvc_backend backend =
    if str_eq backend "" || str_eq backend backend_pvc then nil else unsupported_backend backend

-- EnsurePVCOrS3Backend
unfoldable pub ensure_pvc_or_s3_backend : String → GoError
unfolding unsupported_backend
ensure_pvc_or_s3_backend backend =
    if str_eq backend "" || str_eq backend backend_pvc || str_eq backend backend_s3
    then nil
    else unsupported_backend backend

-- EnsurePVCS3OrNFSBackend
unfoldable pub ensure_pvc_s3_or_nfs_backend : String → GoError
unfolding unsupported_backend
ensure_pvc_s3_or_nfs_backend backend =
    if str_eq backend ""
      || str_eq backend backend_pvc
      || str_eq backend backend_s3
      || str_eq backend backend_nfs
    then nil
    else unsupported_backend backend

-- EnsureS3OrNFSBackend
unfoldable pub ensure_s3_or_nfs_backend : String → GoError
ensure_s3_or_nfs_backend backend =
    if str_eq backend backend_s3 || str_eq backend backend_nfs
    then nil
    else status_error unimplemented (
        sprintf (
          "backend "
          ∷ quoted backend
          ∷ " not supported on this provider; only s3 and nfs are implemented (ADR-0006)"
          ∷ []))

unfoldable pub backend_of : Option Storage → String
backend_of none = backend_pvc
backend_of (some s) = if str_eq s.type "" then backend_pvc else s.type

unfoldable pub mode_of : Option Storage → String
mode_of none = mode_auto
mode_of (some s) = if str_eq s.transfer_mode "" then mode_auto else s.transfer_mode

-- migrationBackendType
unfoldable pub migration_backend_type : Migration → String
unfolding backend_of
migration_backend_type m = backend_of m.spec.storage

-- migrationTransferMode
unfoldable pub migration_transfer_mode : Migration → String
unfolding mode_of
migration_transfer_mode m = mode_of m.spec.storage

-- resolveTransferMode
unfoldable pub resolve_transfer_mode : Migration → String
unfolding migration_transfer_mode
resolve_transfer_mode m =
    if str_eq (migration_transfer_mode m) mode_auto then mode_relay else migration_transfer_mode m

-- An empty set that is reported means the default.
unfoldable pub non_empty_or : List String → List String → List String
non_empty_or default [] = default
non_empty_or default (s ∷ set) = s ∷ set

unfoldable pub export_backends_of : Option ReportedCapabilities → List String
unfolding non_empty_or
export_backends_of none = pvc_only_backends
export_backends_of (some c) = non_empty_or pvc_only_backends c.supported_export_backends

unfoldable pub import_backends_of : Option ReportedCapabilities → List String
unfolding non_empty_or
import_backends_of none = pvc_only_backends
import_backends_of (some c) = non_empty_or pvc_only_backends c.supported_import_backends

transfer_modes_of : Option ReportedCapabilities → List String
unfolding non_empty_or
transfer_modes_of none = relay_only_transfer_modes
transfer_modes_of (some c) = non_empty_or relay_only_transfer_modes c.supported_transfer_modes

-- reportedExportBackends, reportedImportBackends, reportedTransferModes
unfoldable pub reported_export_backends : Provider → List String
unfolding export_backends_of
reported_export_backends p = export_backends_of p.reported_capabilities

unfoldable pub reported_import_backends : Provider → List String
unfolding import_backends_of
reported_import_backends p = import_backends_of p.reported_capabilities

unfoldable pub reported_transfer_modes : Provider → List String
unfolding transfer_modes_of
reported_transfer_modes p = transfer_modes_of p.reported_capabilities

-- nativeDiskFormat of a provider that is not nil
unfoldable pub native_disk_format : Provider → String
native_disk_format p = if str_eq p.provider_type "vsphere" then "vmdk" else "qcow2"

-- What gateMigrationStorageBackend answers. `allowed` is the empty message.
pub data Verdict : Type 0 where
  allowed : Verdict
  backend_not_implemented direct_not_implemented : Verdict
  source_lacks_backend target_lacks_backend : Verdict
  source_lacks_mode target_lacks_mode : Verdict

-- The gate of an explicit transfer mode, which NFS and "auto" pass.
gate_mode : String → String → Provider → Provider → Verdict
gate_mode backend mode source target =
    if not (str_eq backend backend_nfs) && not (str_eq mode mode_auto)
    then (if not (contains (reported_transfer_modes source) mode)
        then source_lacks_mode
        else if not (contains (reported_transfer_modes target) mode)
        then target_lacks_mode
        else allowed)
    else allowed

gate_backends : String → String → Provider → Provider → Verdict
unfolding gate_mode
gate_backends backend mode source target =
    if not (contains (reported_export_backends source) backend)
    then source_lacks_backend
    else if not (contains (reported_import_backends target) backend)
    then target_lacks_backend
    else gate_mode backend mode source target

-- gateMigrationStorageBackend
unfoldable pub gate_migration_storage_backend : Migration → Provider → Provider → Verdict
unfolding gate_backends
gate_migration_storage_backend m source target =
    let backend = migration_backend_type m in
    let mode = migration_transfer_mode m in
    if not (str_eq backend backend_pvc)
      && not (str_eq backend backend_s3)
      && not (str_eq backend backend_nfs)
    then backend_not_implemented
    else if not (str_eq backend backend_nfs) && str_eq mode mode_direct
    then direct_not_implemented
    else gate_backends backend mode source target
