-- ===== src/Migration/Validating/Message.antt =====
-- The message of gateMigrationStorageBackend in vmmigration_controller.go.
use virtrigaud.Prelude.{String, List, [], ◌∷◌, sprintf, quoted}
use virtrigaud.Migration.Types.{Migration, Provider}
use virtrigaud.Migration.Gate.{
  migration_backend_type, migration_transfer_mode, Verdict, allowed, backend_not_implemented,
  direct_not_implemented, source_lacks_backend, target_lacks_backend, source_lacks_mode,
  target_lacks_mode, reported_export_backends, reported_import_backends, reported_transfer_modes,
}

-- %v of a list
spaced : List String → String
spaced [] = ""
spaced (s ∷ []) = s
spaced (s ∷ t ∷ rest) = sprintf (s ∷ " " ∷ spaced (t ∷ rest) ∷ [])

unfoldable pub unsupported : String → String → String → String → List String → String
unfolding spaced
unsupported what value side name supported = sprintf (
    what
    ∷ " "
    ∷ quoted value
    ∷ " not supported by "
    ∷ side
    ∷ " provider "
    ∷ quoted name
    ∷ " (supported: ["
    ∷ spaced supported
    ∷ "]); see ADR-0006"
    ∷ [])

-- The message of gateMigrationStorageBackend, which is empty if the migration may proceed
unfoldable pub gate_message : Migration → Provider → Provider → Verdict → String
unfolding unsupported
gate_message m source target allowed = ""
gate_message m source target backend_not_implemented = sprintf (
    "storage backend "
    ∷ quoted (migration_backend_type m)
    ∷ " is not yet implemented; supported today: \"pvc\", \"s3\", \"nfs\" (ADR-0006)"
    ∷ [])
gate_message m source target direct_not_implemented = sprintf (
    "transfer mode "
    ∷ "\"direct\" is not yet implemented; only \"relay\" (and \"auto\") are supported today (ADR-0006 Slice 1)"
    ∷ [])
gate_message m source target source_lacks_backend =
    unsupported "storage backend" (migration_backend_type m) "source" source.name
      (reported_export_backends source)
gate_message m source target target_lacks_backend =
    unsupported "storage backend" (migration_backend_type m) "target" target.name
      (reported_import_backends target)
gate_message m source target source_lacks_mode =
    unsupported "transfer mode" (migration_transfer_mode m) "source" source.name
      (reported_transfer_modes source)
gate_message m source target target_lacks_mode =
    unsupported "transfer mode" (migration_transfer_mode m) "target" target.name
      (reported_transfer_modes target)
