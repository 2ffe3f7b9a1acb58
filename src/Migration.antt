-- ===== src/Migration.antt =====
-- internal/controller/vmmigration_controller.go: the state machine of a migration, and the storage
-- backends of internal/storage/migration/backend.go.
pub mod Types
pub mod Phases
pub mod Guard
pub mod Gate
pub mod Failed
pub mod Exporting
pub mod StagingKey
pub mod StatusUpdate
pub mod ImportRequest
pub mod Importing
pub mod Machines
pub mod StorageConfig
pub mod Mount
pub mod PowerOff
pub mod Validating
pub mod Snapshotting
pub mod Creating
pub mod Cleanup
pub mod Deletion
pub mod Reconcile
pub mod Once
mod Samples
