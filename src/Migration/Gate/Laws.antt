-- ===== src/Migration/Gate/Laws.antt =====
-- What a migration that passes the storage gate of vmmigration_controller.go can rely on.
use virtrigaud.Prelude.{
  ◌≡◌, ◌≢◌, ◌⊎◌, true, String, Option, none, some, str_eq, contains, if◌then◌else◌, arith, eq_iff,
  Bool-cases, inl, inr,
}
use virtrigaud.Contracts.Errors.{nil}
use virtrigaud.Migration.Types.{Migration, Provider, Storage}
use virtrigaud.Migration.Gate.{
  backend_of, backend_pvc, backend_nfs, mode_auto, mode_direct, migration_backend_type,
  migration_transfer_mode, reported_export_backends, reported_import_backends,
  reported_transfer_modes, allowed, gate_migration_storage_backend, ensure_pvc_s3_or_nfs_backend,
}

-- The conditions under which a migration may proceed.
pub record IsAllowed (m : Migration) (source target : Provider) : Type 0 where
  pub implemented : ensure_pvc_s3_or_nfs_backend (migration_backend_type m) ≡ nil
  pub exported : contains (reported_export_backends source) (migration_backend_type m) ≡ true
  pub imported : contains (reported_import_backends target) (migration_backend_type m) ≡ true
  pub streamed :
      (migration_backend_type m ≡ backend_nfs)
      ⊎ ((migration_transfer_mode m ≢ mode_direct)
          × ((migration_transfer_mode m ≡ mode_auto)
              ⊎ ((contains (reported_transfer_modes source) (migration_transfer_mode m) ≡ true)
                  × (contains (reported_transfer_modes target) (migration_transfer_mode m)
                      ≡ true))))

-- A migration that the gate lets through uses a backend that is implemented, which the source exports
-- to and the target imports from; unless it is nfs, its transfer mode is not "direct", and an
-- explicit mode is one that both providers report.
pub gate-IsAllowed :
    (m : Migration) (source target : Provider)
    → gate_migration_storage_backend m source target ≡ allowed
    → IsAllowed m source target
unfolding gate_migration_storage_backend ensure_pvc_s3_or_nfs_backend
gate-IsAllowed m source target h = record {
  implemented = ground arith;
  exported = ground arith;
  imported = ground arith;
  streamed = ground (
    arith,
    eq_iff (migration_backend_type m) backend_nfs,
    eq_iff (migration_transfer_mode m) mode_direct,
    eq_iff (migration_transfer_mode m) mode_auto,
  );
}

pvc_not_empty : ◌≢◌ {A = String} backend_pvc ""
pvc_not_empty = ground (arith, eq_iff backend_pvc "")

default_not_empty : (s : String) → (if str_eq s "" then backend_pvc else s) ≢ ""
default_not_empty s h = elim (Bool-cases (str_eq s "")) [
  | inl e ↦ pvc_not_empty (rw e at h)
  | inr e ↦ ground (arith, eq_iff s "", let k : s ≡ "" = rw e at h in k)
]

backend_of_not_empty : (o : Option Storage) → backend_of o ≢ ""
unfolding backend_of
backend_of_not_empty none = pvc_not_empty
backend_of_not_empty (some s) = default_not_empty s.type

backend_not_empty : (m : Migration) → migration_backend_type m ≢ ""
unfolding migration_backend_type
backend_not_empty m = backend_of_not_empty m.spec.storage

-- The gate lets every migration through that meets these conditions: an implemented backend that the
-- source exports to and the target imports from and, unless it is nfs, a transfer mode other than
-- "direct" that is "auto" or reported by both providers.
pub IsAllowed-gate :
    (m : Migration) (source target : Provider)
    → IsAllowed m source target
    → gate_migration_storage_backend m source target ≡ allowed
unfolding gate_migration_storage_backend ensure_pvc_s3_or_nfs_backend
IsAllowed-gate m source target a = ground (
  arith,
  backend_not_empty m,
  eq_iff (migration_backend_type m) "",
  eq_iff (migration_backend_type m) backend_nfs,
  eq_iff (migration_transfer_mode m) mode_direct,
  eq_iff (migration_transfer_mode m) mode_auto,
)
