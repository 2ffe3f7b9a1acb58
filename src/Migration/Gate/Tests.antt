-- ===== src/Migration/Gate/Tests.antt =====
-- The storage gate of vmmigration_controller.go on a vSphere and a libvirt provider.
use virtrigaud.Prelude.{◌≡◌, refl, ◌∷◌, [], none, some}
use virtrigaud.Migration.Samples.{plain_source, plain_target}
use virtrigaud.Migration.Types.{Migration, Provider, Storage, pending}
use virtrigaud.Migration.Gate.{
  migration_backend_type, migration_transfer_mode, reported_export_backends,
  reported_import_backends, reported_transfer_modes, gate_migration_storage_backend, allowed,
  source_lacks_mode, backend_not_implemented,
}
use virtrigaud.Migration.Gate.Laws.{IsAllowed, gate-IsAllowed, IsAllowed-gate}

abbrev over : Storage → Migration
over s = record {
  name = "mig";
  namespace = "default";
  deletion_timestamp = none;
  finalizers = [];
  uid = "u1";
  generation = 1;
  spec = record { source = plain_source; target = plain_target; storage = some s; options = none };
  status = record {
    phase = pending;
    message = "";
    snapshot_id = "";
    export_id = "";
    import_id = "";
    task_ref = "";
    completion_time = none;
    disk_info = none;
    conditions = [];
    retry_count = 0;
    last_retry_time = none;
    start_time = none;
    target_vm_id = "";
    storage_pvc_name = "";
    storage_info = none;
  };
}

abbrev vsphere : Provider
vsphere = record {
  name = "vc1";
  namespace = "default";
  conditions = [];
  provider_type = "vsphere";
  reported_capabilities = none;
}

abbrev libvirt : Provider
libvirt = record {
  name = "kvm1";
  namespace = "default";
  conditions = [];
  provider_type = "libvirt";
  reported_capabilities = some (record {
    supported_export_backends = "pvc" ∷ "s3" ∷ [];
    supported_import_backends = "pvc" ∷ "s3" ∷ [];
    supported_transfer_modes = [];
  });
}

relayed_is_allowed :
    gate_migration_storage_backend
      (over (record { type = ""; transfer_mode = "relay"; pvc = none; nfs = none; s3 = none }))
      vsphere
      libvirt
    ≡ allowed
unfolding gate_migration_storage_backend migration_backend_type migration_transfer_mode
    reported_export_backends reported_import_backends reported_transfer_modes
relayed_is_allowed = refl

gate-IsAllowed_example :
    IsAllowed
      (over (record { type = ""; transfer_mode = "relay"; pvc = none; nfs = none; s3 = none }))
      vsphere
      libvirt
gate-IsAllowed_example =
    gate-IsAllowed
      (over (record { type = ""; transfer_mode = "relay"; pvc = none; nfs = none; s3 = none }))
      vsphere libvirt relayed_is_allowed

abbrev s3_auto : Migration
s3_auto = over (record { type = "s3"; transfer_mode = "auto"; pvc = none; nfs = none; s3 = none })

s3-IsAllowed : IsAllowed s3_auto libvirt libvirt
unfolding gate_migration_storage_backend migration_backend_type migration_transfer_mode
    reported_export_backends reported_import_backends reported_transfer_modes
s3-IsAllowed = gate-IsAllowed s3_auto libvirt libvirt refl

IsAllowed-gate_example : gate_migration_storage_backend s3_auto libvirt libvirt ≡ allowed
IsAllowed-gate_example = IsAllowed-gate s3_auto libvirt libvirt s3-IsAllowed

direct_source_lacks_mode :
    gate_migration_storage_backend
      (over (record { type = "pvc"; transfer_mode = "stream"; pvc = none; nfs = none; s3 = none }))
      vsphere
      libvirt
    ≡ source_lacks_mode
unfolding gate_migration_storage_backend migration_backend_type migration_transfer_mode
    reported_export_backends reported_import_backends reported_transfer_modes
direct_source_lacks_mode = refl

other_backend :
    gate_migration_storage_backend
      (over (record { type = "gcs"; transfer_mode = ""; pvc = none; nfs = none; s3 = none }))
      vsphere
      libvirt
    ≡ backend_not_implemented
unfolding gate_migration_storage_backend migration_backend_type migration_transfer_mode
    reported_export_backends reported_import_backends reported_transfer_modes
other_backend = refl
