-- ===== src/Migration/Samples.antt =====
-- Inputs for the tests of the migration: a libvirt provider that exports and imports, and a migration
-- in the phase Exporting.
use virtrigaud.Prelude.{[], none, some, true, false}
use virtrigaud.Migration.Types.{
  Migration, Source, Target, RetryPolicy, Provider, exporting, returned,
}
use virtrigaud.Prelude.{String, Option, ◌∷◌}
use virtrigaud.K8s.Conditions.{Condition, condition_true}
use virtrigaud.Migration.Types.{ObjectRef, Phase}
use virtrigaud.Migration.Machines.{VirtualMachine, found, missing, removed}
use virtrigaud.Migration.PowerOff.{ValidatingEnv}
use virtrigaud.Migration.Snapshotting.{SnapshotEnv}
use virtrigaud.Migration.Creating.{TargetEnv}
use virtrigaud.Migration.Cleanup.{CleanupEnv}
use virtrigaud.Migration.Deletion.{DeletionEnv}
use virtrigaud.Migration.Reconcile.{World, Process}
use virtrigaud.Migration.Failed.{Env, minute}
use virtrigaud.Migration.Exporting.{ExportEnv, ExportResponse}
use virtrigaud.Migration.Importing.{ImportEnv}

abbrev pub clock : Env
clock = record { now = 10; update_status = none }

abbrev pub plain_source : Source
plain_source = record {
  vm_ref = "vm1";
  provider_ref = none;
  snapshot_ref = none;
  create_snapshot = true;
  power_off_before_migration = true;
  delete_after_migration = true;
}

abbrev pub plain_target : Target
plain_target = record {
  name = "vm2";
  namespace = "";
  provider_ref = record { name = "kvm1"; namespace = "" };
  class_ref = none;
  networks = [];
  placement_ref = none;
  labels = [];
  annotations = [];
}

abbrev pub libvirt : Provider
libvirt = record {
  name = "kvm1";
  namespace = "default";
  conditions = [];
  provider_type = "libvirt";
  reported_capabilities = none;
}

abbrev pub export_response : ExportResponse
export_response = record {
  export_id = "e1";
  task_ref = "t1";
  checksum = "sha";
  estimated_size_bytes = 0;
}

abbrev pub healthy_export : ExportEnv
healthy_export = record {
  env = clock;
  enforce_capabilities = false;
  source_vm = returned "vm";
  source_provider = returned "libvirt";
  provider_instance = returned "client";
  is_task_complete = returned true;
  task_error = returned "";
  storage_url = returned "pvc://disk";
  storage_options = returned "";
  credentials = returned "";
  can_export = some true;
  export_disk = returned export_response;
}

abbrev pub healthy_import : ImportEnv
healthy_import = record {
  env = clock;
  enforce_capabilities = true;
  target_provider = returned libvirt;
  provider_instance = returned "client";
  is_task_complete = returned true;
  task_error = returned "";
  storage_url = returned "pvc://disk";
  storage_options = returned "";
  credentials = returned "";
  source_provider = returned libvirt;
  can_import = some true;
  import_disk = λ req. returned (record {
    disk_id = "d1";
    path = "/disks/d1.qcow2";
    task_ref = "t2";
    actual_size_bytes = 0;
    checksum = req.expected_checksum;
  });
}

abbrev pub unlimited : RetryPolicy
unlimited = record { max_retries = none; retry_delay = some minute; backoff_multiplier = none }

abbrev pub fresh : Migration
fresh = record {
  name = "mig";
  namespace = "default";
  deletion_timestamp = none;
  finalizers = [];
  uid = "u1";
  generation = 1;
  spec = record {
    source = plain_source;
    target = plain_target;
    storage = none;
    options = some (record {
      disk_format = "";
      compress = false;
      verify_checksums = true;
      retry_policy = some unlimited;
      cleanup_policy = "";
    });
  };
  status = record {
    phase = exporting;
    message = "";
    snapshot_id = "";
    export_id = "";
    import_id = "";
    task_ref = "";
    completion_time = none;
    disk_info = none;
    conditions = [];
    retry_count = 0;
    last_retry_time = none;
    start_time = none;
    target_vm_id = "";
    storage_pvc_name = "";
    storage_info = none;
  };
}

abbrev pub host : ObjectRef
host = record { name = "kvm1"; namespace = "" }

abbrev pub is_true : String → Condition
is_true type = record {
  type = type;
  status = condition_true;
  observed_generation = 0;
  last_transition_time = 0;
  reason = "";
  message = "";
}

abbrev pub ready_vm : VirtualMachine
ready_vm = record {
  name = "vm1";
  namespace = "default";
  labels = [];
  annotations = [];
  provider_ref = host;
  class_ref = none;
  networks = [];
  placement_ref = none;
  imported_disk = none;
  power_state = "Off";
  id = "i1";
  conditions = is_true "Ready" ∷ [];
}

abbrev pub kvm : Provider
kvm = record libvirt { conditions = is_true "ProviderAvailable" ∷ [] }

abbrev pub validating_sample : ValidatingEnv
validating_sample = record {
  env = clock;
  source_vm = returned ready_vm;
  get_provider = λ ref. returned kvm;
  hosts = record { validate_s3_endpoint = λ endpoint. none; validate_host = λ host. none };
  s3_credentials = none;
  migration_pvc = returned "mig-storage";
  update_pvc_name = none;
  cluster = record {
    get_deployment = λ ns name. found (record {
      volumes = some "mig-storage" ∷ [];
      replicas = none;
      updated_replicas = 1;
      ready_replicas = 1;
    });
    list_pods = λ p. returned (
        record {
          deletion_timestamp = none;
          volumes = some "mig-storage" ∷ [];
          phase = "Running";
          conditions = ("Ready", "True") ∷ [];
        }
        ∷ []);
  };
  deadline_exceeded = returned false;
  power_vm = returned ready_vm;
  patch = none;
  provider_instance = returned "client";
  describe = returned "Off";
  power = none;
}

abbrev pub snapshot_sample : Option String → SnapshotEnv
snapshot_sample task = record {
  env = clock;
  source_vm = returned ready_vm;
  get_provider = λ ref. returned kvm;
  provider_instance = returned "client";
  uid_prefix = "0123abcd";
  create = returned (record { snapshot_id = "snap-1"; task = task });
}

abbrev pub target_sample : TargetEnv
target_sample = record {
  env = clock;
  target_vm = found ready_vm;
  create = none;
  update = none;
  completed_at = "2026-01-01T00:00:00Z";
}

abbrev pub cleanup_sample : CleanupEnv
cleanup_sample = record {
  env = clock;
  new_storage = none;
  export_url = returned "pvc://disk";
  source_vm = returned ready_vm;
  get_provider = λ ref. returned kvm;
  provider_instance = returned "client";
  delete_snapshot = returned "";
  await_task = none;
  task_error = returned "";
  delete_vm = none;
}

abbrev pub deletion_sample : DeletionEnv
deletion_sample = record {
  cleanup = cleanup_sample;
  pvc = missing;
  pvc_removal = removed;
  target_vm = missing;
  delete_target = none;
  update = none;
}

abbrev pub world : World
world = record {
  env = clock;
  update = none;
  validating_env = validating_sample;
  snapshot_env = snapshot_sample none;
  export_env = healthy_export;
  import_env = healthy_import;
  target_env = target_sample;
  cleanup_env = cleanup_sample;
  deletion_env = deletion_sample;
}

abbrev pub at_phase : Phase → Migration
at_phase p = record fresh {
  finalizers = "vmmigration.infra.virtrigaud.io/finalizer" ∷ [];
  status = record (fresh.status) { phase = p };
}

abbrev pub process : Process
process = record {
  manager = record { long_op_in_flight = []; issued = []; answered = []; import_requests = [] };
  effects = [];
  deletions = 0;
}
