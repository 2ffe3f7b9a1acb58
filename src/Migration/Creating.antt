-- ===== src/Migration/Creating.antt =====
-- internal/controller/vmmigration_controller.go: handleCreatingPhase and handleValidatingTargetPhase.
-- The answers of the API server are arguments; `completed_at` is the time that the mark on the target
-- VM carries, as text.
pub mod Laws
use virtrigaud.Prelude.{
  ℕ, ◌*◌, Bool, true, false, ◌&&◌, not, String, List, [], ◌∷◌, Option, none, some, str_eq, sprintf,
  if◌then◌else◌,
}
use virtrigaud.Prelude.Dict.{Dict, insert}
use virtrigaud.K8s.Conditions.{
  ConditionStatus, condition_true, condition_false, condition_unknown, set_condition, get_condition,
  is_condition_true,
}
use virtrigaud.Migration.Types.{
  Migration, DiskInfo, ObjectRef, validating_target, ready, Outcome, done, requeue, requeue_after,
}
use virtrigaud.Migration.Failed.{Env, after_update, transition_to_failed}
use virtrigaud.Migration.Exporting.{second}
use virtrigaud.Migration.Machines.{
  VirtualMachine, ImportedDisk, Effect, vm_create, vm_update, Effected, Fetched, found, missing,
  fetch_failed, target_vm_name, target_vm_namespace,
}
use virtrigaud.Migration.Validating.{fail_effected}

-- `create` and `update` answer the calls that change the target VM.
pub record TargetEnv : Type 0 where
  pub env : Env
  pub target_vm : Fetched VirtualMachine
  pub create : Option String
  pub update : Option String
  pub completed_at : String

-- Merging the user's annotations: each overwrites.
unfoldable pub merge : Dict String → Dict String → Dict String
merge [] into = into
merge ((k, v) ∷ entries) into = merge entries (insert k v into)

migration_annotations : Migration → DiskInfo → Dict String
migration_annotations m d =
    ("virtrigaud.io/migrated-from", sprintf (m.namespace ∷ "/" ∷ m.spec.source.vm_ref ∷ []))
    ∷ ("virtrigaud.io/migration", sprintf (m.namespace ∷ "/" ∷ m.name ∷ []))
    ∷ ("virtrigaud.io/imported-disk-id", m.status.import_id)
    ∷ ("virtrigaud.io/disk-checksum", d.target_checksum)
    ∷ []

-- The target VM as it is created, on the disk that was imported. A new VM has no ID, no conditions
-- and no desired power state.
unfoldable pub new_target_vm : Migration → DiskInfo → VirtualMachine
unfolding migration_annotations
new_target_vm m d = record {
  name = target_vm_name m;
  namespace = target_vm_namespace m;
  labels = m.spec.target.labels;
  annotations = merge m.spec.target.annotations (migration_annotations m d);
  provider_ref = m.spec.target.provider_ref;
  class_ref = elim m.spec.target.class_ref [
    | none ↦ none
    | some name ↦ some (record { name = name; namespace = m.namespace })
  ];
  networks = m.spec.target.networks;
  placement_ref = m.spec.target.placement_ref;
  imported_disk = some (record {
    disk_id = m.status.import_id;
    path = d.target_path;
    format = d.target_format;
    source = "migration";
    migration_ref = m.name;
  });
  power_state = "";
  id = "";
  conditions = [];
}

-- The VM does not exist: it is created, unless the import left no disk information.
unfoldable pub create_target : TargetEnv → Migration → List Effect → Effected
unfolding transition_to_failed
create_target x m effects = elim m.status.disk_info [
  | none ↦
      fail_effected x.env
        "import did not record disk info (status.diskInfo is nil); cannot create target VM" m
        effects
  | some d ↦
      let called = vm_create (new_target_vm m d) ∷ effects in
      elim x.create [
        | some err ↦
            fail_effected x.env (sprintf ("Failed to create target VM: " ∷ err ∷ [])) m called
        | none ↦ (
          after_update x.env (requeue_after (10 * second)),
          record m {
            status = record (m.status) {
              message =
                  sprintf
                    ("Target VM " ∷ target_vm_name m ∷ " created, waiting for provisioning" ∷ []);
            };
          },
          called,
        )
      ]
]

-- The VM exists: the migration goes on when it has an ID and is Ready.
unfoldable pub await_target : TargetEnv → VirtualMachine → Migration → Outcome × Migration
await_target x vm m =
    if not (str_eq vm.id "") && is_condition_true vm.conditions "Ready"
    then (
      after_update x.env requeue,
      record m {
        status = record (m.status) {
          target_vm_id = vm.id;
          phase = validating_target;
          message = "Target VM ready, validating";
        };
      },
    )
    else (requeue_after (30 * second), m)

-- handleCreatingPhase
unfoldable pub handle_creating_phase : TargetEnv → Migration → List Effect → Effected
unfolding create_target await_target transition_to_failed
handle_creating_phase x m effects = elim x.target_vm [
  | found vm ↦ let (o, m') = await_target x vm m in (o, m', effects)
  | fetch_failed err ↦
      fail_effected x.env (sprintf ("Failed to check target VM: " ∷ err ∷ [])) m effects
  | missing ↦ create_target x m effects
]

status_text : ConditionStatus → String
status_text condition_true = "True"
status_text condition_false = "False"
status_text condition_unknown = "Unknown"

ready_status : VirtualMachine → String
unfolding status_text
ready_status vm = elim (get_condition vm.conditions "Ready") [
  | none ↦ "not set"
  | some c ↦ status_text c.status
]

-- The mark that protects the VM from being deleted with the migration
unfoldable pub mark_completed : String → VirtualMachine → VirtualMachine
mark_completed at vm = record vm {
  annotations =
      insert "virtrigaud.io/migration-completed-at" at
        (insert "virtrigaud.io/migration-completed" "true" vm.annotations);
}

-- The end of the migration, which marks the target VM whatever the update of it answers
unfoldable pub complete_migration : TargetEnv → VirtualMachine → Migration → List Effect → Effected
complete_migration x vm m effects = (
  after_update x.env done,
  record m {
    status = record (m.status) {
      target_vm_id = vm.id;
      phase = ready;
      message = "Migration completed successfully";
      completion_time = some x.env.now;
      conditions =
          set_condition x.env.now "Ready" condition_true "MigrationComplete"
            "VM migration completed successfully" m.status.conditions;
    };
  },
  vm_update (mark_completed x.completed_at vm) ∷ effects,
)

unfoldable pub validate_target : TargetEnv → VirtualMachine → Migration → List Effect → Effected
unfolding complete_migration ready_status
validate_target x vm m effects =
    if is_condition_true vm.conditions "Ready" then complete_migration x vm m effects else (
      after_update x.env (requeue_after (30 * second)),
      record m {
        status = record (m.status) {
          message = sprintf (
              "Waiting for target VM to be ready (current Ready condition: "
              ∷ ready_status vm
              ∷ ")"
              ∷ []);
        };
      },
      effects,
    )

-- handleValidatingTargetPhase; of a missing VM the error reads like any other.
unfoldable pub handle_validating_target_phase : TargetEnv → Migration → List Effect → Effected
unfolding validate_target complete_migration transition_to_failed
handle_validating_target_phase x m effects = elim x.target_vm [
  | found vm ↦ validate_target x vm m effects
  | missing ↦
      fail_effected x.env (sprintf ("Failed to get target VM: " ∷ "not found" ∷ [])) m effects
  | fetch_failed err ↦
      fail_effected x.env (sprintf ("Failed to get target VM: " ∷ err ∷ [])) m effects
]
