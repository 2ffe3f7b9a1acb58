-- ===== src/Cloning/Tests.antt =====
-- The VMClone controller at concrete inputs.
use virtrigaud.Prelude.{
  ◌≡◌, ◌≢◌, ◌≤◌, ◌⊎◌, refl, true, false, List, [], ◌∷◌, none, some, str_eq, if◌then◌else◌,
}
use virtrigaud.Migration.Types.{returned, refused}
use virtrigaud.Migration.Machines.{found, missing, provider_key}
use virtrigaud.Machine.Reconcile.{reconcile_machine}
use virtrigaud.Machine.Once.{accepted}
use virtrigaud.Machine.Samples.{answers, kvm, running_machine}
use virtrigaud.Cloning.Types.{VmClone, CloneEnv, CloneStatus, CloneSpec, created}
use virtrigaud.Cloning.Target.{build_target_vm}
use virtrigaud.Cloning.Binding.{poll_clone_task}
use virtrigaud.Cloning.Reconcile.{clone_finalizer, reconcile_clone}
use virtrigaud.Cloning.Once.{total_clones, CloneRound, GivesTarget}
use virtrigaud.Cloning.Once.History.{clone_at_most_once}
use virtrigaud.Cloning.Once.Failing.{after_poll, all_calls, failed_poll_is_final}
use virtrigaud.Machine.Types.{Machine}
use virtrigaud.Cloning.Laws.{cloned_target_waits, target_provider_elsewhere}

abbrev new_clone_status : CloneStatus
new_clone_status = record {
  phase = "";
  message = "";
  observed_generation = 0;
  task_ref = "";
  target_vm_id = "";
  target_ref = none;
  actual_clone_type = "";
  start_time = none;
  completion_time = none;
  conditions = [];
}

abbrev clone_spec : CloneSpec
clone_spec = record {
  source_vm = some "vm1";
  target = record {
    name = "vm2";
    namespace = "prod";
    labels = ("virtrigaud.io/adopted", "false") ∷ [];
    annotations = [];
    class_ref = none;
    networks = [];
    placement_ref = none;
  };
  clone_type = none;
  customized = false;
}

abbrev new_clone : VmClone
new_clone = record {
  name = "clone1";
  namespace = "default";
  generation = 1;
  deletion_timestamp = none;
  finalizers = clone_finalizer ∷ [];
  spec = clone_spec;
  status = new_clone_status;
}

-- Of the VMs only those of the namespace `default` are there.
abbrev clone_answers : CloneEnv
clone_answers = record {
  now = 7;
  get_vm = λ key. if str_eq key.namespace "default" then found running_machine else missing;
  get_provider = λ _. found kvm;
  resolve = λ _. none;
  linked_clones = none;
  implements_clone = true;
  class_json = λ _. "";
  placement_json = λ _. "";
  customize_json = λ _. "";
  clone = λ _. returned (record { target_vm_id = "id-2"; task_ref = "task-1" });
  is_task_complete = λ _. returned true;
  create_vm = λ _. created;
  latest_target = returned (build_target_vm new_clone running_machine "prod");
  update_status = λ _. none;
  update = none;
}

abbrev clone_round : CloneRound
clone_round = record {
  env = clone_answers;
  spec = clone_spec;
  generation = 1;
  finalizers = clone_finalizer ∷ [];
  deletion_timestamp = none;
}

abbrev rounds : List CloneRound
rounds = clone_round ∷ clone_round ∷ []

clone_answers-GivesTarget : GivesTarget clone_answers
clone_answers-GivesTarget request r e = cc

-- The clone is issued in the first round, and bound in the second.
cloned_once : total_clones rounds new_clone ≡ 1
unfolding total_clones reconcile_clone
cloned_once = refl

clone_at_most_once_example :
    total_clones rounds new_clone ≤ (if str_eq new_clone.status.target_vm_id "" then 1 else 0)
clone_at_most_once_example =
    clone_at_most_once rounds new_clone (clone_answers-GivesTarget, (clone_answers-GivesTarget, tt))

cloned_target_waits_example :
    accepted answers
      (reconcile_machine answers (build_target_vm new_clone running_machine "prod")).2
    ≡ 0
unfolding build_target_vm
cloned_target_waits_example =
    cloned_target_waits answers new_clone running_machine "prod"
      (build_target_vm new_clone running_machine "prod") refl refl

-- A VM of the name `vm1` is there, with an ID of its own.
abbrev foreign_answers : CloneEnv
foreign_answers = record clone_answers {
  get_vm = λ _. found running_machine;
  latest_target = returned running_machine;
}

-- The VM as the clone leaves it
abbrev bound_machine : Machine
bound_machine = record running_machine { status = record (running_machine.status) { id = "id-2" } }

target_provider_elsewhere_example :
    let target = build_target_vm new_clone running_machine "prod" in
    provider_key target.namespace target.spec.provider_ref
    ≢ provider_key running_machine.namespace running_machine.spec.provider_ref
target_provider_elsewhere_example =
    target_provider_elsewhere new_clone running_machine "prod" refl (λ e. cc)

abbrev unreachable : CloneEnv
unreachable = record clone_answers { is_task_complete = λ _. refused "unavailable" }

failed_poll_is_final_example :
    let polled = (poll_clone_task unreachable running_machine "prod" new_clone []).1 in
    let c' = after_poll unreachable running_machine "prod" new_clone in
    ((unreachable.update_status polled.status ≢ none) × (c' ≡ new_clone))
    ⊎ ((unreachable.update_status polled.status ≡ none)
        × (c'.status.phase ≡ "Failed")
        × (c'.status.task_ref ≡ "")
        × (all_calls rounds c' ≡ []))
failed_poll_is_final_example =
    failed_poll_is_final unreachable running_machine "prod" "unavailable" new_clone rounds refl
      (refl, refl, (refl, refl, tt))
