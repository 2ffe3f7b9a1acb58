-- ===== src/Machine/Deletion/Reasons.antt =====
-- internal/controller/virtualmachine_controller.go: the reasons for which handleDeletion removes a VM's
-- finalizer.
use virtrigaud.Prelude.{◌*◌, ◌≡◌, ◌⊎◌, true, false, String, some, none, str_eq}
use virtrigaud.Contracts.Errors.{GoError, is_not_found}
use virtrigaud.Migration.Types.{requeue_after}
use virtrigaud.Migration.Machines.{found, missing, provider_key}
use virtrigaud.Migration.Exporting.{second}
use virtrigaud.Machine.Types.{Machine}
use virtrigaud.Machine.Env.{MachineEnv, Host, delete_begun, delete_refused}
use virtrigaud.Machine.Deletion.{has_force_delete, handle_machine_deletion}
use virtrigaud.Machine.Deletion.Laws.{writes_finalizers}

-- Why the finalizer of a VM may be removed: nothing was ever created; the provider is not there; it cannot
-- be resolved, so that Delete is not even called; Delete was called and accepted, which may only mean that
-- a task was begun; it did not find the VM; or it failed and the deletion is forced.
pub data LetGo (x : MachineEnv) (vm : Machine) : Type 0 where
  no_id : str_eq vm.status.id "" ≡ true → LetGo x vm
  no_provider : str_eq vm.spec.provider_ref.name "" ≡ true → LetGo x vm
  provider_missing :
      x.get_provider (provider_key vm.namespace vm.spec.provider_ref) ≡ missing → LetGo x vm
  unresolved :
      (p : Host) (err : String)
      → x.get_provider (provider_key vm.namespace vm.spec.provider_ref) ≡ found p
      → x.resolve p ≡ some err
      → LetGo x vm
  begun :
      (p : Host) (task_ref : String)
      → x.get_provider (provider_key vm.namespace vm.spec.provider_ref) ≡ found p
      → x.resolve p ≡ none
      → x.delete vm.status.id ≡ delete_begun task_ref
      → LetGo x vm
  absent :
      (p : Host) (err : GoError)
      → x.get_provider (provider_key vm.namespace vm.spec.provider_ref) ≡ found p
      → x.resolve p ≡ none
      → x.delete vm.status.id ≡ delete_refused err
      → is_not_found err ≡ true
      → LetGo x vm
  forced :
      (p : Host) (err : GoError)
      → x.get_provider (provider_key vm.namespace vm.spec.provider_ref) ≡ found p
      → x.resolve p ≡ none
      → x.delete vm.status.id ≡ delete_refused err
      → has_force_delete vm ≡ true
      → LetGo x vm

module _ (x : MachineEnv) (vm : Machine) where
  -- How a deletion leaves the VM
  abbrev Settled : Type 0
  Settled =
      let (o, vm', calls) = handle_machine_deletion x vm in
      ((writes_finalizers calls ≡ true) × LetGo x vm)
      ⊎ ((writes_finalizers calls ≡ false)
          × (vm' ≡ vm)
          × ((o ≡ requeue_after (5 * second)) ⊎ (o ≡ requeue_after (15 * second))))
