-- ===== src/Machine/Reconcile.antt =====
-- internal/controller/virtualmachine_controller.go: Reconcile and reconcileVM, stage by stage.
pub mod Laws
use virtrigaud.Prelude.{
  ℕ, Bool, true, false, ◌&&◌, not, String, List, [], ◌∷◌, ◌++◌, Option, none, some, str_eq,
  contains, sprintf, if◌then◌else◌,
}
use virtrigaud.Prelude.Dict.{lookup}
use virtrigaud.K8s.Conditions.{ConditionStatus, condition_true, condition_false}
use virtrigaud.Migration.Types.{ObjectRef, Outcome, done, requeue, error, Answer, returned, refused}
use virtrigaud.Migration.Machines.{Fetched, found, missing, fetch_failed}
use virtrigaud.Machine.Types.{Machine, Image}
use virtrigaud.Machine.Env.{
  MachineEnv, Host, Call, write_finalizers, Handled, Stage, stopped, goes_on, stop_with,
  with_condition, write_and_requeue,
}
use virtrigaud.Machine.Dependencies.{
  Dependencies, DependencyError, resolved, unresolved, get_dependencies, dependencies_failed,
}
use virtrigaud.Machine.Prepare.{Ensured, proceed, in_flight, held, failed_with, ensure_image}
use virtrigaud.Machine.Creating.{create_vm}
use virtrigaud.Machine.Running.{reconfigured, check_existing}
use virtrigaud.Machine.Deletion.{handle_machine_deletion, machine_finalizer}

abbrev pub clear_task : Machine → Machine
clear_task vm = record vm { status = record (vm.status) { last_task_ref = "" } }

abbrev pub clear_reconfigure_task : Machine → Machine
clear_reconfigure_task vm = record vm { status = record (vm.status) { reconfigure_task_ref = "" } }

-- An active task is waited for.
unfoldable pub await_task : MachineEnv → Machine → List Call → Stage
await_task x vm calls =
    if str_eq vm.status.last_task_ref ""
    then goes_on vm calls
    else (elim (x.is_task_complete vm.status.last_task_ref) [
      | refused err ↦ stop_with (
          write_and_requeue 5
            (with_condition x "Provisioning" condition_false "ProviderError"
              (sprintf ("Failed to check task: " ∷ err ∷ [])) vm)
            calls)
      | returned false ↦ stop_with (
          write_and_requeue 5
            (with_condition x "Provisioning" condition_true "TaskInProgress" "Task in progress" vm)
            calls)
      | returned true ↦ goes_on (clear_task vm) calls
    ])

-- An active reconfigure task is waited for, and its resources are recorded when it is over.
unfoldable pub await_reconfigure : MachineEnv → Dependencies → Machine → List Call → Stage
await_reconfigure x d vm calls =
    if str_eq vm.status.reconfigure_task_ref ""
    then goes_on vm calls
    else (elim (x.is_task_complete vm.status.reconfigure_task_ref) [
      | refused err ↦ stop_with (
          write_and_requeue 5
            (with_condition x "Reconfiguring" condition_false "ProviderError"
              (sprintf ("Failed to check reconfigure task: " ∷ err ∷ [])) vm)
            calls)
      | returned false ↦ stop_with (
          write_and_requeue 5
            (with_condition x "Reconfiguring" condition_true "TaskInProgress"
              "Reconfiguration in progress" vm)
            calls)
      | returned true ↦ goes_on (clear_reconfigure_task (reconfigured x d vm)) calls
    ])

-- vmIsAdopted
unfoldable pub is_adopted : Machine → Bool
is_adopted vm = elim (lookup "virtrigaud.io/adopted" vm.labels) [
  | none ↦ false
  | some v ↦ str_eq v "true"
]

-- The VM is created, waited for, or checked.
unfoldable pub ensure_exists : MachineEnv → Dependencies → Machine → List Call → Handled
unfolding is_adopted
ensure_exists x d vm calls =
    if not (str_eq vm.status.id "")
    then check_existing x d vm calls
    else if is_adopted vm
    then write_and_requeue 5
        (with_condition x "Provisioning" condition_true "WaitingForDependencies"
          "Waiting for adoption/clone controller to set Status.ID" vm)
        calls
    else create_vm x d vm calls

abbrev pub and_then : Stage → (Machine → List Call → Handled) → Handled
and_then (stopped o vm calls) next = (o, vm, calls)
and_then (goes_on vm calls) next = next vm calls

-- The tasks come before the VM itself.
unfoldable pub after_prepare : MachineEnv → Dependencies → Machine → List Call → Handled
unfolding await_task await_reconfigure
after_prepare x d vm calls =
    and_then (await_task x vm calls)
      λ vm' calls'. and_then (await_reconfigure x d vm' calls') (ensure_exists x d)

-- What reconcileVM does about an image that may have to be prepared
unfoldable pub with_image :
    MachineEnv → Dependencies → Image → Machine → Ensured × Image × List Call → Handled
unfolding after_prepare
with_image x d i vm (proceed, i', calls) = after_prepare x (record d { image = some i' }) vm calls
with_image x d i vm (held, i', calls) =
    write_and_requeue 5
      (with_condition x "Ready" condition_false "WaitingForDependencies"
        (sprintf ("Image " ∷ i.name ∷ " not prepared on provider " ∷ d.provider.name ∷ [])) vm)
      calls
with_image x d i vm (failed_with err, i', calls) =
    write_and_requeue 5
      (with_condition x "Ready" condition_false "ProviderError"
        (sprintf ("Image prepare failed: " ∷ err ∷ [])) vm)
      calls
with_image x d i vm (in_flight, i', calls) =
    write_and_requeue 5
      (with_condition x "Provisioning" condition_true "TaskInProgress"
        (sprintf ("Preparing image " ∷ i.name ∷ " on provider " ∷ d.provider.name ∷ [])) vm)
      calls

unfoldable pub prepare_and_run : MachineEnv → Dependencies → Machine → Handled
unfolding after_prepare with_image ensure_image
prepare_and_run x d vm = elim d.image [
  | none ↦ after_prepare x d vm []
  | some i ↦ with_image x d i vm (ensure_image x d.provider i [])
]

-- The dependencies are there: the provider is resolved.
unfoldable pub with_dependencies : MachineEnv → Dependencies → Machine → Handled
unfolding prepare_and_run
with_dependencies x d vm = elim (x.resolve d.provider) [
  | some err ↦
      write_and_requeue 5 (with_condition x "Ready" condition_false "ProviderError" err vm) []
  | none ↦ prepare_and_run x d vm
]

abbrev pub observe_generation : Machine → Machine
observe_generation vm = record vm {
  status = record (vm.status) { observed_generation = vm.generation };
}

-- reconcileVM
unfoldable pub reconcile_vm : MachineEnv → Machine → Handled
unfolding get_dependencies dependencies_failed with_dependencies
reconcile_vm x vm =
    let vm' = observe_generation vm in
    elim (get_dependencies x vm') [
      | unresolved e ↦ dependencies_failed x vm' e
      | resolved d ↦ with_dependencies x d vm'
    ]

unfoldable pub add_finalizer : MachineEnv → Machine → Handled
add_finalizer x vm =
    let vm' = record vm { finalizers = vm.finalizers ++ machine_finalizer ∷ [] } in
    (
      (elim x.update [ none ↦ requeue | some err ↦ error err ]),
      vm',
      write_finalizers vm'.finalizers ∷ [],
    )

-- Reconcile, of a VM that was found
unfoldable pub reconcile_machine : MachineEnv → Machine → Handled
unfolding handle_machine_deletion reconcile_vm add_finalizer
reconcile_machine x vm = elim vm.deletion_timestamp [
  | some _ ↦ handle_machine_deletion x vm
  | none ↦
      if contains vm.finalizers machine_finalizer then reconcile_vm x vm else add_finalizer x vm
]

-- Reconcile, by the answer of the first Get
unfoldable pub reconcile_request :
    MachineEnv → Fetched Machine → Outcome × Option Machine × List Call
unfolding reconcile_machine
reconcile_request x missing = (done, none, [])
reconcile_request x (fetch_failed err) = (error err, none, [])
reconcile_request x (found vm) =
    let (o, vm', calls) = reconcile_machine x vm in (o, some vm', calls)
