-- ===== src/Machine/Deletion.antt =====
-- internal/controller/virtualmachine_controller.go: handleDeletion.
pub mod Laws
pub mod Reasons
use virtrigaud.Prelude.{
  ℕ, ◌*◌, Bool, true, false, ◌&&◌, ◌||◌, not, String, List, [], ◌∷◌, Option, none, some, str_eq,
  contains, if◌then◌else◌,
}
use virtrigaud.Prelude.Dict.{lookup}
use virtrigaud.Contracts.Errors.{is_not_found}
use virtrigaud.Migration.Types.{ObjectRef, Outcome, done, requeue_after, error}
use virtrigaud.Migration.Machines.{Fetched, found, missing, fetch_failed, provider_key}
use virtrigaud.Migration.Exporting.{second}
use virtrigaud.Migration.Deletion.{without}
use virtrigaud.Machine.Types.{Machine}
use virtrigaud.Machine.Env.{
  MachineEnv, Host, DeleteAnswer, delete_begun, delete_refused, Call, call_delete, write_finalizers,
  Handled,
}

abbrev pub machine_finalizer : String
machine_finalizer = "virtualmachine.infra.virtrigaud.io/finalizer"

-- hasForceDeleteAnnotation
unfoldable pub has_force_delete : Machine → Bool
has_force_delete vm = elim (lookup "virtrigaud.io/force-delete" vm.annotations) [
  | none ↦ false
  | some v ↦ str_eq v "true"
]

-- The finalizer is removed, if it is there.
unfoldable pub remove_machine_finalizer : MachineEnv → Machine → List Call → Handled
remove_machine_finalizer x vm calls =
    if not (contains vm.finalizers machine_finalizer) then (done, vm, calls) else (
      (elim x.update [ none ↦ done | some err ↦ error err ]),
      record vm { finalizers = without machine_finalizer vm.finalizers },
      write_finalizers (without machine_finalizer vm.finalizers) ∷ calls,
    )

-- Whether the finalizer may go after what the provider's Delete has answered. A task that Delete has begun is
-- only logged: it is not awaited, and its reference is not kept.
unfoldable pub may_let_go : Machine → DeleteAnswer → Bool
unfolding has_force_delete
may_let_go vm (delete_begun task_ref) = true
may_let_go vm (delete_refused err) = is_not_found err || has_force_delete vm

-- The provider is asked to delete its VM, if it can be resolved.
unfoldable pub delete_on_provider : MachineEnv → Host → Machine → Handled
unfolding remove_machine_finalizer may_let_go
delete_on_provider x p vm = elim (x.resolve p) [
  | some err ↦ remove_machine_finalizer x vm []
  | none ↦
      let called = call_delete vm.status.id ∷ [] in
      if may_let_go vm (x.delete vm.status.id)
      then remove_machine_finalizer x vm called
      else (requeue_after (15 * second), vm, called)
]

-- handleDeletion
unfoldable pub handle_machine_deletion : MachineEnv → Machine → Handled
unfolding remove_machine_finalizer delete_on_provider
handle_machine_deletion x vm =
    if not (contains vm.finalizers machine_finalizer)
    then (done, vm, [])
    else if str_eq vm.status.id "" || str_eq vm.spec.provider_ref.name ""
    then remove_machine_finalizer x vm []
    else (elim (x.get_provider (provider_key vm.namespace vm.spec.provider_ref)) [
      | fetch_failed err ↦ (requeue_after (5 * second), vm, [])
      | missing ↦ remove_machine_finalizer x vm []
      | found p ↦ delete_on_provider x p vm
    ])
