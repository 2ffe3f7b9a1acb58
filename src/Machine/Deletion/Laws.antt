-- ===== src/Machine/Deletion/Laws.antt =====
-- internal/controller/virtualmachine_controller.go: when handleDeletion lets a VM go.
use virtrigaud.Prelude.{
  ◌*◌, ◌≡◌, refl, ◌⊎◌, Bool, true, false, ◌||◌, String, List, [], ◌∷◌, none, some, str_eq, contains,
  if◌then◌else◌, arith, eq_iff, inl, inr,
}
use virtrigaud.Contracts.Errors.{GoError, is_not_found}
use virtrigaud.Migration.Types.{done, requeue_after, error}
use virtrigaud.Migration.Machines.{found, provider_key}
use virtrigaud.Migration.Exporting.{second}
use virtrigaud.Migration.Deletion.{without}
use virtrigaud.Machine.Types.{Machine}
use virtrigaud.Machine.Env.{
  MachineEnv, Host, DeleteAnswer, delete_begun, delete_refused, Call, call_create, call_power,
  call_reconfigure, call_delete, call_prepare, write_status, write_image_status, write_finalizers,
}
use virtrigaud.Machine.Deletion.{
  machine_finalizer, has_force_delete, remove_machine_finalizer, may_let_go, delete_on_provider,
  handle_machine_deletion,
}

-- Whether the finalizers are written
unfoldable pub writes_finalizers : List Call → Bool
writes_finalizers [] = false
writes_finalizers (write_finalizers _ ∷ calls) = true
writes_finalizers (call_create _ ∷ calls) = writes_finalizers calls
writes_finalizers (call_power _ _ ∷ calls) = writes_finalizers calls
writes_finalizers (call_reconfigure _ _ ∷ calls) = writes_finalizers calls
writes_finalizers (call_delete _ ∷ calls) = writes_finalizers calls
writes_finalizers (call_prepare _ ∷ calls) = writes_finalizers calls
writes_finalizers (write_status _ ∷ calls) = writes_finalizers calls
writes_finalizers (write_image_status _ ∷ calls) = writes_finalizers calls

-- Whether the VM of the ID is deleted on the provider
unfoldable pub deletes : String → List Call → Bool
deletes id [] = false
deletes id (call_delete other ∷ calls) = str_eq other id || deletes id calls
deletes id (write_finalizers _ ∷ calls) = deletes id calls
deletes id (call_create _ ∷ calls) = deletes id calls
deletes id (call_power _ _ ∷ calls) = deletes id calls
deletes id (call_reconfigure _ _ ∷ calls) = deletes id calls
deletes id (call_prepare _ ∷ calls) = deletes id calls
deletes id (write_status _ ∷ calls) = deletes id calls
deletes id (write_image_status _ ∷ calls) = deletes id calls

-- The provider accepts the deletion, be it that it is done or that a task for it has begun, or does not find
-- the VM.
unfoldable pub is_accepted : MachineEnv → String → Bool
is_accepted x id = elim (x.delete id) [
  | delete_begun task_ref ↦ true
  | delete_refused err ↦ is_not_found err
]

pub DeleteAnswer-cases :
    (a : DeleteAnswer)
    → ((t : String) × (a ≡ delete_begun t)) ⊎ ((err : GoError) × (a ≡ delete_refused err))
DeleteAnswer-cases (delete_begun t) = inl (t, refl)
DeleteAnswer-cases (delete_refused err) = inr (err, refl)

-- For a VM that has its finalizer and an ID and names a provider that is found and can be resolved: Delete
-- is called for its ID, and the finalizer is removed, by an update whose error is returned, exactly if the
-- provider accepts the Delete, though it may only have begun a task that nothing waits for, or does not
-- find the VM, or the VM is annotated to be deleted by force; otherwise the VM stays as it is and the
-- deletion is tried again after 15 seconds.
pub deletion_waits_for_provider :
    (x : MachineEnv) (vm : Machine) (p : Host)
    → contains vm.finalizers machine_finalizer ≡ true
    → str_eq vm.status.id "" ≡ false
    → str_eq vm.spec.provider_ref.name "" ≡ false
    → x.get_provider (provider_key vm.namespace vm.spec.provider_ref) ≡ found p
    → x.resolve p ≡ none
    → let (o, vm', calls) = handle_machine_deletion x vm in
      (deletes vm.status.id calls ≡ true)
      × (writes_finalizers calls ≡ (is_accepted x vm.status.id || has_force_delete vm))
      × (o ≡ (
          if is_accepted x vm.status.id || has_force_delete vm
          then (elim x.update [ none ↦ done | some err ↦ error err ])
          else requeue_after (15 * second)))
      × (vm' ≡ (
          if is_accepted x vm.status.id || has_force_delete vm
          then record vm { finalizers = without machine_finalizer vm.finalizers }
          else vm))
unfolding handle_machine_deletion delete_on_provider remove_machine_finalizer may_let_go
    writes_finalizers deletes is_accepted
deletion_waits_for_provider x vm p held named referred answered resolved =
    elim (DeleteAnswer-cases (x.delete vm.status.id)) [
      | inl (task_ref, accepted) ↦ ground (arith, eq_iff vm.status.id vm.status.id)
      | inr (err, refusal) ↦ ground (arith, eq_iff vm.status.id vm.status.id)
    ]

-- Only the VM's own ID is given to Delete.
pub deletes-own :
    (x : MachineEnv) (vm : Machine) (other : String)
    → str_eq vm.status.id other ≡ false
    → deletes other (handle_machine_deletion x vm).2 ≡ false
unfolding handle_machine_deletion delete_on_provider remove_machine_finalizer deletes
deletes-own x vm other differs = ground arith
