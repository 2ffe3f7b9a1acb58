-- ===== src/Machine/Once/History.antt =====
-- internal/controller/virtualmachine_controller.go: over any number of reconciles a VM is created once.
use virtrigaud.Prelude.{
  ◌+◌, ◌≤◌, ◌≡◌, refl, List, [], ◌∷◌, str_eq, arith, if◌then◌else◌, inl, inr, Option-cases,
}
use virtrigaud.Migration.Machines.{Fetched-cases, provider_key}
use virtrigaud.Machine.Types.{Machine}
use virtrigaud.Machine.Env.{MachineEnv, Host}
use virtrigaud.Machine.Dependencies.{Resolved-cases, get_dependencies, dependencies_failed}
use virtrigaud.Machine.Deletion.{
  handle_machine_deletion, delete_on_provider, remove_machine_finalizer,
}
use virtrigaud.Machine.Reconcile.{
  reconcile_vm, add_finalizer, reconcile_machine, observe_generation,
}
use virtrigaud.Machine.Once.{
  stored_status, accepted, owned, Round, edited, stored_after, calls_of, total_accepted,
}
use virtrigaud.Machine.Once.Owned.{IsSteady, Accounts}
use virtrigaud.Machine.Once.Stages.{with_dependencies-Accounts}

module _ (x : MachineEnv) (vm : Machine) where
  reconcile_vm-Accounts : IsSteady x → Accounts x vm.status (reconcile_vm x vm)
  unfolding reconcile_vm dependencies_failed stored_status accepted owned
  reconcile_vm-Accounts steady =
      elim (Resolved-cases (get_dependencies x (observe_generation vm))) [
        | inl (e, failure) ↦ ground arith
        | inr (d, success) ↦
            ground
              (arith, with_dependencies-Accounts x vm.status steady (observe_generation vm) refl d)
      ]

  delete_on_provider-Accounts : (p : Host) → Accounts x vm.status (delete_on_provider x p vm)
  unfolding delete_on_provider remove_machine_finalizer stored_status accepted owned
  delete_on_provider-Accounts p = elim (Option-cases (x.resolve p)) [
    | inl e ↦ ground arith
    | inr (err, e) ↦ ground arith
  ]

  deletion-Accounts : Accounts x vm.status (handle_machine_deletion x vm)
  unfolding handle_machine_deletion remove_machine_finalizer stored_status accepted owned
  deletion-Accounts =
      elim (Fetched-cases (x.get_provider (provider_key vm.namespace vm.spec.provider_ref))) [
        | inl (p, e) ↦ ground (arith, delete_on_provider-Accounts p)
        | inr (inl absent) ↦ ground arith
        | inr (inr (err, e)) ↦ ground arith
      ]

  reconcile_machine-Accounts : IsSteady x → Accounts x vm.status (reconcile_machine x vm)
  unfolding reconcile_machine add_finalizer stored_status accepted owned
  reconcile_machine-Accounts steady =
      ground (arith, reconcile_vm-Accounts steady, deletion-Accounts)

-- In every round the provider is steady.
abbrev pub AllSteady : List Round → Type 0
AllSteady [] = Unit
AllSteady (r ∷ rs) = IsSteady r.env × AllSteady rs

stored_after-owned :
    (r : Round) (vm : Machine)
    → IsSteady r.env
    → owned (stored_after r vm).status ≡ owned vm.status + accepted r.env (calls_of r vm)
unfolding stored_after calls_of edited
stored_after-owned r vm steady = reconcile_machine-Accounts r.env (edited r vm) steady

owned-le-one : (vm : Machine) → owned vm.status ≤ 1
unfolding owned
owned-le-one vm = ground arith

total-bound :
    (rs : List Round) (vm : Machine) → AllSteady rs → owned vm.status + total_accepted rs vm ≤ 1
unfolding total_accepted
total-bound [] vm steady = omega (arith, owned-le-one vm)
total-bound (r ∷ rs) vm steady =
    omega (arith, stored_after-owned r vm steady.0, total-bound rs (stored_after r vm) steady.1)

-- Over any rounds of reconciles, with whatever edits of the object's specification, labels and
-- annotations, deletion or answers of the API server and of the provider between and in them: if every
-- status write is stored, every Create that the provider answers gives an ID, and the provider never
-- reports the VM as gone, then the provider answers at most one Create in total, and none if the object
-- had an ID at first.
pub create_at_most_once :
    (rs : List Round) (vm : Machine)
    → AllSteady rs
    → total_accepted rs vm ≤ (if str_eq vm.status.id "" then 1 else 0)
unfolding owned
create_at_most_once rs vm steady = ground (arith, total-bound rs vm steady)
