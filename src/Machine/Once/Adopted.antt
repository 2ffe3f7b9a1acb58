-- ===== src/Machine/Once/Adopted.antt =====
-- internal/controller/virtualmachine_controller.go: an adopted VM waits for its ID.
use virtrigaud.Prelude.{◌≡◌, refl, true, List, [], some, str_eq, arith, inl, inr, Option-cases}
use virtrigaud.Migration.Types.{Answer-cases}
use virtrigaud.Migration.Machines.{Fetched-cases, provider_key}
use virtrigaud.Machine.Types.{Machine, Image}
use virtrigaud.Machine.Env.{MachineEnv, Host, Call, Handled}
use virtrigaud.Machine.Dependencies.{
  Dependencies, Resolved-cases, get_dependencies, dependencies_failed,
}
use virtrigaud.Machine.Prepare.{proceed, in_flight, held, failed_with, Preparing, ensure_image}
use virtrigaud.Machine.Resources.{update_current_resources}
use virtrigaud.Machine.Running.{reconfigured}
use virtrigaud.Machine.Deletion.{
  handle_machine_deletion, delete_on_provider, remove_machine_finalizer,
}
use virtrigaud.Machine.Reconcile.{
  await_task, await_reconfigure, is_adopted, ensure_exists, after_prepare, with_image,
  prepare_and_run, with_dependencies, reconcile_vm, add_finalizer, reconcile_machine, clear_task,
  clear_reconfigure_task, and_then, observe_generation,
}
use virtrigaud.Machine.Once.{accepted}
use virtrigaud.Machine.Once.Stages.{ensure_image-accepted}

-- The provider has answered no Create.
abbrev CreatesNone : MachineEnv → Handled → Type 0
CreatesNone x (o, vm, calls) = accepted x calls ≡ 0

-- The VM is adopted, and has no ID yet.
record IsWaiting (vm : Machine) : Type 0 where
  adopted : is_adopted vm ≡ true
  unnamed : str_eq vm.status.id "" ≡ true

module _ (x : MachineEnv) (d : Dependencies) where
  ensure_exists-CreatesNone :
      (vm : Machine) (calls : List Call)
      → IsWaiting vm
      → accepted x calls ≡ 0
      → CreatesNone x (ensure_exists x d vm calls)
  unfolding ensure_exists accepted
  ensure_exists-CreatesNone vm calls waiting quiet =
      ground (arith, waiting.adopted, waiting.unnamed)

  await_reconfigure-CreatesNone :
      (vm : Machine) (calls : List Call)
      → IsWaiting vm
      → accepted x calls ≡ 0
      → CreatesNone x (and_then (await_reconfigure x d vm calls) (ensure_exists x d))
  unfolding await_reconfigure accepted is_adopted reconfigured update_current_resources
  await_reconfigure-CreatesNone vm calls waiting quiet =
      elim (Answer-cases (x.is_task_complete vm.status.reconfigure_task_ref)) [
        | inl (err, refusal) ↦ ground (arith, ensure_exists-CreatesNone vm calls waiting quiet)
        | inr (over, answer) ↦ ground (
          arith,
          ensure_exists-CreatesNone vm calls waiting quiet,
          ensure_exists-CreatesNone (clear_reconfigure_task (reconfigured x d vm)) calls
              (record { adopted = waiting.adopted; unnamed = waiting.unnamed }) quiet,
        )
      ]

  after_prepare-CreatesNone :
      (vm : Machine) (calls : List Call)
      → IsWaiting vm
      → accepted x calls ≡ 0
      → CreatesNone x (after_prepare x d vm calls)
  unfolding after_prepare await_task accepted is_adopted
  after_prepare-CreatesNone vm calls waiting quiet =
      elim (Answer-cases (x.is_task_complete vm.status.last_task_ref)) [
        | inl (err, refusal) ↦ ground (arith, await_reconfigure-CreatesNone vm calls waiting quiet)
        | inr (over, answer) ↦ ground (
          arith,
          await_reconfigure-CreatesNone vm calls waiting quiet,
          await_reconfigure-CreatesNone (clear_task vm) calls
              (record { adopted = waiting.adopted; unnamed = waiting.unnamed }) quiet,
        )
      ]

module _ (x : MachineEnv) (vm : Machine) (waiting : IsWaiting vm) where
  with_image-CreatesNone :
      (d : Dependencies) (i : Image) (after : Preparing)
      → accepted x after.2 ≡ 0
      → CreatesNone x (with_image x d i vm after)
  unfolding with_image accepted
  with_image-CreatesNone d i (proceed, i', calls) quiet =
      after_prepare-CreatesNone x (record d { image = some i' }) vm calls waiting quiet
  with_image-CreatesNone d i (in_flight, i', calls) quiet = ground arith
  with_image-CreatesNone d i (held, i', calls) quiet = ground arith
  with_image-CreatesNone d i (failed_with err, i', calls) quiet = ground arith

  prepare_and_run-CreatesNone : (d : Dependencies) → CreatesNone x (prepare_and_run x d vm)
  unfolding prepare_and_run accepted
  prepare_and_run-CreatesNone d = elim (Option-cases d.image) [
    | inl no_image ↦ ground (arith, after_prepare-CreatesNone x d vm [] waiting refl)
    | inr (i, e) ↦ ground (
      arith,
      with_image-CreatesNone d i (ensure_image x d.provider i [])
          (ensure_image-accepted x vm.status d.provider i),
    )
  ]

  with_dependencies-CreatesNone : (d : Dependencies) → CreatesNone x (with_dependencies x d vm)
  unfolding with_dependencies accepted
  with_dependencies-CreatesNone d = elim (Option-cases (x.resolve d.provider)) [
    | inl e ↦ ground (arith, prepare_and_run-CreatesNone d)
    | inr (err, e) ↦ ground arith
  ]

module _ (x : MachineEnv) (vm : Machine) where
  reconcile_vm-CreatesNone : IsWaiting vm → CreatesNone x (reconcile_vm x vm)
  unfolding reconcile_vm dependencies_failed accepted is_adopted
  reconcile_vm-CreatesNone waiting =
      elim (Resolved-cases (get_dependencies x (observe_generation vm))) [
        | inl (e, failure) ↦ ground arith
        | inr (d, success) ↦ ground (
          arith,
          with_dependencies-CreatesNone x (observe_generation vm)
              (record { adopted = waiting.adopted; unnamed = waiting.unnamed }) d,
        )
      ]

  delete_on_provider-CreatesNone : (p : Host) → CreatesNone x (delete_on_provider x p vm)
  unfolding delete_on_provider remove_machine_finalizer accepted
  delete_on_provider-CreatesNone p = elim (Option-cases (x.resolve p)) [
    | inl e ↦ ground arith
    | inr (err, e) ↦ ground arith
  ]

  deletion-CreatesNone : CreatesNone x (handle_machine_deletion x vm)
  unfolding handle_machine_deletion remove_machine_finalizer accepted
  deletion-CreatesNone =
      elim (Fetched-cases (x.get_provider (provider_key vm.namespace vm.spec.provider_ref))) [
        | inl (p, e) ↦ ground (arith, delete_on_provider-CreatesNone p)
        | inr (inl absent) ↦ ground arith
        | inr (inr (err, e)) ↦ ground arith
      ]

  -- While a VM is marked as adopted and has no ID, no reconcile of it has the provider create one.
  pub adopted_waits :
      is_adopted vm ≡ true
      → str_eq vm.status.id "" ≡ true
      → accepted x (reconcile_machine x vm).2 ≡ 0
  unfolding reconcile_machine add_finalizer accepted
  adopted_waits adopted unnamed = ground (
    arith,
    reconcile_vm-CreatesNone (record { adopted = adopted; unnamed = unnamed }),
    deletion-CreatesNone,
  )
