-- ===== src/Machine/Once/Stages.antt =====
-- The equation of the stored ID through the stages of a reconcile.
use virtrigaud.Prelude.{◌≡◌, refl, String, List, [], some, arith, inl, inr, Option-cases}
use virtrigaud.Migration.Types.{Answer-cases}
use virtrigaud.Machine.Types.{Machine, MachineStatus, Image, ImageStatus}
use virtrigaud.Machine.Env.{MachineEnv, Host, Call}
use virtrigaud.Machine.Dependencies.{Dependencies}
use virtrigaud.Machine.Prepare.{
  Ensured, proceed, in_flight, held, failed_with, Preparing, write_image, poll_prepare,
  trigger_prepare, prepare_missing, ensure_image,
}
use virtrigaud.Machine.Resources.{update_current_resources}
use virtrigaud.Machine.Running.{reconfigured}
use virtrigaud.Machine.Reconcile.{
  await_task, await_reconfigure, ensure_exists, after_prepare, with_image, prepare_and_run,
  with_dependencies, clear_task, clear_reconfigure_task, and_then,
}
use virtrigaud.Machine.Once.{stored_status, accepted, owned}
use virtrigaud.Machine.Once.Owned.{
  IsSteady, Accounts, IsFresh, create_vm-Accounts, check_existing-Accounts,
}

-- The preparation of an image neither creates a VM nor writes the status of one.
abbrev IsQuiet : MachineEnv → MachineStatus → Preparing → Type 0
IsQuiet x old (e, i, calls) = (stored_status old calls ≡ old) × (accepted x calls ≡ 0)

module _ (x : MachineEnv) (old : MachineStatus) where
  write_image-IsQuiet :
      (mutate : Image → ImageStatus) (after : Ensured) (i : Image) (calls : List Call)
      → stored_status old calls ≡ old
      → accepted x calls ≡ 0
      → IsQuiet x old (write_image x mutate after i calls)
  unfolding write_image stored_status accepted
  write_image-IsQuiet mutate after i calls same none_accepted = elim (Answer-cases x.latest_image) [
    | inl (err, refusal) ↦ ground arith
    | inr (latest, answer) ↦ ground arith
  ]

  poll_prepare-IsQuiet : (name : String) (i : Image) → IsQuiet x old (poll_prepare x name i [])
  unfolding poll_prepare stored_status accepted
  poll_prepare-IsQuiet name i = elim (Answer-cases (x.is_task_complete i.status.prepare_task_ref)) [
    | inl (err, refusal) ↦ ground arith
    | inr (over, answer) ↦ ground arith
  ]

  trigger_prepare-IsQuiet :
      (name : String) (i : Image) → IsQuiet x old (trigger_prepare x name i [])
  unfolding trigger_prepare stored_status accepted
  trigger_prepare-IsQuiet name i = elim (Option-cases x.image_json) [
    | inr (err, e) ↦ ground arith
    | inl e ↦ elim (Answer-cases (x.prepare i.name)) [
      | inl (err, refusal) ↦ ground arith
      | inr (r, answer) ↦ ground arith
    ]
  ]

  ensure_image-IsQuiet : (p : Host) (i : Image) → IsQuiet x old (ensure_image x p i [])
  unfolding ensure_image prepare_missing stored_status accepted
  ensure_image-IsQuiet p i =
      ground (arith, poll_prepare-IsQuiet p.name i, trigger_prepare-IsQuiet p.name i)

  pub ensure_image-accepted : (p : Host) (i : Image) → accepted x (ensure_image x p i []).2 ≡ 0
  ensure_image-accepted p i = (ensure_image-IsQuiet p i).1

  module _ (d : Dependencies) (steady : IsSteady x) where
    ensure_exists-Accounts :
        (vm : Machine) (calls : List Call)
        → IsFresh x old vm calls
        → Accounts x old (ensure_exists x d vm calls)
    unfolding ensure_exists stored_status accepted owned
    ensure_exists-Accounts vm calls fresh = ground (
      arith,
      check_existing-Accounts x old d vm calls fresh steady,
      create_vm-Accounts x old d vm calls fresh steady,
    )

    await_reconfigure-Accounts :
        (vm : Machine) (calls : List Call)
        → IsFresh x old vm calls
        → Accounts x old (and_then (await_reconfigure x d vm calls) (ensure_exists x d))
    unfolding await_reconfigure reconfigured update_current_resources stored_status accepted owned
    await_reconfigure-Accounts vm calls fresh =
        elim (Answer-cases (x.is_task_complete vm.status.reconfigure_task_ref)) [
          | inl (err, refusal) ↦ ground (arith, ensure_exists-Accounts vm calls fresh)
          | inr (over, answer) ↦ ground (
            arith,
            ensure_exists-Accounts vm calls fresh,
            ensure_exists-Accounts (clear_reconfigure_task (reconfigured x d vm)) calls (record {
              same_id = fresh.same_id;
              same_status = fresh.same_status;
              none_accepted = fresh.none_accepted;
            }),
          )
        ]

    after_prepare-Accounts :
        (vm : Machine) (calls : List Call)
        → IsFresh x old vm calls
        → Accounts x old (after_prepare x d vm calls)
    unfolding after_prepare await_task stored_status accepted owned
    after_prepare-Accounts vm calls fresh =
        elim (Answer-cases (x.is_task_complete vm.status.last_task_ref)) [
          | inl (err, refusal) ↦ ground (arith, await_reconfigure-Accounts vm calls fresh)
          | inr (over, answer) ↦ ground (
            arith,
            await_reconfigure-Accounts vm calls fresh,
            await_reconfigure-Accounts (clear_task vm) calls (record {
              same_id = fresh.same_id;
              same_status = fresh.same_status;
              none_accepted = fresh.none_accepted;
            }),
          )
        ]

  module _ (steady : IsSteady x) (vm : Machine) (same : vm.status.id ≡ old.id) where
    with_image-Accounts :
        (d : Dependencies) (i : Image) (after : Preparing)
        → IsQuiet x old after
        → Accounts x old (with_image x d i vm after)
    unfolding with_image stored_status accepted owned
    with_image-Accounts d i (proceed, i', calls) quiet =
        after_prepare-Accounts (record d { image = some i' }) steady vm calls
          (record { same_id = same; same_status = quiet.0; none_accepted = quiet.1 })
    with_image-Accounts d i (in_flight, i', calls) quiet = ground arith
    with_image-Accounts d i (held, i', calls) quiet = ground arith
    with_image-Accounts d i (failed_with err, i', calls) quiet = ground arith

    prepare_and_run-Accounts : (d : Dependencies) → Accounts x old (prepare_and_run x d vm)
    unfolding prepare_and_run stored_status accepted owned
    prepare_and_run-Accounts d = elim (Option-cases d.image) [
      | inl no_image ↦ ground (
        arith,
        after_prepare-Accounts d steady vm []
            (record { same_id = same; same_status = refl; none_accepted = refl }),
      )
      | inr (i, e) ↦ ground (
        arith,
        with_image-Accounts d i (ensure_image x d.provider i [])
            (ensure_image-IsQuiet d.provider i),
      )
    ]

    pub with_dependencies-Accounts : (d : Dependencies) → Accounts x old (with_dependencies x d vm)
    unfolding with_dependencies stored_status accepted owned
    with_dependencies-Accounts d = elim (Option-cases (x.resolve d.provider)) [
      | inl e ↦ ground (arith, prepare_and_run-Accounts d)
      | inr (err, e) ↦ ground arith
    ]
