-- ===== src/Migration/Reconcile/Retries.antt =====
-- vmmigration_controller.go: no reconcile but the retry of a failed migration touches the number of
-- retries or the specification.
use virtrigaud.Prelude.{◌≡◌, arith, inl, inr, String, List, ◌∷◌}
use virtrigaud.Migration.Types.{Migration, Answer-cases, Provider, ImportRequest}
use virtrigaud.Migration.Guard.{Manager}
use virtrigaud.Migration.Failed.{transition_to_failed}
use virtrigaud.Migration.Machines.{Effect, patch_power_off, VirtualMachine, provider_key}
use virtrigaud.Migration.PowerOff.{
  ValidatingEnv, poll_power, describe_power, align_power, ensure_source_powered_off,
}
use virtrigaud.Migration.Validating.{
  power_and_finish, finish_validation, wait_validating, await_mount, prepare_pvc, prepare_backend,
  validate_storage, validate_providers, find_providers, handle_validating_phase,
  source_provider_ref,
}
use virtrigaud.Migration.Snapshotting.{
  SnapshotEnv, handle_snapshotting_phase, reach_provider, make_snapshot, note_snapshot,
  to_exporting,
}
use virtrigaud.Migration.Exporting.{
  ExportEnv, handle_exporting_phase, guarded_export, prepare_export, claim_and_export, issue_export,
  after_export, finish_task, advance, note_export,
}
use virtrigaud.Migration.Importing.{
  ImportEnv, handle_importing_phase, guarded_import, prepare_import, claim_and_import, issue_import,
  after_import, note_import, finish_import_task, advance_to_creating, prepared,
}
use virtrigaud.Migration.Creating.{
  TargetEnv, handle_creating_phase, create_target, await_target, handle_validating_target_phase,
  validate_target, complete_migration,
}

-- The same number of retries and the same specification
abbrev pub KeepsRetries : Migration → Migration → Type 0
KeepsRetries m m' = (m'.status.retry_count ≡ m.status.retry_count) × (m'.spec ≡ m.spec)

module _ (x : ValidatingEnv) (effects : List Effect) where
  poll-KeepsRetries :
      (id state : String) (m : Migration) (es : List Effect)
      → KeepsRetries m (poll_power x id state m es).1
  unfolding poll_power
  poll-KeepsRetries id state m es = (ground arith, ground arith)

  describe-KeepsRetries :
      (vm : VirtualMachine) (m : Migration) (es : List Effect)
      → KeepsRetries m (describe_power x vm m es).1
  unfolding describe_power
  describe-KeepsRetries vm m es = elim (Answer-cases x.describe) [
    | inl (err, e) ↦ (ground arith, ground arith)
    | inr (state, e) ↦ (
      ground (arith, poll-KeepsRetries vm.id state m es),
      ground (arith, poll-KeepsRetries vm.id state m es),
    )
  ]

  ensure-KeepsRetries : (m : Migration) → KeepsRetries m (ensure_source_powered_off x m effects).1
  unfolding ensure_source_powered_off align_power
  ensure-KeepsRetries m = elim (Answer-cases x.power_vm) [
    | inl (err, e) ↦ (ground arith, ground arith)
    | inr (vm, e) ↦
        let near = describe-KeepsRetries vm m effects in
        let far = describe-KeepsRetries vm m (patch_power_off vm.name ∷ effects) in
        (ground (arith, near, far), ground (arith, near, far))
  ]

  power-KeepsRetries : (m : Migration) → KeepsRetries m (power_and_finish x m effects).1
  unfolding power_and_finish finish_validation transition_to_failed
  power-KeepsRetries m =
      let known = ensure-KeepsRetries m in (ground (arith, known), ground (arith, known))

  mount-KeepsRetries :
      (source target : Provider) (pvc : String) (m : Migration)
      → KeepsRetries m (await_mount x source target pvc m effects).1
  unfolding await_mount transition_to_failed wait_validating
  mount-KeepsRetries source target pvc m =
      let known = power-KeepsRetries m in (ground (arith, known), ground (arith, known))

  pvc-KeepsRetries :
      (source target : Provider) (m : Migration)
      → KeepsRetries m (prepare_pvc x source target m effects).1
  unfolding prepare_pvc transition_to_failed
  pvc-KeepsRetries source target m = elim (Answer-cases x.migration_pvc) [
    | inl (err, e) ↦ (ground arith, ground arith)
    | inr (pvc, e) ↦
        let named = record m { status = record (m.status) { storage_pvc_name = pvc } } in
        let near = mount-KeepsRetries source target pvc m in
        let far = mount-KeepsRetries source target pvc named in
        (ground (arith, near, far), ground (arith, near, far))
  ]

  storage-KeepsRetries :
      (source target : Provider) (m : Migration)
      → KeepsRetries m (validate_storage x source target m effects).1
  unfolding validate_storage prepare_backend transition_to_failed
  storage-KeepsRetries source target m =
      let near = power-KeepsRetries m in
      let far = pvc-KeepsRetries source target m in
      (ground (arith, near, far), ground (arith, near, far))

  providers-KeepsRetries :
      (source target : Provider) (m : Migration)
      → KeepsRetries m (validate_providers x source target m effects).1
  unfolding validate_providers transition_to_failed wait_validating
  providers-KeepsRetries source target m =
      let known = storage-KeepsRetries source target m in
      (ground (arith, known), ground (arith, known))

  find-KeepsRetries :
      (vm : VirtualMachine) (m : Migration) → KeepsRetries m (find_providers x vm m effects).1
  unfolding find_providers transition_to_failed
  find-KeepsRetries vm m =
      elim (Answer-cases (x.get_provider (provider_key m.namespace (source_provider_ref m vm)))) [
        | inl (err, e) ↦ (ground arith, ground arith)
        | inr (source, e) ↦
            (elim (Answer-cases
              (x.get_provider (provider_key m.namespace m.spec.target.provider_ref))) [
                | inl (err, f) ↦ (ground arith, ground arith)
                | inr (target, f) ↦
                    let known = providers-KeepsRetries source target m in
                    (ground (arith, known), ground (arith, known))
              ])
      ]

  pub validating-KeepsRetries :
      (m : Migration) → KeepsRetries m (handle_validating_phase x m effects).1
  unfolding handle_validating_phase transition_to_failed wait_validating
  validating-KeepsRetries m = elim (Answer-cases x.source_vm) [
    | inl (err, e) ↦ (ground arith, ground arith)
    | inr (vm, e) ↦
        let known = find-KeepsRetries vm m in (ground (arith, known), ground (arith, known))
  ]

pub snapshotting-KeepsRetries :
    (x : SnapshotEnv) (m : Migration) (effects : List Effect)
    → KeepsRetries m (handle_snapshotting_phase x m effects).1
unfolding handle_snapshotting_phase reach_provider make_snapshot note_snapshot to_exporting
    transition_to_failed
snapshotting-KeepsRetries x m effects = (ground arith, ground arith)

pub exporting-KeepsRetries :
    (x : ExportEnv) (m : Migration) (mgr : Manager)
    → KeepsRetries m (handle_exporting_phase x m mgr).1
unfolding handle_exporting_phase guarded_export prepare_export claim_and_export issue_export
    after_export finish_task advance note_export transition_to_failed
exporting-KeepsRetries x m mgr = (ground arith, ground arith)

module _ (x : ImportEnv) (target : Provider) (m : Migration) (mgr : Manager) where
  claimed-KeepsRetries :
      (req : ImportRequest) → KeepsRetries m (claim_and_import x target req m mgr).1
  unfolding claim_and_import issue_import after_import note_import advance_to_creating
      transition_to_failed
  claimed-KeepsRetries req = (ground arith, ground arith)

  begun-KeepsRetries : KeepsRetries m (prepare_import x target m mgr).1
  unfolding prepare_import transition_to_failed
  begun-KeepsRetries = elim (Answer-cases (prepared x m)) [
    | inl (message, e) ↦ (ground arith, ground arith)
    | inr (req, e) ↦
        let known = claimed-KeepsRetries req in (ground (arith, known), ground (arith, known))
  ]

  finished-KeepsRetries : KeepsRetries m (finish_import_task x m mgr).1
  unfolding finish_import_task advance_to_creating transition_to_failed
  finished-KeepsRetries = (ground arith, ground arith)

  guarded-KeepsRetries : KeepsRetries m (guarded_import x target m mgr).1
  unfolding guarded_import advance_to_creating
  guarded-KeepsRetries = (
    ground (arith, begun-KeepsRetries, finished-KeepsRetries),
    ground (arith, begun-KeepsRetries, finished-KeepsRetries),
  )

pub importing-KeepsRetries :
    (x : ImportEnv) (m : Migration) (mgr : Manager)
    → KeepsRetries m (handle_importing_phase x m mgr).1
unfolding handle_importing_phase transition_to_failed
importing-KeepsRetries x m mgr = elim (Answer-cases x.target_provider) [
  | inl (message, e) ↦ (ground arith, ground arith)
  | inr (target, e) ↦
      let known = guarded-KeepsRetries x target m mgr in
      (ground (arith, known), ground (arith, known))
]

pub creating-KeepsRetries :
    (x : TargetEnv) (m : Migration) (effects : List Effect)
    → KeepsRetries m (handle_creating_phase x m effects).1
unfolding handle_creating_phase create_target await_target transition_to_failed
creating-KeepsRetries x m effects = (ground arith, ground arith)

pub validating_target-KeepsRetries :
    (x : TargetEnv) (m : Migration) (effects : List Effect)
    → KeepsRetries m (handle_validating_target_phase x m effects).1
unfolding handle_validating_target_phase validate_target complete_migration transition_to_failed
validating_target-KeepsRetries x m effects = (ground arith, ground arith)
