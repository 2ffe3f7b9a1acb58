-- ===== src/Migration/Validating/Laws.antt =====
-- What a migration has shown when it leaves the phase Validating of vmmigration_controller.go.
use virtrigaud.Prelude.{
  some, Option, ◌≡◌, ap, refl, ◌≢◌, inl, inr, Bool, true, false, String, List, none, str_eq, arith,
  ◌∷◌, eq_iff, Option-cases, Bool-cases,
}
use virtrigaud.Prelude.Cut.{is_empty, cons-append_not_empty}
use virtrigaud.Migration.Types.{
  Storage, Migration, Phase, snapshotting, exporting, Provider, returned, Answer-cases,
}
use virtrigaud.Migration.Gate.{
  backend_s3, backend_nfs, migration_backend_type, gate_migration_storage_backend, allowed, Verdict,
  backend_not_implemented, direct_not_implemented, source_lacks_backend, target_lacks_backend,
  source_lacks_mode, target_lacks_mode,
}
use virtrigaud.Migration.Failed.{transition_to_failed}
use virtrigaud.Migration.Machines.{VirtualMachine, Effect, patch_power_off, provider_key}
use virtrigaud.Migration.PowerOff.{
  ValidatingEnv, poll_power, is_off, describe_power, align_power, ensure_source_powered_off,
}
use virtrigaud.Migration.StorageConfig.{validate_storage_config}
use virtrigaud.Migration.StorageConfig.Laws.{IsConfigured, accepted-IsConfigured}
use virtrigaud.Migration.Mount.{migration_providers_mounted}
use virtrigaud.Migration.Mount.Laws.{IsRolledOut, both-IsRolledOut}
use virtrigaud.Migration.Validating.{
  gate_message, unsupported, is_provider_ready, power_and_finish, await_mount, prepare_pvc,
  prepare_backend, validate_storage, validate_providers, find_providers, handle_validating_phase,
  source_provider_ref, wait_validating,
}

-- Whether a migration is on its way to the snapshot or to the export
abbrev pub is_past_validation : Phase → Bool
is_past_validation snapshotting = true
is_past_validation exporting = true
is_past_validation _ = false

poll_keeps :
    (x : ValidatingEnv) (id state : String) (m : Migration) (effects : List Effect)
    → (poll_power x id state m effects).1.status.phase ≡ m.status.phase
unfolding poll_power
poll_keeps x id state m effects = ground arith

poll-IsOff :
    (x : ValidatingEnv) (id state : String) (m : Migration) (effects : List Effect)
    → (poll_power x id state m effects).0 ≡ is_off
    → state ≡ "Off"
unfolding poll_power
poll-IsOff x id state m effects h = ground (arith, eq_iff state "Off")

describe_keeps :
    (x : ValidatingEnv) (vm : VirtualMachine) (m : Migration) (effects : List Effect)
    → (describe_power x vm m effects).1.status.phase ≡ m.status.phase
unfolding describe_power
describe_keeps x vm m effects = elim (Answer-cases x.describe) [
  | inl (err, e) ↦ ground arith
  | inr (state, e) ↦ ground (arith, poll_keeps x vm.id state m effects)
]

pub ensure_keeps :
    (x : ValidatingEnv) (m : Migration) (effects : List Effect)
    → (ensure_source_powered_off x m effects).1.status.phase ≡ m.status.phase
unfolding ensure_source_powered_off align_power
ensure_keeps x m effects = elim (Answer-cases x.power_vm) [
  | inl (err, e) ↦ ground arith
  | inr (vm, e) ↦ ground (
    arith,
    describe_keeps x vm m effects,
    describe_keeps x vm m (patch_power_off vm.name ∷ effects),
  )
]

message-allowed :
    (m : Migration) (s t : Provider) (v : Verdict) → gate_message m s t v ≡ "" → v ≡ allowed
unfolding gate_message unsupported is_empty
message-allowed m s t allowed h = refl
message-allowed m s t backend_not_implemented h = absurd (cons-append_not_empty _ _ _ h)
message-allowed m s t direct_not_implemented h =
    let clash : false ≡ true = ap is_empty h in ground arith
message-allowed m s t source_lacks_backend h = absurd (cons-append_not_empty _ _ _ h)
message-allowed m s t target_lacks_backend h = absurd (cons-append_not_empty _ _ _ h)
message-allowed m s t source_lacks_mode h = absurd (cons-append_not_empty _ _ _ h)
message-allowed m s t target_lacks_mode h = absurd (cons-append_not_empty _ _ _ h)

is_off-IsOff :
    (x : ValidatingEnv) (m : Migration) (effects : List Effect)
    → (ensure_source_powered_off x m effects).0 ≡ is_off
    → x.describe ≡ returned "Off"
unfolding ensure_source_powered_off align_power describe_power poll_power
is_off-IsOff x m effects h = elim (Answer-cases x.describe) [
  | inl (err, e) ↦ ground arith
  | inr (state, e) ↦ ground (arith, eq_iff state "Off")
]

power-IsOff :
    (x : ValidatingEnv) (m : Migration) (effects : List Effect)
    → is_past_validation m.status.phase ≡ false
    → is_past_validation (power_and_finish x m effects).1.status.phase ≡ true
    → m.spec.source.power_off_before_migration ≡ true
    → x.describe ≡ returned "Off"
unfolding power_and_finish transition_to_failed
power-IsOff x m effects v p h = ground (arith, is_off-IsOff x m effects, ensure_keeps x m effects)

-- Some PVC that both providers have mounted
abbrev pub IsMounted : ValidatingEnv → Provider → Provider → Type 0
IsMounted x source target =
    (pvc : String) × IsRolledOut x.cluster source pvc × IsRolledOut x.cluster target pvc

-- What the staging on a PVC needs: one namespace, and that both providers have mounted the volume
pub record IsStaged (x : ValidatingEnv) (source target : Provider) (m : Migration) : Type 0 where
  pub one_namespace : (source.namespace ≡ m.namespace) × (target.namespace ≡ m.namespace)
  pub is_mounted : IsMounted x source target

pub record IsValidated (x : ValidatingEnv) (m : Migration) : Type 0 where
  pub vm : VirtualMachine
  pub source : Provider
  pub target : Provider
  pub vm_found : x.source_vm ≡ returned vm
  pub provisioned : vm.id ≢ ""
  pub source_found :
      x.get_provider (provider_key m.namespace (source_provider_ref m vm)) ≡ returned source
  pub target_found :
      x.get_provider (provider_key m.namespace m.spec.target.provider_ref) ≡ returned target
  pub source_ready : is_provider_ready source ≡ true
  pub target_ready : is_provider_ready target ≡ true
  pub gate_passed : gate_migration_storage_backend m source target ≡ allowed
  pub storage_valid : (s : Storage) → m.spec.storage ≡ some s → IsConfigured x.hosts s
  pub staged :
      m.spec.storage ≢ none
      → migration_backend_type m ≢ backend_s3
      → migration_backend_type m ≢ backend_nfs
      → IsStaged x source target m
  pub powered_off : m.spec.source.power_off_before_migration ≡ true → x.describe ≡ returned "Off"

module _ (x : ValidatingEnv) (effects : List Effect) where
  mount-IsOff :
      (source target : Provider) (pvc : String) (m : Migration)
      → is_past_validation m.status.phase ≡ false
      → is_past_validation (await_mount x source target pvc m effects).1.status.phase ≡ true
      → IsMounted x source target
        × (m.spec.source.power_off_before_migration ≡ true → x.describe ≡ returned "Off")
  unfolding await_mount transition_to_failed wait_validating
  mount-IsOff source target pvc m v p =
      elim (Answer-cases (migration_providers_mounted x.cluster source target pvc)) [
        | inl (err, e) ↦ ground arith
        | inr ((true, reason), e) ↦ (
          (let (rolled, rolled') = both-IsRolledOut x.cluster source target pvc reason e in
              (pvc, rolled, rolled')),
          power-IsOff x m effects v (ground arith),
        )
        | inr ((false, reason), e) ↦ ground arith
      ]

  pvc-IsOff :
      (source target : Provider) (m : Migration)
      → is_past_validation m.status.phase ≡ false
      → is_past_validation (prepare_pvc x source target m effects).1.status.phase ≡ true
      → IsMounted x source target
        × (m.spec.source.power_off_before_migration ≡ true → x.describe ≡ returned "Off")
  unfolding prepare_pvc transition_to_failed
  pvc-IsOff source target m v p = elim (Answer-cases x.migration_pvc) [
    | inl (err, e) ↦ ground arith
    | inr (pvc, e) ↦ (elim (Bool-cases (str_eq m.status.storage_pvc_name "")) [
      | inl b ↦
          mount-IsOff source target pvc
            (record m { status = record (m.status) { storage_pvc_name = pvc } }) v (ground arith)
      | inr b ↦ mount-IsOff source target pvc m v (ground arith)
    ])
  ]

  backend-IsStaged :
      (source target : Provider) (m : Migration)
      → is_past_validation m.status.phase ≡ false
      → is_past_validation (prepare_backend x source target m effects).1.status.phase ≡ true
      → (migration_backend_type m ≢ backend_s3
          → migration_backend_type m ≢ backend_nfs
          → IsStaged x source target m)
        × (m.spec.source.power_off_before_migration ≡ true → x.describe ≡ returned "Off")
  unfolding prepare_backend transition_to_failed
  backend-IsStaged source target m v p = (
    (λ not_s3 not_nfs. record {
      one_namespace = (
        ground (
          arith,
          eq_iff (migration_backend_type m) backend_s3,
          eq_iff (migration_backend_type m) backend_nfs,
          eq_iff source.namespace m.namespace,
        ),
        ground (
          arith,
          eq_iff (migration_backend_type m) backend_s3,
          eq_iff (migration_backend_type m) backend_nfs,
          eq_iff target.namespace m.namespace,
        ),
      );
      is_mounted =
          (pvc-IsOff source target m v (
            ground (
              arith,
              eq_iff (migration_backend_type m) backend_s3,
              eq_iff (migration_backend_type m) backend_nfs,
            ))).0;
    }),
    elim (Bool-cases (is_past_validation (power_and_finish x m effects).1.status.phase)) [
      | inl q ↦ power-IsOff x m effects v q
      | inr q ↦ (pvc-IsOff source target m v (ground arith)).1
    ],
  )

  same_storage :
      {o : Option Storage} (s t : Storage)
      → o ≡ some s
      → o ≡ some t
      → validate_storage_config x.hosts s ≡ none
      → validate_storage_config x.hosts t ≡ none
  same_storage s t e f c = let same : s ≡ t = ground arith in rw same at c

  storage-IsStaged :
      (source target : Provider) (m : Migration)
      → is_past_validation m.status.phase ≡ false
      → is_past_validation (validate_storage x source target m effects).1.status.phase ≡ true
      → ((s : Storage) → m.spec.storage ≡ some s → IsConfigured x.hosts s)
        × (m.spec.storage ≢ none
            → migration_backend_type m ≢ backend_s3
            → migration_backend_type m ≢ backend_nfs
            → IsStaged x source target m)
        × (m.spec.source.power_off_before_migration ≡ true → x.describe ≡ returned "Off")
  unfolding validate_storage transition_to_failed
  storage-IsStaged source target m v p = elim (Option-cases m.spec.storage) [
    | inl n ↦ (
      λ s e. ground arith,
      λ given a b. absurd (given n),
      power-IsOff x m effects v (ground arith),
    )
    | inr (s, e) ↦ (elim (Option-cases (validate_storage_config x.hosts s)) [
      | inr (err, c) ↦ ground arith
      | inl c ↦
          (let (staged, powered) = backend-IsStaged source target m v (ground arith) in
            (
              λ t f. accepted-IsConfigured x.hosts t (same_storage s t e f c),
              λ given. staged,
              powered,
            ))
    ])
  ]

is_provisioned :
    (x : ValidatingEnv) (m : Migration) (effects : List Effect) (vm : VirtualMachine)
    → is_past_validation m.status.phase ≡ false
    → is_past_validation (handle_validating_phase x m effects).1.status.phase ≡ true
    → x.source_vm ≡ returned vm
    → vm.id ≢ ""
unfolding handle_validating_phase wait_validating
is_provisioned x m effects vm v p e = ground (arith, eq_iff vm.id "")

passed_checks :
    (x : ValidatingEnv) (source target : Provider) (m : Migration) (effects : List Effect)
    → is_past_validation m.status.phase ≡ false
    → is_past_validation (validate_providers x source target m effects).1.status.phase ≡ true
    → (is_provider_ready source ≡ true)
      × (is_provider_ready target ≡ true)
      × (gate_migration_storage_backend m source target ≡ allowed)
      × (is_past_validation (validate_storage x source target m effects).1.status.phase ≡ true)
unfolding validate_providers transition_to_failed wait_validating
passed_checks x source target m effects v p = (
  ground arith,
  ground arith,
  message-allowed m source target (gate_migration_storage_backend m source target) (
      ground (
        arith,
        eq_iff (gate_message m source target (gate_migration_storage_backend m source target)) "",
      )),
  ground arith,
)

-- A migration leaves the phase Validating for the snapshot or the export only if its source VM is
-- provisioned, both providers are found and ready and the storage gate lets it through; with a
-- storage, only if its configuration is accepted, so that the s3 endpoint or the nfs server is one
-- that may be reached, and, unless it is staged on s3 or nfs, both providers are in the migration's
-- namespace and have mounted one volume, that is, have a rolled-out Deployment and a running, ready
-- pod that carry it; and if the power-off before the migration is asked for, only if the source VM
-- was described as Off.
pub validating-IsValidated :
    (x : ValidatingEnv) (m : Migration) (effects : List Effect)
    → is_past_validation m.status.phase ≡ false
    → is_past_validation (handle_validating_phase x m effects).1.status.phase ≡ true
    → IsValidated x m
unfolding handle_validating_phase find_providers validate_providers transition_to_failed
    wait_validating
validating-IsValidated x m effects v p = elim (Answer-cases x.source_vm) [
  | inl (err, e) ↦ ground arith
  | inr (vm, e) ↦
      (elim (Answer-cases (x.get_provider (provider_key m.namespace (source_provider_ref m vm)))) [
        | inl (err, f) ↦ ground arith
        | inr (source, f) ↦
            (elim (Answer-cases
              (x.get_provider (provider_key m.namespace m.spec.target.provider_ref))) [
                | inl (err, g) ↦ ground arith
                | inr (target, g) ↦
                    let (ready, ready', gate, past) =
                      passed_checks x source target m effects v (ground arith) in
                    let (valid, staged, powered) =
                      storage-IsStaged x effects source target m v past in
                    record {
                      vm = vm;
                      source = source;
                      target = target;
                      vm_found = e;
                      provisioned = is_provisioned x m effects vm v p e;
                      source_found = f;
                      target_found = g;
                      source_ready = ready;
                      target_ready = ready';
                      gate_passed = gate;
                      storage_valid = valid;
                      staged = staged;
                      powered_off = powered;
                    }
              ])
      ])
]
