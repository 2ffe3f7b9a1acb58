-- ===== src/Migration/Validating.antt =====
-- internal/controller/vmmigration_controller.go: handlePendingPhase and handleValidatingPhase. The
-- answers of the API server and of loadS3Credentials, ensureMigrationPVC and migrationMountDeadlineExceeded are arguments.
mod Checks
mod Message
pub mod Laws
mod Tests
unfoldable pub use Checks.*
unfoldable pub use Message.*
use virtrigaud.Prelude.{
  ℕ, ◌*◌, Bool, true, false, ◌&&◌, ◌||◌, not, String, List, [], ◌∷◌, Option, none, some, str_eq,
  sprintf, if◌then◌else◌,
}
use virtrigaud.K8s.Conditions.{Condition, condition_true, condition_false, set_condition, status_eq}
use virtrigaud.Migration.Types.{
  Migration, Provider, ObjectRef, validating, snapshotting, exporting, Outcome, requeue,
  requeue_after, error, Answer, returned, refused,
}
use virtrigaud.Migration.Gate.{
  backend_s3, backend_nfs, migration_backend_type, migration_transfer_mode, Verdict, allowed,
  backend_not_implemented, direct_not_implemented, source_lacks_backend, target_lacks_backend,
  source_lacks_mode, target_lacks_mode, reported_export_backends, reported_import_backends,
  reported_transfer_modes, gate_migration_storage_backend,
}
use virtrigaud.Migration.Failed.{Env, after_update, transition_to_failed}
use virtrigaud.Migration.Exporting.{second}
use virtrigaud.Migration.StorageConfig.{validate_storage_config}
use virtrigaud.Migration.Mount.{migration_providers_mounted}
use virtrigaud.Migration.Machines.{
  VirtualMachine, Effect, patch_power_off, power_off, Effected, provider_key,
}
use virtrigaud.Migration.PowerOff.{
  ValidatingEnv, power_failed, power_wait, is_off, ensure_source_powered_off,
}

timed_out_message : Migration → String → String → String
timed_out_message m pvc reason = sprintf (
    "timed out after 5m0s waiting for providers to mount migration PVC " ∷ pvc ∷ " (" ∷ reason
    ∷ "); verify the provider Deployments rolled new pods and that those pods are Ready (kubectl -n "
    ∷ m.namespace ∷ " get deploy,pod -l app.kubernetes.io/name=virtrigaud-provider)" ∷ [])

-- The wait for both providers to mount the PVC, with its deadline
unfoldable pub await_mount :
    ValidatingEnv → Provider → Provider → String → Migration → List Effect → Effected
unfolding power_and_finish transition_to_failed timed_out_message
await_mount x source target pvc m effects =
    elim (migration_providers_mounted x.cluster source target pvc) [
      | refused err ↦
          fail_effected x.env (sprintf ("Failed to check migration storage mount: " ∷ err ∷ [])) m
            effects
      | returned (true, reason) ↦ power_and_finish x m effects
      | returned (false, reason) ↦ (elim x.deadline_exceeded [
        | refused err ↦
            fail_effected x.env (sprintf ("Failed to check migration storage mount: " ∷ err ∷ [])) m
              effects
        | returned true ↦ fail_effected x.env (timed_out_message m pvc reason) m effects
        | returned false ↦
            let (o, m') =
              wait_validating x.env (5 * second) "WaitingForStorageMount" reason (record m {
                status = record (m.status) {
                  message =
                      sprintf ("Waiting for providers to mount migration storage: " ∷ reason ∷ []);
                };
              }) in
            (o, m', effects)
      ])
    ]

-- The PVC is made or found, and its name is recorded unless one is recorded already.
unfoldable pub prepare_pvc :
    ValidatingEnv → Provider → Provider → Migration → List Effect → Effected
unfolding await_mount transition_to_failed
prepare_pvc x source target m effects = elim x.migration_pvc [
  | refused err ↦
      fail_effected x.env (sprintf ("Failed to ensure migration PVC: " ∷ err ∷ [])) m effects
  | returned pvc ↦
      if str_eq m.status.storage_pvc_name ""
      then (let named = record m { status = record (m.status) { storage_pvc_name = pvc } } in
          elim x.update_pvc_name [
            | some err ↦ (error err, named, effects)
            | none ↦ await_mount x source target pvc named effects
          ])
      else await_mount x source target pvc m effects
]

cross_namespace_message : Migration → Provider → Provider → String
cross_namespace_message m source target = sprintf (
    "PVC-based migration requires the migration (" ∷ m.namespace ∷ "), source provider ("
    ∷ source.namespace ∷ "/" ∷ source.name ∷ ") and target provider (" ∷ target.namespace ∷ "/"
    ∷ target.name ∷ ") to share one namespace; a pod cannot mount a PVC across namespaces" ∷ [])

-- What each backend needs: s3 its credentials, nfs nothing, and the PVC one namespace and its mount
unfoldable pub prepare_backend :
    ValidatingEnv → Provider → Provider → Migration → List Effect → Effected
unfolding power_and_finish prepare_pvc cross_namespace_message transition_to_failed
prepare_backend x source target m effects =
    if str_eq (migration_backend_type m) backend_s3
    then (elim x.s3_credentials [
      | some err ↦
          fail_effected x.env (sprintf ("Invalid s3 storage configuration: " ∷ err ∷ [])) m effects
      | none ↦ power_and_finish x m effects
    ])
    else if str_eq (migration_backend_type m) backend_nfs
    then power_and_finish x m effects
    else if not (str_eq source.namespace m.namespace) || not (str_eq target.namespace m.namespace)
    then fail_effected x.env (cross_namespace_message m source target) m effects
    else prepare_pvc x source target m effects

unfoldable pub validate_storage :
    ValidatingEnv → Provider → Provider → Migration → List Effect → Effected
unfolding power_and_finish prepare_backend transition_to_failed
validate_storage x source target m effects = elim m.spec.storage [
  | none ↦ power_and_finish x m effects
  | some s ↦ (elim (validate_storage_config x.hosts s) [
    | some err ↦
        fail_effected x.env (sprintf ("Invalid storage configuration: " ∷ err ∷ [])) m effects
    | none ↦ prepare_backend x source target m effects
  ])
]

-- Both providers must be ready, and the storage gate must let the migration through.
unfoldable pub validate_providers :
    ValidatingEnv → Provider → Provider → Migration → List Effect → Effected
unfolding wait_validating validate_storage transition_to_failed
validate_providers x source target m effects =
    let message = gate_message m source target (gate_migration_storage_backend m source target) in
    if not (is_provider_ready source)
    then wait_effected x "SourceProviderNotReady" "Source provider is not ready" m effects
    else if not (is_provider_ready target)
    then wait_effected x "TargetProviderNotReady" "Target provider is not ready" m effects
    else if not (str_eq message "")
    then fail_effected x.env message m effects
    else validate_storage x source target m effects

unfoldable pub find_providers : ValidatingEnv → VirtualMachine → Migration → List Effect → Effected
unfolding validate_providers transition_to_failed
find_providers x vm m effects =
    elim (x.get_provider (provider_key m.namespace (source_provider_ref m vm))) [
      | refused err ↦
          fail_effected x.env (sprintf ("Failed to get source provider: " ∷ err ∷ [])) m effects
      | returned source ↦
          (elim (x.get_provider (provider_key m.namespace m.spec.target.provider_ref)) [
            | refused err ↦
                fail_effected x.env (sprintf ("Failed to get target provider: " ∷ err ∷ [])) m
                  effects
            | returned target ↦ validate_providers x source target m effects
          ])
    ]

-- handleValidatingPhase
unfoldable pub handle_validating_phase : ValidatingEnv → Migration → List Effect → Effected
unfolding wait_validating find_providers transition_to_failed
handle_validating_phase x m effects = elim x.source_vm [
  | refused err ↦ fail_effected x.env (sprintf ("Failed to get source VM: " ∷ err ∷ [])) m effects
  | returned vm ↦
      if str_eq vm.id ""
      then wait_effected x "SourceVMNotReady" "Source VM is not yet provisioned" m effects
      else find_providers x vm m effects
]
