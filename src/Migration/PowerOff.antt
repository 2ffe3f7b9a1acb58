-- ===== src/Migration/PowerOff.antt =====
-- internal/controller/vmmigration_controller.go: ensureSourcePoweredOff, by which the phase Validating
-- waits for the source VM to be off.
use virtrigaud.Prelude.{
  ◌*◌, Bool, String, List, [], ◌∷◌, Option, none, some, str_eq, sprintf, if◌then◌else◌,
}
use virtrigaud.Migration.Types.{
  Migration, Provider, ObjectRef, Outcome, requeue_after, Answer, returned, refused,
}
use virtrigaud.Migration.Failed.{Env}
use virtrigaud.Migration.Exporting.{second}
use virtrigaud.Migration.StorageConfig.{HostPolicy}
use virtrigaud.Migration.Mount.{Cluster}
use virtrigaud.Migration.Machines.{VirtualMachine, Effect, patch_power_off, power_off, provider_key}

-- `update_pvc_name` answers the status write that records the PVC. ensureSourcePoweredOff reads the source VM again, as `power_vm`.
pub record ValidatingEnv : Type 0 where
  pub env : Env
  pub source_vm : Answer VirtualMachine
  pub get_provider : ObjectRef → Answer Provider
  pub hosts : HostPolicy
  pub s3_credentials : Option String
  pub migration_pvc : Answer String
  pub update_pvc_name : Option String
  pub cluster : Cluster
  pub deadline_exceeded : Answer Bool
  pub power_vm : Answer VirtualMachine
  pub patch : Option String
  pub provider_instance : Answer String
  pub describe : Answer String
  pub power : Option String

-- What ensureSourcePoweredOff returns: that the source is off, that it has to be waited for, or an
-- error.
pub data Powered : Type 0 where
  is_off : Powered
  power_wait : Outcome → Powered
  power_failed : String → Powered

-- The part that polls the provider. The status write on the way out may fail.
unfoldable pub poll_power :
    ValidatingEnv → String → String → Migration → List Effect → Powered × Migration × List Effect
poll_power x id power_state m effects =
    let waiting = record m {
      status = record (m.status) { message = "Powering off source VM before migration" };
    } in
    let written : Powered = (elim x.env.update_status [
      | none ↦ power_wait (requeue_after (5 * second))
      | some err ↦ power_failed err
    ]) in
    if str_eq power_state "Off"
    then (is_off, m, effects)
    else if str_eq power_state "On"
    then (elim x.power [
      | some err ↦
          (power_failed (sprintf ("power off source VM: " ∷ err ∷ [])), m, power_off id ∷ effects)
      | none ↦ (written, waiting, power_off id ∷ effects)
    ])
    else (written, waiting, effects)

unfoldable pub describe_power :
    ValidatingEnv → VirtualMachine → Migration → List Effect → Powered × Migration × List Effect
unfolding poll_power
describe_power x vm m effects = elim (x.get_provider (provider_key m.namespace vm.provider_ref)) [
  | refused err ↦ (power_failed (sprintf ("get source provider: " ∷ err ∷ [])), m, effects)
  | returned provider ↦ (elim x.provider_instance [
    | refused err ↦
        (power_failed (sprintf ("get source provider instance: " ∷ err ∷ [])), m, effects)
    | returned client ↦ (elim x.describe [
      | refused err ↦ (power_failed (sprintf ("describe source VM: " ∷ err ∷ [])), m, effects)
      | returned power_state ↦ poll_power x vm.id power_state m effects
    ])
  ])
]

-- The desired power state is aligned first, if it is not Off already.
unfoldable pub align_power :
    ValidatingEnv → VirtualMachine → Migration → List Effect → Powered × Migration × List Effect
unfolding describe_power
align_power x vm m effects =
    if str_eq vm.power_state "Off" then describe_power x vm m effects else (elim x.patch [
      | some err ↦ (
        power_failed
            (sprintf ("set source VM " ∷ vm.name ∷ " desired power state to Off: " ∷ err ∷ [])),
        m,
        patch_power_off vm.name ∷ effects,
      )
      | none ↦ describe_power x vm m (patch_power_off vm.name ∷ effects)
    ])

-- ensureSourcePoweredOff
unfoldable pub ensure_source_powered_off :
    ValidatingEnv → Migration → List Effect → Powered × Migration × List Effect
unfolding align_power
ensure_source_powered_off x m effects = elim x.power_vm [
  | refused err ↦ (power_failed (sprintf ("get source VM: " ∷ err ∷ [])), m, effects)
  | returned vm ↦
      if str_eq vm.id ""
      then (
        power_failed (sprintf ("source VM " ∷ vm.name ∷ " has no provider ID yet" ∷ [])),
        m,
        effects,
      )
      else align_power x vm m effects
]
