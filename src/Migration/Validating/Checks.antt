-- ===== src/Migration/Validating/Checks.antt =====
-- The checks of handleValidatingPhase in vmmigration_controller.go, its ends, and handlePendingPhase.
use virtrigaud.Prelude.{
  ℕ, ◌*◌, Bool, true, false, ◌&&◌, String, List, [], ◌∷◌, none, some, str_eq, sprintf,
  if◌then◌else◌,
}
use virtrigaud.K8s.Conditions.{Condition, condition_true, condition_false, set_condition, status_eq}
use virtrigaud.Migration.Types.{
  Migration, Provider, ObjectRef, validating, snapshotting, exporting, Outcome, requeue,
  requeue_after,
}
use virtrigaud.Migration.Failed.{Env, after_update, transition_to_failed}
use virtrigaud.Migration.Exporting.{second}
use virtrigaud.Migration.Machines.{VirtualMachine, Effect, Effected}
use virtrigaud.Migration.PowerOff.{
  ValidatingEnv, power_failed, power_wait, is_off, ensure_source_powered_off,
}

-- handlePendingPhase
unfoldable pub handle_pending_phase : Env → Migration → Outcome × Migration
handle_pending_phase env m = (
  after_update env requeue,
  record m {
    status = record (m.status) {
      phase = validating;
      message = "Starting validation";
      conditions =
          set_condition env.now "Validating" condition_true "ValidationStarted"
            "Migration validation started" m.status.conditions;
    };
  },
)

abbrev pub fail_effected : Env → String → Migration → List Effect → Effected
fail_effected env message m effects =
    let (o, m') = transition_to_failed env message m in (o, m', effects)

-- Validation that has to wait says so in its condition.
unfoldable pub wait_validating : Env → ℕ → String → String → Migration → Outcome × Migration
wait_validating env interval reason message m = (
  after_update env (requeue_after interval),
  record m {
    status = record (m.status) {
      conditions =
          set_condition env.now "Validating" condition_false reason message m.status.conditions;
    };
  },
)

abbrev pub wait_effected : ValidatingEnv → String → String → Migration → List Effect → Effected
wait_effected x reason message m effects =
    let (o, m') = wait_validating x.env (30 * second) reason message m in (o, m', effects)

-- Whether some condition ProviderAvailable is true: there may be several.
unfoldable pub any_available : List Condition → Bool
any_available [] = false
any_available (c ∷ cs) =
    let rest = any_available cs in
    if str_eq c.type "ProviderAvailable" && status_eq c.status condition_true then true else rest

-- isProviderReady
unfoldable pub is_provider_ready : Provider → Bool
unfolding any_available
is_provider_ready p = any_available p.conditions

-- The reference to the source provider, detected from the source VM if the migration has none
unfoldable pub source_provider_ref : Migration → VirtualMachine → ObjectRef
source_provider_ref m vm = elim m.spec.source.provider_ref [
  | none ↦ vm.provider_ref
  | some ref ↦ ref
]

-- The end of validation: to the snapshot if one is asked for, and to the export otherwise
unfoldable pub finish_validation : ValidatingEnv → Migration → Outcome × Migration
finish_validation x m = (
  after_update x.env requeue,
  record m {
    status = record (m.status) {
      phase = if m.spec.source.create_snapshot then snapshotting else exporting;
      message =
          if m.spec.source.create_snapshot
          then "Preparing to snapshot source VM"
          else "Preparing to export source VM";
      conditions =
          set_condition x.env.now "Validating" condition_true "ValidationComplete"
            "Migration validation completed successfully" m.status.conditions;
    };
  },
)

-- The power-off, if it is asked for, and the end of validation
unfoldable pub power_and_finish : ValidatingEnv → Migration → List Effect → Effected
unfolding finish_validation transition_to_failed
power_and_finish x m effects =
    if m.spec.source.power_off_before_migration
    then (let (powered, m', effects') = ensure_source_powered_off x m effects in
        elim powered [
          | power_failed err ↦
              fail_effected x.env
                (sprintf ("Failed to power off source VM before migration: " ∷ err ∷ [])) m'
                effects'
          | power_wait outcome ↦ (outcome, m', effects')
          | is_off ↦ let (o, m'') = finish_validation x m' in (o, m'', effects')
        ])
    else (let (o, m') = finish_validation x m in (o, m', effects))
