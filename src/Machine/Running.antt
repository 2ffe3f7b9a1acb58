-- ===== src/Machine/Running.antt =====
-- internal/controller/virtualmachine_controller.go: what is done with a VM that exists, in adjustPowerState,
-- reconfigureVM and the end of reconcileVM.
pub mod Laws
pub mod Graceful
use virtrigaud.Prelude.{
  ℕ, ◌*◌, Bool, true, false, not, String, List, [], ◌∷◌, Option, none, some, str_eq, sprintf,
  if◌then◌else◌,
}
use virtrigaud.K8s.Conditions.{condition_true, condition_false}
use virtrigaud.Migration.Types.{error, requeue_after, Answer, returned, refused}
use virtrigaud.Migration.Exporting.{second}
use virtrigaud.Machine.Types.{Machine}
use virtrigaud.Machine.Env.{
  MachineEnv, Call, call_power, call_reconfigure, write_status, Handled, with_condition,
  write_and_requeue,
}
use virtrigaud.Machine.Dependencies.{Dependencies}
use virtrigaud.Machine.Resources.{needs_reconfigure, update_current_resources, requeue_interval}
use virtrigaud.Machine.Request.Contract.{CreateRequest, DescribeResponse}
use virtrigaud.Machine.Request.Source.{or_default}
use virtrigaud.Machine.Creating.{create_vm, build_create_request}

-- The operation for a desired power state
unfoldable pub power_op : String → Option String
power_op desired =
    if str_eq desired "On"
    then some "On"
    else if str_eq desired "Off"
    then some "Off"
    else if str_eq desired "OffGraceful"
    then some "ShutdownGraceful"
    else none

-- adjustPowerState
unfoldable pub adjust_power_state : MachineEnv → String → Machine → List Call → Handled
unfolding power_op
adjust_power_state x desired vm calls = elim (power_op desired) [
  | none ↦ (requeue_after (5 * second), vm, calls)
  | some op ↦
      let called = call_power vm.status.id op ∷ calls in
      elim (x.power vm.status.id op) [
        | refused err ↦
            write_and_requeue 5
              (with_condition x "Ready" condition_false "ProviderError"
                (sprintf ("Failed to adjust power state: " ∷ err ∷ [])) vm)
              called
        | returned task_ref ↦
            if str_eq task_ref ""
            then write_and_requeue 5 vm called
            else write_and_requeue 5
                (with_condition x "Reconfiguring" condition_true "Updating" "Adjusting power state"
                  (record vm { status = record (vm.status) { last_task_ref = task_ref } }))
                called
      ]
]

abbrev pub in_phase : String → Machine → Machine
in_phase phase vm = record vm { status = record (vm.status) { phase = phase } }

-- The reconfiguration is over.
unfoldable pub reconfigured : MachineEnv → Dependencies → Machine → Machine
reconfigured x d vm =
    with_condition x "Reconfiguring" condition_false "ReconcileSuccess"
      "VM reconfigured successfully" (in_phase "Running" (update_current_resources vm d.class))

-- What a provider that has accepted the reconfiguration leaves to be recorded, by its task
unfoldable pub accept_reconfigure : MachineEnv → Dependencies → String → Machine → Machine
unfolding reconfigured
accept_reconfigure x d task_ref vm =
    let started =
      in_phase "Reconfiguring"
        (record vm { status = record (vm.status) { last_reconfigure_time = some x.now } }) in
    if str_eq task_ref ""
    then with_condition x "Ready" condition_true "ReconcileSuccess" "VM is ready"
        (reconfigured x d started)
    else with_condition x "Reconfiguring" condition_true "Updating" "VM reconfiguration in progress"
        (record started { status = record (started.status) { reconfigure_task_ref = task_ref } })

-- reconfigureVM
unfoldable pub reconfigure_vm : MachineEnv → Dependencies → Machine → List Call → Handled
unfolding accept_reconfigure
reconfigure_vm x d vm calls = elim (build_create_request x vm d) [
  | refused err ↦ (error err, vm, calls)
  | returned request ↦
      let called = call_reconfigure vm.status.id request ∷ calls in
      elim (x.reconfigure vm.status.id request) [
        | refused err ↦
            write_and_requeue 5
              (with_condition x "Reconfiguring" condition_false "ProviderError"
                (sprintf ("Failed to reconfigure VM: " ∷ err ∷ [])) vm)
              called
        | returned task_ref ↦ write_and_requeue 5 (accept_reconfigure x d task_ref vm) called
      ]
]

-- The status as the provider describes the VM
unfoldable pub observed : DescribeResponse → Machine → Machine
observed r vm = record vm {
  status = record (vm.status) {
    power_state = r.power_state;
    ips = r.ips;
    console_url = r.console_url;
    provider = r.provider_raw;
  };
}

abbrev pub desired_power : Machine → String
desired_power vm = or_default vm.spec.power_state "On"

-- Nothing is left to do.
unfoldable pub settle : MachineEnv → DescribeResponse → Machine → List Call → Handled
settle x r vm calls =
    let vm' =
      with_condition x "Provisioning" condition_false "ReconcileSuccess" "VM provisioned"
        (with_condition x "Ready" condition_true "ReconcileSuccess" "VM is ready" vm) in
    (requeue_after (requeue_interval r), vm', write_status vm'.status ∷ calls)

-- The VM exists: its power state comes first, then its resources.
unfoldable pub steer : MachineEnv → Dependencies → DescribeResponse → Machine → List Call → Handled
unfolding adjust_power_state reconfigure_vm settle
steer x d r vm calls =
    if not (str_eq r.power_state (desired_power vm))
    then adjust_power_state x (desired_power vm) vm calls
    else if needs_reconfigure vm d.class
    then reconfigure_vm x d vm calls
    else settle x r vm calls

-- The VM has an ID: it is described, and created again if it is gone.
unfoldable pub check_existing : MachineEnv → Dependencies → Machine → List Call → Handled
unfolding observed steer
check_existing x d vm calls = elim (x.describe vm.status.id) [
  | refused err ↦
      write_and_requeue 5
        (with_condition x "Ready" condition_false "ProviderError"
          (sprintf ("Failed to describe VM: " ∷ err ∷ [])) vm)
        calls
  | returned r ↦
      if not r.is_there
      then create_vm x d (record vm { status = record (vm.status) { id = "" } }) calls
      else steer x d r (observed r vm) calls
]
