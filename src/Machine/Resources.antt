-- ===== src/Machine/Resources.antt =====
-- internal/controller/virtualmachine_controller.go: needsReconfigure, updateCurrentResources, and the
-- interval of the next look at a VM that is ready.
use virtrigaud.Prelude.{
  ℕ, ◌*◌, ◌/◌, ◌==◌, ◌≡◌, Bool, true, false, ◌&&◌, ◌||◌, not, String, List, [], ◌∷◌, Option, none,
  some, str_eq, if◌then◌else◌, arith,
}
use virtrigaud.Migration.Exporting.{second}
use virtrigaud.Machine.Types.{Machine, MachineClass}
use virtrigaud.Machine.Request.Contract.{DescribeResponse}

abbrev or_number : Option ℕ → ℕ → ℕ
or_number none n = n
or_number (some v) n = v

-- The class's number of CPUs and size in MiB, with the overrides of the VM; int64, so it does not wrap.
unfoldable pub desired_cpu : Machine → MachineClass → ℕ
desired_cpu vm c = elim vm.spec.resources [ none ↦ c.cpu | some r ↦ or_number r.cpu c.cpu ]

unfoldable pub desired_memory : Machine → MachineClass → ℕ
desired_memory vm c = elim vm.spec.resources [
  | none ↦ c.memory / (1024 * 1024)
  | some r ↦ or_number r.memory_mib (c.memory / (1024 * 1024))
]

-- getCurrentCPU and getCurrentMemoryMiB
unfoldable pub current_cpu : Machine → ℕ
current_cpu vm = elim vm.status.current_resources [ none ↦ 0 | some r ↦ or_number r.cpu 0 ]

unfoldable pub current_memory : Machine → ℕ
current_memory vm = elim vm.status.current_resources [
  | none ↦ 0
  | some r ↦ or_number r.memory_mib 0
]

-- needsReconfigure
unfoldable pub needs_reconfigure : Machine → MachineClass → Bool
unfolding desired_cpu desired_memory current_cpu current_memory
needs_reconfigure vm c =
    if current_cpu vm == 0 && current_memory vm == 0
    then false
    else not (current_cpu vm == desired_cpu vm c) || not (current_memory vm == desired_memory vm c)

-- updateCurrentResources
unfoldable pub update_current_resources : Machine → MachineClass → Machine
unfolding desired_cpu desired_memory
update_current_resources vm c = record vm {
  status = record (vm.status) {
    current_resources =
        some (record { cpu = some (desired_cpu vm c); memory_mib = some (desired_memory vm c) });
  };
}

no_ips : List String → Bool
no_ips [] = true
no_ips (_ ∷ _) = false

-- getRequeueInterval
unfoldable pub requeue_interval : DescribeResponse → ℕ
unfolding no_ips
requeue_interval d =
    if str_eq d.power_state "poweredOn" && no_ips d.ips
    then 10 * second
    else if str_eq d.power_state "poweredOn"
    then 120 * second
    else if str_eq d.power_state "poweredOff"
    then 300 * second
    else if str_eq d.power_state "suspended"
    then 120 * second
    else 10 * second

-- Once the resources of a class are recorded, the VM does not need a reconfiguration for that class.
pub needs_reconfigure-update :
    (vm : Machine) (c : MachineClass) → needs_reconfigure (update_current_resources vm c) c ≡ false
unfolding needs_reconfigure update_current_resources
needs_reconfigure-update vm c = ground arith
