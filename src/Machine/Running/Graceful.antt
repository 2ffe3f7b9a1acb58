-- ===== src/Machine/Running/Graceful.antt =====
-- internal/controller/virtualmachine_controller.go: a VM whose desired power state is OffGraceful.
use virtrigaud.Prelude.{
  ℕ, suc, ◌+◌, ◌≡◌, refl, Bool, true, ◌&&◌, String, List, [], ◌∷◌, str_eq, contains, if◌then◌else◌,
  arith, eq_iff, inl, inr,
}
use virtrigaud.Migration.Types.{returned, Answer-cases}
use virtrigaud.Machine.Types.{Machine}
use virtrigaud.Machine.Env.{
  MachineEnv, Call, call_create, call_power, call_reconfigure, call_delete, call_prepare,
  write_status, write_image_status, write_finalizers,
}
use virtrigaud.Machine.Dependencies.{Dependencies}
use virtrigaud.Machine.Request.Contract.{DescribeResponse}
use virtrigaud.Machine.Resources.{requeue_interval}
use virtrigaud.Machine.Running.{power_op, adjust_power_state, observed, check_existing}
use virtrigaud.Machine.Running.Laws.{contract_states, graceful_off_adjusts}

-- How many of the calls ask the provider to shut the VM down gracefully
unfoldable pub shutdowns : String → List Call → ℕ
shutdowns id [] = 0
shutdowns id (call_power other op ∷ calls) =
    (if str_eq other id && str_eq op "ShutdownGraceful" then 1 else 0) + shutdowns id calls
shutdowns id (call_create _ ∷ calls) = shutdowns id calls
shutdowns id (call_reconfigure _ _ ∷ calls) = shutdowns id calls
shutdowns id (call_delete _ ∷ calls) = shutdowns id calls
shutdowns id (call_prepare _ ∷ calls) = shutdowns id calls
shutdowns id (write_status _ ∷ calls) = shutdowns id calls
shutdowns id (write_image_status _ ∷ calls) = shutdowns id calls
shutdowns id (write_finalizers _ ∷ calls) = shutdowns id calls

-- One look at the VM: what it is answered, how the provider describes the VM, and whether its status write
-- is stored
pub record Look : Type 0 where
  pub env : MachineEnv
  pub dependencies : Dependencies
  pub response : DescribeResponse
  pub is_stored : Bool

-- The VM is described as existing, in a power state of the contract.
pub record Sees (id : String) (look : Look) : Type 0 where
  pub described : look.env.describe id ≡ returned look.response
  pub is_there : look.response.is_there ≡ true
  pub in_contract : contains contract_states look.response.power_state ≡ true

abbrev pub AllSee : String → List Look → Type 0
AllSee id [] = Unit
AllSee id (l ∷ ls) = Sees id l × AllSee id ls

-- The VM that the next look meets
abbrev pub after_look : Look → Machine → Machine
after_look l vm = if l.is_stored then (check_existing l.env l.dependencies vm []).1 else vm

unfoldable pub total_shutdowns : List Look → Machine → ℕ
unfolding shutdowns
total_shutdowns [] vm = 0
total_shutdowns (l ∷ ls) vm =
    shutdowns vm.status.id (check_existing l.env l.dependencies vm []).2
    + total_shutdowns ls (after_look l vm)

abbrev pub count : List Look → ℕ
count [] = 0
count (l ∷ ls) = suc (count ls)

adjust-shuts_down :
    (x : MachineEnv) (vm : Machine)
    → let (o, vm', calls) = adjust_power_state x "OffGraceful" vm [] in
      (shutdowns vm.status.id calls ≡ 1) × (vm'.status.id ≡ vm.status.id) × (vm'.spec ≡ vm.spec)
unfolding adjust_power_state power_op shutdowns
adjust-shuts_down x vm = elim (Answer-cases (x.power vm.status.id "ShutdownGraceful")) [
  | inl (err, refusal) ↦
      (ground (arith, eq_iff vm.status.id vm.status.id), ground arith, ground arith)
  | inr (task, answer) ↦
      (ground (arith, eq_iff vm.status.id vm.status.id), ground arith, ground arith)
]

seen :
    (l : Look) (vm : Machine)
    → Sees vm.status.id l
    → vm.spec.power_state ≡ "OffGraceful"
    → check_existing l.env l.dependencies vm []
      ≡ adjust_power_state l.env "OffGraceful" (observed l.response vm) []
unfolding check_existing observed requeue_interval
seen l vm sees graceful =
    rw (check_existing, sees.described, sees.is_there)
      (graceful_off_adjusts l.env l.dependencies l.response (observed l.response vm) graceful
        sees.in_contract)

look-shuts_down :
    (l : Look) (vm : Machine)
    → Sees vm.status.id l
    → vm.spec.power_state ≡ "OffGraceful"
    → (shutdowns vm.status.id (check_existing l.env l.dependencies vm []).2 ≡ 1)
      × ((after_look l vm).status.id ≡ vm.status.id)
      × ((after_look l vm).spec.power_state ≡ "OffGraceful")
unfolding observed
look-shuts_down l vm sees graceful =
    let known = adjust-shuts_down l.env (observed l.response vm) in
    ground (arith, seen l vm sees graceful, known)

total_from :
    (id : String) (ls : List Look) (vm : Machine)
    → vm.status.id ≡ id
    → vm.spec.power_state ≡ "OffGraceful"
    → AllSee id ls
    → total_shutdowns ls vm ≡ count ls
unfolding total_shutdowns
total_from id [] vm same graceful sees = refl
total_from id (l ∷ ls) vm same graceful (first, rest) =
    let (one, kept, still) = look-shuts_down l vm (rw same first) graceful in
    omega (arith, one, total_from id ls (after_look l vm) (ground (arith, kept)) still rest)

-- A VM that is to be shut down gracefully never settles. Over any looks at it that find it existing, in
-- whichever power state of the contract, Off included, the provider is sent one graceful shutdown for each
-- look, whatever it answers and whichever status writes are stored.
pub graceful_off_repeats :
    (ls : List Look) (vm : Machine)
    → vm.spec.power_state ≡ "OffGraceful"
    → AllSee vm.status.id ls
    → total_shutdowns ls vm ≡ count ls
graceful_off_repeats ls vm graceful sees = total_from vm.status.id ls vm refl graceful sees
