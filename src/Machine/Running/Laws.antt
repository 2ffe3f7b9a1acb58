-- ===== src/Machine/Running/Laws.antt =====
-- internal/controller/virtualmachine_controller.go: where the power state and the resources of a VM lead to.
use virtrigaud.Prelude.{
  ◌*◌, ◌≡◌, refl, ap, true, false, String, List, [], ◌∷◌, str_eq, contains, All, eq_iff, inl, inr,
  Bool-cases,
}
use mathlib.Core.Path.{subst}
use virtrigaud.Migration.Types.{requeue_after}
use virtrigaud.Migration.Exporting.{second}
use virtrigaud.Machine.Types.{Machine, Resources}
use virtrigaud.Machine.Env.{MachineEnv}
use virtrigaud.Machine.Dependencies.{Dependencies}
use virtrigaud.Machine.Request.Contract.{DescribeResponse}
use virtrigaud.Machine.Request.Source.{or_default}
use virtrigaud.Machine.Resources.{needs_reconfigure, requeue_interval}
use virtrigaud.Machine.Running.{adjust_power_state, settle, steer, desired_power}

steer-settled :
    (y : MachineEnv) (d : Dependencies) (r : DescribeResponse) (vm : Machine)
    → str_eq r.power_state (desired_power vm) ≡ true
    → needs_reconfigure vm d.class ≡ false
    → steer y d r vm [] ≡ settle y r vm []
unfolding steer
steer-settled y d r vm in_state enough = rw (steer, in_state, enough)

-- The power states that internal/providers/contracts/types.go names
abbrev pub contract_states : List String
contract_states = "On" ∷ "Off" ∷ "Suspended" ∷ "Unknown" ∷ []

steer-mismatch :
    (x : MachineEnv) (d : Dependencies) (r : DescribeResponse) (vm : Machine)
    → str_eq r.power_state (desired_power vm) ≡ false
    → steer x d r vm [] ≡ adjust_power_state x (desired_power vm) vm []
unfolding steer
steer-mismatch x d r vm differs = rw (steer, differs)

-- What holds of every text of a list holds of a text that the list contains.
contains-All :
    (P : String → Type 0) (set : List String) (s : String) → All P set → contains set s ≡ true → P s
contains-All P [] s every among = cc
contains-All P (t ∷ set) s every among = elim (Bool-cases (str_eq t s)) [
  | inl same ↦ subst P ((eq_iff t s).0 same) every.0
  | inr other ↦ contains-All P set s every.1 (rw (← among, other))
]

not_graceful : (s : String) → contains contract_states s ≡ true → str_eq s "OffGraceful" ≡ false
not_graceful s among =
    contains-All (λ t. str_eq t "OffGraceful" ≡ false) contract_states s
      (refl, (refl, (refl, (refl, tt)))) among

-- A look at a VM that is to be shut down gracefully ends in adjustPowerState for OffGraceful, whichever power
-- state of the contract its provider reports.
pub graceful_off_adjusts :
    (x : MachineEnv) (d : Dependencies) (r : DescribeResponse) (vm : Machine)
    → vm.spec.power_state ≡ "OffGraceful"
    → contains contract_states r.power_state ≡ true
    → steer x d r vm [] ≡ adjust_power_state x "OffGraceful" vm []
graceful_off_adjusts x d r vm graceful state =
    let desired : desired_power vm ≡ "OffGraceful" = ap (λ s. or_default s "On") graceful in
    subst (λ s. steer x d r vm [] ≡ adjust_power_state x s vm []) desired
      (steer-mismatch x d r vm (rw desired (not_graceful r.power_state state)))

abbrev pub supported_states : List String
supported_states = "On" ∷ "Off" ∷ "OffGraceful" ∷ []

-- The interval depends on the power state, of which it knows none that can be desired.
always_fast :
    (r : DescribeResponse) (desired : String)
    → contains supported_states desired ≡ true
    → str_eq r.power_state desired ≡ true
    → requeue_interval r ≡ 10 * second
unfolding requeue_interval
always_fast r desired supported in_state =
    contains-All (λ t. requeue_interval (record r { power_state = t }) ≡ 10 * second)
      supported_states r.power_state (refl, (refl, (refl, tt)))
      (rw ((eq_iff r.power_state desired).0 in_state) supported)

-- A VM with a supported desired power state and nothing left to do is looked at again after 10 seconds,
-- whether it is on or off and whatever addresses it has: the longer intervals are never taken.
settled_polls_fast :
    (x : MachineEnv) (d : Dependencies) (r : DescribeResponse) (vm : Machine)
    → contains supported_states (desired_power vm) ≡ true
    → str_eq r.power_state (desired_power vm) ≡ true
    → needs_reconfigure vm d.class ≡ false
    → (steer x d r vm []).0 ≡ requeue_after (10 * second)
unfolding settle
settled_polls_fast x d r vm supported in_state enough =
    rw (steer-settled x d r vm in_state enough, always_fast r (desired_power vm) supported in_state)
