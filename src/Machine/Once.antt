-- ===== src/Machine/Once.antt =====
-- internal/controller/virtualmachine_controller.go: the life of a VM over many reconciles. What is stored
-- is the status and the finalizers that were written last; users edit the rest between two reconciles.
pub mod Owned
mod Stages
pub mod History
pub mod Adopted
use virtrigaud.Prelude.{
  ℕ, ◌+◌, Bool, true, false, String, List, [], ◌∷◌, Option, none, some, str_eq, if◌then◌else◌,
}
use virtrigaud.Prelude.Dict.{Dict}
use virtrigaud.Migration.Types.{Answer, returned, refused}
use virtrigaud.Machine.Types.{Machine, MachineSpec, MachineStatus}
use virtrigaud.Machine.Env.{
  MachineEnv, Call, call_create, call_power, call_reconfigure, call_delete, call_prepare,
  write_status, write_image_status, write_finalizers, Handled,
}
use virtrigaud.Machine.Reconcile.{reconcile_machine}

-- The status that is stored after the calls, the last of which comes first
unfoldable pub stored_status : MachineStatus → List Call → MachineStatus
stored_status old [] = old
stored_status old (write_status s ∷ calls) = s
stored_status old (call_create _ ∷ calls) = stored_status old calls
stored_status old (call_power _ _ ∷ calls) = stored_status old calls
stored_status old (call_reconfigure _ _ ∷ calls) = stored_status old calls
stored_status old (call_delete _ ∷ calls) = stored_status old calls
stored_status old (call_prepare _ ∷ calls) = stored_status old calls
stored_status old (write_image_status _ ∷ calls) = stored_status old calls
stored_status old (write_finalizers _ ∷ calls) = stored_status old calls

-- The finalizers that are stored, if the update was answered
unfoldable pub stored_finalizers : MachineEnv → Machine → Machine → List String
stored_finalizers x old vm = elim x.update [ none ↦ vm.finalizers | some _ ↦ old.finalizers ]

one_if_answered : {A : Type 0} → Answer A → ℕ
one_if_answered (returned _) = 1
one_if_answered (refused _) = 0

-- How many of the calls are a Create that the provider has answered
unfoldable pub accepted : MachineEnv → List Call → ℕ
unfolding one_if_answered
accepted x [] = 0
accepted x (call_create r ∷ calls) = one_if_answered (x.create r) + accepted x calls
accepted x (call_power _ _ ∷ calls) = accepted x calls
accepted x (call_reconfigure _ _ ∷ calls) = accepted x calls
accepted x (call_delete _ ∷ calls) = accepted x calls
accepted x (call_prepare _ ∷ calls) = accepted x calls
accepted x (write_status _ ∷ calls) = accepted x calls
accepted x (write_image_status _ ∷ calls) = accepted x calls
accepted x (write_finalizers _ ∷ calls) = accepted x calls

-- One if the status names a VM of the provider
unfoldable pub owned : MachineStatus → ℕ
owned s = if str_eq s.id "" then 0 else 1

-- A reconcile and what users have made of the object before it
pub record Round : Type 0 where
  pub env : MachineEnv
  pub spec : MachineSpec
  pub generation : ℕ
  pub labels : Dict String
  pub annotations : Dict String
  pub deletion_timestamp : Option ℕ

unfoldable pub edited : Round → Machine → Machine
edited round vm = record vm {
  spec = round.spec;
  generation = round.generation;
  labels = round.labels;
  annotations = round.annotations;
  deletion_timestamp = round.deletion_timestamp;
}

-- The object as the round leaves it in the API server
unfoldable pub stored_after : Round → Machine → Machine
unfolding stored_status stored_finalizers edited
stored_after round vm =
    let before = edited round vm in
    let (o, vm', calls) = reconcile_machine round.env before in
    record before {
      status = stored_status vm.status calls;
      finalizers = stored_finalizers round.env before vm';
    }

unfoldable pub calls_of : Round → Machine → List Call
unfolding edited
calls_of round vm = (reconcile_machine round.env (edited round vm)).2

-- How many VMs the provider has created for the object, over all rounds
unfoldable pub total_accepted : List Round → Machine → ℕ
unfolding accepted calls_of stored_after
total_accepted [] vm = 0
total_accepted (r ∷ rs) vm = accepted r.env (calls_of r vm) + total_accepted rs (stored_after r vm)
