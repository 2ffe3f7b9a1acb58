-- ===== src/Machine/Once/Owned.antt =====
-- What the creation of a VM leaves of the equation that the stored ID accounts for every accepted Create.
use virtrigaud.Prelude.{◌+◌, ◌≡◌, true, false, String, List, str_eq, arith, inl, inr, Option-cases}
use virtrigaud.Migration.Types.{returned, Answer-cases}
use virtrigaud.Machine.Types.{Machine, MachineStatus}
use virtrigaud.Machine.Env.{MachineEnv, Call, Handled}
use virtrigaud.Machine.Dependencies.{Dependencies}
use virtrigaud.Machine.Request.Contract.{CreateRequest, CreateResponse, DescribeResponse}
use virtrigaud.Machine.Resources.{update_current_resources}
use virtrigaud.Machine.Creating.{
  create_vm, created_vm, send_create, invalid_spec, build_create_request,
}
use virtrigaud.Machine.Running.{
  adjust_power_state, power_op, accept_reconfigure, reconfigured, reconfigure_vm, observed, settle,
  steer, check_existing,
}
use virtrigaud.Machine.Request.Source.{or_default}
use virtrigaud.Machine.Once.{stored_status, accepted, owned}

-- The provider gives an ID to every VM that it creates, and reports none of them as gone.
pub record IsSteady (x : MachineEnv) : Type 0 where
  pub gives_id :
      (request : CreateRequest) (r : CreateResponse)
      → x.create request ≡ returned r
      → str_eq r.id "" ≡ false
  pub keeps : (id : String) (r : DescribeResponse) → x.describe id ≡ returned r → r.is_there ≡ true

-- The ID that is stored accounts for the VM that was there and for every Create that was answered.
abbrev pub Accounts : MachineEnv → MachineStatus → Handled → Type 0
Accounts x old (o, vm, calls) = owned (stored_status old calls) ≡ owned old + accepted x calls

-- Up to here nothing was created and no status was written.
pub record IsFresh (x : MachineEnv) (old : MachineStatus) (vm : Machine) (calls : List Call)
    : Type 0 where
  pub same_id : vm.status.id ≡ old.id
  pub same_status : stored_status old calls ≡ old
  pub none_accepted : accepted x calls ≡ 0

created_vm-id :
    (x : MachineEnv) (d : Dependencies) (r : CreateResponse) (vm : Machine)
    → (created_vm x d r vm).status.id ≡ r.id
unfolding created_vm update_current_resources
created_vm-id x d r vm = ground arith

module _ (x : MachineEnv) (old : MachineStatus) (d : Dependencies) (vm : Machine)
    (calls : List Call) (fresh : IsFresh x old vm calls) where
  send_create-Accounts :
      IsSteady x
      → (request : CreateRequest) → str_eq vm.status.id "" ≡ true
      → Accounts x old (send_create x d vm request calls)
  unfolding send_create accepted stored_status owned
  send_create-Accounts steady request e = elim (Answer-cases (x.create request)) [
    | inl (err, refusal) ↦ ground arith
    | inr (r, answer) ↦ ground (arith, created_vm-id x d r vm, steady.gives_id request r answer)
  ]

  pub create_vm-Accounts :
      IsSteady x → str_eq vm.status.id "" ≡ true → Accounts x old (create_vm x d vm calls)
  unfolding create_vm accepted stored_status owned
  create_vm-Accounts steady e = elim (Option-cases (invalid_spec vm)) [
    | inr (err, invalid) ↦ ground arith
    | inl valid ↦ elim (Answer-cases (build_create_request x vm d)) [
      | inl (err, refusal) ↦ ground arith
      | inr (request, built) ↦ ground (arith, send_create-Accounts steady request e)
    ]
  ]

  adjust_power_state-Accounts :
      (desired : String) → Accounts x old (adjust_power_state x desired vm calls)
  unfolding adjust_power_state accepted stored_status owned
  adjust_power_state-Accounts desired = elim (Option-cases (power_op desired)) [
    | inl unsupported ↦ ground arith
    | inr (op, supported) ↦ ground arith
  ]

  reconfigure_vm-Accounts : Accounts x old (reconfigure_vm x d vm calls)
  unfolding reconfigure_vm accept_reconfigure reconfigured update_current_resources accepted
      stored_status owned
  reconfigure_vm-Accounts = elim (Answer-cases (build_create_request x vm d)) [
    | inl (err, refusal) ↦ ground arith
    | inr (request, built) ↦ ground arith
  ]

  pub steer-Accounts : (r : DescribeResponse) → Accounts x old (steer x d r vm calls)
  unfolding steer settle accepted stored_status owned
  steer-Accounts r = ground (
    arith,
    adjust_power_state-Accounts (or_default vm.spec.power_state "On"),
    reconfigure_vm-Accounts,
  )

-- An existing VM is described, and it is there.
pub check_existing-Accounts :
    (x : MachineEnv) (old : MachineStatus) (d : Dependencies) (vm : Machine) (calls : List Call)
    → IsFresh x old vm calls
    → IsSteady x
    → Accounts x old (check_existing x d vm calls)
unfolding check_existing observed accepted stored_status owned
check_existing-Accounts x old d vm calls fresh steady =
    elim (Answer-cases (x.describe vm.status.id)) [
      | inl (err, refusal) ↦ ground arith
      | inr (r, answer) ↦ ground (
        arith,
        steady.keeps vm.status.id r answer,
        steer-Accounts x old d (observed r vm) calls
            (record {
              same_id = fresh.same_id;
              same_status = fresh.same_status;
              none_accepted = fresh.none_accepted;
            })
            r,
      )
    ]
