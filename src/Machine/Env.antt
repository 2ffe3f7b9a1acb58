-- ===== src/Machine/Env.antt =====
-- What the VirtualMachine controller is answered by the API server, the provider and the libraries during
-- one reconcile, and the calls by which it changes something.
use virtrigaud.Prelude.{ℕ, ◌*◌, Bool, String, List, ◌∷◌, Option}
use virtrigaud.Prelude.Dict.{Dict}
use virtrigaud.K8s.Conditions.{Condition, ConditionStatus, set_condition}
use virtrigaud.Contracts.Errors.{GoError}
use virtrigaud.Migration.Types.{ObjectRef, Outcome, requeue_after, Answer}
use virtrigaud.Migration.Machines.{Fetched}
use virtrigaud.Migration.Exporting.{second}
use virtrigaud.Machine.Types.{
  Machine, MachineStatus, MachineClass, Image, ImageStatus, NetworkConfig,
}
use virtrigaud.Machine.Request.Contract.{
  CreateRequest, CreateResponse, DescribeResponse, PrepareResponse,
}

-- `image_import` is ReportedCapabilities.SupportsImageImport, `none` when none were reported.
pub record Host : Type 0 where
  pub name : String
  pub image_import : Option Bool

-- What the provider's Delete answers: a task reference, empty if there is no task, or an error.
pub data DeleteAnswer : Type 0 where
  delete_begun : String → DeleteAnswer
  delete_refused : GoError → DeleteAnswer

-- The functions answer calls by their arguments. `resolve` is the error of the resolver, `image_json` of
-- the marshalling. `latest_image` answers the whole of retry.RetryOnConflict in writeImageStatus: the
-- object whose status was written at last, or the error. `set_status_condition` is
-- meta.SetStatusCondition, by type, status, reason, message and generation.
pub record MachineEnv : Type 0 where
  pub now : ℕ
  pub get_provider : ObjectRef → Fetched Host
  pub get_class : ObjectRef → Fetched MachineClass
  pub get_image : ObjectRef → Fetched Image
  pub get_network : ObjectRef → Fetched NetworkConfig
  pub get_secret : ObjectRef → Answer (Dict String)
  pub resolve : Host → Option String
  pub implements_prepare : Bool
  pub image_json : Option String
  pub prepare : String → Answer PrepareResponse
  pub latest_image : Answer Image
  pub set_status_condition :
      String → ConditionStatus → String → String → ℕ → List Condition → List Condition
  pub is_task_complete : String → Answer Bool
  pub create : CreateRequest → Answer CreateResponse
  pub describe : String → Answer DescribeResponse
  pub power : String → String → Answer String
  pub reconfigure : String → CreateRequest → Answer String
  pub delete : String → DeleteAnswer
  pub update : Option String

-- The calls that change something, whatever they answer. What updateStatus writes is the status as it is
-- in memory.
pub data Call : Type 0 where
  call_create : CreateRequest → Call
  call_power : String → String → Call
  call_reconfigure : String → CreateRequest → Call
  call_delete : String → Call
  call_prepare : String → Call
  write_status : MachineStatus → Call
  write_image_status : ImageStatus → Call
  write_finalizers : List String → Call

-- What a handler returns: its outcome, the VM as it is in memory, and the calls, the last one first.
abbrev pub Handled : Type 0
Handled = Outcome × Machine × List Call

-- A stage of the reconcile ends it, or lets it go on.
pub data Stage : Type 0 where
  stopped : Outcome → Machine → List Call → Stage
  goes_on : Machine → List Call → Stage

-- SetReadyCondition, SetProvisioningCondition and SetReconfiguringCondition, by the type
abbrev pub with_condition :
    MachineEnv → String → ConditionStatus → String → String → Machine → Machine
with_condition x type status reason message vm = record vm {
  status = record (vm.status) {
    conditions = set_condition x.now type status reason message vm.status.conditions;
  };
}

-- updateStatus, and a requeue after so many seconds
abbrev pub write_and_requeue : ℕ → Machine → List Call → Handled
write_and_requeue n vm calls = (requeue_after (n * second), vm, write_status vm.status ∷ calls)

abbrev pub stop_with : Handled → Stage
stop_with (o, vm, calls) = stopped o vm calls
