-- ===== src/Cloning/Types.antt =====
-- api/infra.virtrigaud.io/v1beta1/vmclone_types.go: the parts of a VMClone that its controller reads or
-- writes; what the controller is answered during one reconcile, and the calls by which it changes
-- something.
use virtrigaud.Prelude.{ℕ, Bool, String, List, Option}
use virtrigaud.Prelude.Dict.{Dict}
use virtrigaud.K8s.Conditions.{Condition, ConditionStatus, set_condition}
use virtrigaud.Migration.Types.{ObjectRef, Outcome, Answer}
use virtrigaud.Migration.Machines.{Fetched}
use virtrigaud.Machine.Types.{Machine, NetworkRef}
use virtrigaud.Machine.Env.{Host}

-- VMCloneTarget; class and placement are the names of what they refer to.
pub record CloneTarget : Type 0 where
  pub name : String
  pub namespace : String
  pub labels : Dict String
  pub annotations : Dict String
  pub class_ref : Option String
  pub networks : List NetworkRef
  pub placement_ref : Option String

-- VMCloneSpec: `source_vm` is the name of Source.VMRef, `clone_type` the type of Options, and
-- `customized` whether there is a customization.
pub record CloneSpec : Type 0 where
  pub source_vm : Option String
  pub target : CloneTarget
  pub clone_type : Option String
  pub customized : Bool

pub record CloneStatus : Type 0 where
  pub phase : String
  pub message : String
  pub observed_generation : ℕ
  pub task_ref : String
  pub target_vm_id : String
  pub target_ref : Option String
  pub actual_clone_type : String
  pub start_time : Option ℕ
  pub completion_time : Option ℕ
  pub conditions : List Condition

pub record VmClone : Type 0 where
  pub name : String
  pub namespace : String
  pub generation : ℕ
  pub deletion_timestamp : Option ℕ
  pub finalizers : List String
  pub spec : CloneSpec
  pub status : CloneStatus

-- contracts.CloneRequest and CloneResponse
pub record CloneRequest : Type 0 where
  pub source_vm_id : String
  pub target_name : String
  pub linked : Bool
  pub class_json : String
  pub placement_json : String
  pub customize_json : String

pub record CloneResponse : Type 0 where
  pub target_vm_id : String
  pub task_ref : String

-- The answer to the Create of an object
pub data Creation : Type 0 where
  created already_exists : Creation
  creation_failed : String → Creation

-- The functions answer calls by their arguments. `linked_clones` is what the provider reports of
-- SupportsLinkedClones, `none` if it does not report capabilities or the query fails. The three texts of
-- JSON are empty if there is nothing to encode or it fails. `latest_target` answers the whole of
-- retry.RetryOnConflict in bindTargetVM: the VM that was read at last, or the error.
pub record CloneEnv : Type 0 where
  pub now : ℕ
  pub get_vm : ObjectRef → Fetched Machine
  pub get_provider : ObjectRef → Fetched Host
  pub resolve : Host → Option String
  pub linked_clones : Option Bool
  pub implements_clone : Bool
  pub class_json : ObjectRef → String
  pub placement_json : String → String
  pub customize_json : VmClone → String
  pub clone : CloneRequest → Answer CloneResponse
  pub is_task_complete : String → Answer Bool
  pub create_vm : Machine → Creation
  pub latest_target : Answer Machine
  pub update_status : CloneStatus → Option String
  pub update : Option String

-- The calls that change something, whatever they answer. `seed_id` writes Status.ID of a VM.
pub data CloneCall : Type 0 where
  issue_clone : CloneRequest → CloneCall
  write_clone : CloneStatus → CloneCall
  create_target_vm : Machine → CloneCall
  seed_id : Machine → String → CloneCall
  write_clone_finalizers : List String → CloneCall

-- What a handler returns: its outcome, the clone as it is in memory, and the calls, the last one first.
abbrev pub Cloned : Type 0
Cloned = Outcome × VmClone × List CloneCall

abbrev pub with_clone_condition :
    CloneEnv → String → ConditionStatus → String → String → VmClone → VmClone
with_clone_condition x type status reason message c = record c {
  status = record (c.status) {
    conditions = set_condition x.now type status reason message c.status.conditions;
  };
}
