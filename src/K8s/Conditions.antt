-- ===== src/K8s/Conditions.antt =====
-- internal/k8s/conditions.go and internal/util/k8s/conditions.go: the list of conditions in an object's
-- status. The clock is read once for each call; a change through the slice's pointer is a new list.
pub mod Laws
mod Tests
use virtrigaud.Prelude.{
  ℕ, ◌+◌, Bool, true, false, ◌&&◌, not, String, List, [], ◌∷◌, Option, none, some, str_eq,
  if◌then◌else◌,
}

pub data ConditionStatus : Type 0 where
  condition_true condition_false condition_unknown : ConditionStatus

-- metav1.Condition
pub record Condition : Type 0 where
  pub type : String
  pub status : ConditionStatus
  pub observed_generation : ℕ
  pub last_transition_time : ℕ
  pub reason : String
  pub message : String

abbrev pub status_eq : ConditionStatus → ConditionStatus → Bool
status_eq condition_true condition_true = true
status_eq condition_false condition_false = true
status_eq condition_unknown condition_unknown = true
status_eq _ _ = false

-- What SetCondition of internal/k8s writes over an existing condition: the time of the transition
-- stays unless the status or the reason changed, and the other fields are those of a new condition.
overwrite : ℕ → ConditionStatus → String → String → Condition → Condition
overwrite now status reason message existing = record {
  type = existing.type;
  status = status;
  observed_generation = 0;
  last_transition_time =
      if status_eq existing.status status && str_eq existing.reason reason
      then existing.last_transition_time
      else now;
  reason = reason;
  message = message;
}

-- SetCondition of internal/k8s
unfoldable pub set_condition :
    ℕ → String → ConditionStatus → String → String → List Condition → List Condition
unfolding overwrite
set_condition now type status reason message [] =
    record {
      type = type;
      status = status;
      observed_generation = 0;
      last_transition_time = now;
      reason = reason;
      message = message;
    }
    ∷ []
set_condition now type status reason message (c ∷ cs) =
    if str_eq c.type type
    then overwrite now status reason message c ∷ cs
    else c ∷ set_condition now type status reason message cs

-- GetCondition, the same in both packages: the first condition of the type
unfoldable pub get_condition : List Condition → String → Option Condition
get_condition [] type = none
get_condition (c ∷ cs) type = if str_eq c.type type then some c else get_condition cs type

has_status : ConditionStatus → Option Condition → Bool
has_status status none = false
has_status status (some c) = status_eq c.status status

-- IsConditionTrue, IsConditionFalse, IsConditionUnknown
unfoldable pub is_condition_true : List Condition → String → Bool
unfolding has_status get_condition
is_condition_true cs type = has_status condition_true (get_condition cs type)

unfoldable pub is_condition_false : List Condition → String → Bool
unfolding has_status get_condition
is_condition_false cs type = has_status condition_false (get_condition cs type)

unfoldable pub is_condition_unknown : List Condition → String → Bool
unfolding has_status get_condition
is_condition_unknown cs type = has_status condition_unknown (get_condition cs type)

-- What SetCondition of internal/util/k8s writes over an existing condition: nothing if status, reason
-- and message are the same, and a new generation otherwise.
update : ℕ → ConditionStatus → String → String → Condition → Condition
update now status reason message c =
    if status_eq c.status status && str_eq c.reason reason && str_eq c.message message
    then c
    else record c {
      status = status;
      observed_generation = c.observed_generation + 1;
      last_transition_time = now;
      reason = reason;
      message = message;
    }

-- SetCondition of internal/util/k8s
unfoldable pub set_util_condition :
    ℕ → String → ConditionStatus → String → String → List Condition → List Condition
unfolding update
set_util_condition now type status reason message [] =
    record {
      type = type;
      status = status;
      observed_generation = 1;
      last_transition_time = now;
      reason = reason;
      message = message;
    }
    ∷ []
set_util_condition now type status reason message (c ∷ cs) =
    if str_eq c.type type
    then update now status reason message c ∷ cs
    else c ∷ set_util_condition now type status reason message cs

-- RemoveCondition of internal/util/k8s: the first condition of the type
unfoldable pub remove_condition : String → List Condition → List Condition
remove_condition type [] = []
remove_condition type (c ∷ cs) = if str_eq c.type type then cs else c ∷ remove_condition type cs
