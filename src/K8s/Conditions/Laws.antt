-- ===== src/K8s/Conditions/Laws.antt =====
-- The conditions of internal/k8s and internal/util/k8s as a map from types, which the slice keeps free
-- of duplicates.
use virtrigaud.Prelude.{
  ℕ, ◌≡◌, refl, false, ◌&&◌, String, List, [], ◌∷◌, Option, none, some, str_eq, if◌then◌else◌,
  arith, eq_iff, contains,
}
use virtrigaud.K8s.Conditions.{
  Condition, ConditionStatus, status_eq, set_condition, get_condition, remove_condition,
}

-- The condition that a reader finds after SetCondition of internal/k8s.
pub after_set : ℕ → String → ConditionStatus → String → String → Option Condition → Condition
after_set now type status reason message old = record {
  type = type;
  status = status;
  observed_generation = 0;
  last_transition_time = elim old [
    | none ↦ now
    | some c ↦
        if status_eq c.status status && str_eq c.reason reason then c.last_transition_time else now
  ];
  reason = reason;
  message = message;
}

-- SetCondition of internal/k8s is an update of a map: a reader of the same type finds the new status,
-- reason and message, with the old transition time exactly if a condition of the type was there with
-- that status and reason; a reader of any other type finds what was there.
pub get-set_condition :
    (now : ℕ) (type : String) (status : ConditionStatus) (reason message other : String)
    (cs : List Condition)
    → get_condition (set_condition now type status reason message cs) other ≡ (
        if str_eq type other
        then some (after_set now type status reason message (get_condition cs type))
        else get_condition cs other)
unfolding set_condition get_condition after_set
get-set_condition now type status reason message other [] = ground arith
get-set_condition now type status reason message other (c ∷ cs) = ground (
  arith,
  eq_iff type other,
  eq_iff c.type type,
  eq_iff c.type other,
  get-set_condition now type status reason message other cs,
)

unfoldable pub types : List Condition → List String
types [] = []
types (c ∷ cs) = c.type ∷ types cs

-- No type stands twice in the list.
abbrev pub Distinct : List String → Type 0
Distinct [] = Unit
Distinct (t ∷ ts) = (contains ts t ≡ false) × Distinct ts

unfoldable pub IsDistinct : List Condition → Type 0
IsDistinct cs = Distinct (types cs)

contains-set :
    (now : ℕ) (type : String) (status : ConditionStatus) (reason message t : String)
    (cs : List Condition)
    → str_eq type t ≡ false
    → contains (types (set_condition now type status reason message cs)) t ≡ contains (types cs) t
unfolding set_condition types
contains-set now type status reason message t [] h = ground arith
contains-set now type status reason message t (c ∷ cs) h =
    ground (arith, contains-set now type status reason message t cs h)

set-Distinct :
    (now : ℕ) (type : String) (status : ConditionStatus) (reason message : String)
    (cs : List Condition)
    → Distinct (types cs)
    → Distinct (types (set_condition now type status reason message cs))
unfolding set_condition types
set-Distinct now type status reason message [] d = (refl, tt)
set-Distinct now type status reason message (c ∷ cs) d = ground (
  arith,
  eq_iff c.type type,
  eq_iff type c.type,
  contains-set now type status reason message c.type cs,
  set-Distinct now type status reason message cs d.1,
)

-- SetCondition of internal/k8s never makes a second condition of a type.
pub set_condition-IsDistinct :
    (now : ℕ) (type : String) (status : ConditionStatus) (reason message : String)
    (cs : List Condition)
    → IsDistinct cs
    → IsDistinct (set_condition now type status reason message cs)
unfolding IsDistinct
set_condition-IsDistinct = set-Distinct

get-absent :
    (type : String) (cs : List Condition)
    → contains (types cs) type ≡ false
    → get_condition cs type ≡ none
unfolding get_condition types
get-absent type [] h = refl
get-absent type (c ∷ cs) h = ground (arith, get-absent type cs)

-- RemoveCondition takes only the first condition of its type; on a list without duplicates a reader
-- then finds none of that type, and of any other type what was there.
pub get-remove_condition :
    (type other : String) (cs : List Condition)
    → IsDistinct cs
    → get_condition (remove_condition type cs) other
      ≡ (if str_eq type other then none else get_condition cs other)
unfolding IsDistinct remove_condition get_condition types
get-remove_condition type other [] d = ground arith
get-remove_condition type other (c ∷ cs) d = ground (
  arith,
  eq_iff type other,
  eq_iff c.type type,
  eq_iff c.type other,
  get-absent other cs,
  get-remove_condition type other cs d.1,
)
