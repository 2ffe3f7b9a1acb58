-- ===== src/Migration/Guard/Moves.antt =====
-- How one reconcile can change the manager's state in vmmigration_controller.go, and what that means
-- for the calls that a provider has answered.
use virtrigaud.Prelude.{
  ℕ, suc, ◌≤◌, ◌≡◌, refl, ap, ◌⊎◌, inl, inr, Bool, true, false, List, [], ◌∷◌, String, str_eq,
  contains, arith, eq_iff, if◌then◌else◌,
}
use virtrigaud.Migration.Guard.{Manager, delete_key}

-- The guard was claimed and released again, and no call was answered.
abbrev pub Released : String → Manager → Manager → Type 0
Released k mgr mgr' =
    (mgr'.long_op_in_flight ≡ delete_key k (k ∷ mgr.long_op_in_flight))
    × (mgr'.answered ≡ mgr.answered)

-- The guard was claimed and the call was answered.
abbrev pub Answered : String → Manager → Manager → Type 0
Answered k mgr mgr' =
    (mgr'.long_op_in_flight ≡ k ∷ mgr.long_op_in_flight) × (mgr'.answered ≡ k ∷ mgr.answered)

abbrev pub Moves : String → Manager → Manager → Type 0
Moves k mgr mgr' =
    (mgr' ≡ mgr)
    ⊎ ((contains mgr.long_op_in_flight k ≡ false) × (Released k mgr mgr' ⊎ Answered k mgr mgr'))

-- How often a key stands in a list, and whether it stands in one.
unfoldable pub count : String → List String → ℕ
count k [] = 0
count k (j ∷ js) = let n = count k js in if str_eq j k then suc n else n

abbrev pub held : Bool → ℕ
held true = 1
held false = 0

pub held-le : (b : Bool) → held b ≤ 1
held-le true = omega arith
held-le false = omega arith

-- A call that was answered has its key in the guard.
abbrev pub Guarded : String → Manager → Type 0
Guarded k mgr = count k mgr.answered ≤ held (contains mgr.long_op_in_flight k)

contains-delete_other :
    (j k : String) (set : List String)
    → str_eq j k ≡ false
    → contains (delete_key k set) j ≡ contains set j
unfolding delete_key
contains-delete_other j k [] h = refl
contains-delete_other j k (i ∷ set) h =
    ground (arith, eq_iff i k, eq_iff i j, eq_iff j k, contains-delete_other j k set h)

pub Moves-Guarded :
    (j k : String) (mgr mgr' : Manager) → Moves k mgr mgr' → Guarded j mgr → Guarded j mgr'
unfolding count
Moves-Guarded j k mgr mgr' (inl e) g = ground arith
Moves-Guarded j k mgr mgr' (inr (free, inl (guard, log))) g = ground (
  arith,
  eq_iff k j,
  eq_iff j k,
  contains-delete_other j k (k ∷ mgr.long_op_in_flight),
  ap (λ set. contains set j) guard,
  ap (count j) log,
)
Moves-Guarded j k mgr mgr' (inr (free, inr (guard, log))) g = ground (arith, eq_iff k j)
