-- ===== src/Cloning/Once.antt =====
-- internal/controller/vmclone_controller.go: the life of a VMClone over many reconciles. What is stored is
-- the status that was written last.
pub mod History
pub mod Failing
use virtrigaud.Prelude.{
  ℕ, ◌+◌, ◌≤◌, ◌≡◌, refl, Bool, true, false, not, String, List, [], ◌∷◌, Option, none, some, str_eq,
  if◌then◌else◌, arith, inl, inr, Option-cases, Bool-cases,
}
use virtrigaud.Migration.Types.{Answer, returned, refused, Answer-cases, ObjectRef}
use virtrigaud.Migration.Machines.{Fetched-cases, provider_key}
use virtrigaud.Machine.Types.{Machine}
use virtrigaud.Machine.Env.{Host}
use virtrigaud.Cloning.Types.{
  VmClone, CloneSpec, CloneStatus, CloneEnv, CloneCall, CloneRequest, CloneResponse, issue_clone,
  write_clone, create_target_vm, seed_id, write_clone_finalizers, Cloned, Creation, created,
  already_exists, creation_failed,
}
use virtrigaud.Cloning.Target.{build_target_vm, mark_failed, mark_pending, finalize_ready}
use virtrigaud.Cloning.Binding.{
  seed_target, create_and_seed, bind_target_vm, poll_clone_task, record_clone, start_clone,
}
use virtrigaud.Cloning.Reconcile.{
  target_namespace, is_linked, linked_is_blocked, first_clone, continue_clone, with_provider,
  with_source, from_source, run_clone, put_finalizers, reconcile_clone,
}

-- The status that is stored after the calls, the last of which comes first
unfoldable pub stored_clone : CloneStatus → List CloneCall → CloneStatus
stored_clone old [] = old
stored_clone old (write_clone s ∷ calls) = s
stored_clone old (issue_clone _ ∷ calls) = stored_clone old calls
stored_clone old (create_target_vm _ ∷ calls) = stored_clone old calls
stored_clone old (seed_id _ _ ∷ calls) = stored_clone old calls
stored_clone old (write_clone_finalizers _ ∷ calls) = stored_clone old calls

one_if_cloned : Answer CloneResponse → ℕ
one_if_cloned (returned _) = 1
one_if_cloned (refused _) = 0

-- How many of the calls are a Clone that the provider has answered
unfoldable pub clones : CloneEnv → List CloneCall → ℕ
unfolding one_if_cloned
clones x [] = 0
clones x (issue_clone r ∷ calls) = one_if_cloned (x.clone r) + clones x calls
clones x (write_clone _ ∷ calls) = clones x calls
clones x (create_target_vm _ ∷ calls) = clones x calls
clones x (seed_id _ _ ∷ calls) = clones x calls
clones x (write_clone_finalizers _ ∷ calls) = clones x calls

-- One if the status names the VM that the provider has made
unfoldable pub has_target : CloneStatus → ℕ
has_target s = if str_eq s.target_vm_id "" then 0 else 1

-- The provider gives an ID to every clone.
abbrev pub GivesTarget : CloneEnv → Type 0
GivesTarget x =
    (request : CloneRequest) (r : CloneResponse)
    → x.clone request ≡ returned r
    → str_eq r.target_vm_id "" ≡ false

abbrev pub Balanced : CloneEnv → CloneStatus → Cloned → Type 0
Balanced x old (o, c, calls) = has_target (stored_clone old calls) ≡ has_target old + clones x calls

-- In memory and in the store, the target's ID accounts for the clones so far.
pub record IsEven (x : CloneEnv) (old : CloneStatus) (c : VmClone) (calls : List CloneCall)
    : Type 0 where
  pub in_memory : has_target c.status ≡ has_target old + clones x calls
  pub in_store : has_target (stored_clone old calls) ≡ has_target old + clones x calls

module _ (x : CloneEnv) (source : Machine) (namespace : String) (old : CloneStatus) where
  seed_target-Balanced :
      (id : String) (c : VmClone) (calls : List CloneCall)
      → IsEven x old c calls
      → Balanced x old (seed_target x source namespace id c calls)
  unfolding seed_target finalize_ready stored_clone clones has_target
  seed_target-Balanced id c calls even = elim (Answer-cases x.latest_target) [
    | inl (err, refusal) ↦ ground arith
    | inr (latest, answer) ↦ ground arith
  ]

  create_and_seed-Balanced :
      (id : String) (c : VmClone) (calls : List CloneCall)
      → IsEven x old c calls
      → Balanced x old (create_and_seed x source namespace id c calls)
  unfolding create_and_seed mark_failed stored_clone clones has_target
  create_and_seed-Balanced id c calls even =
      let called = create_target_vm (build_target_vm c source namespace) ∷ calls in
      ground (
        arith,
        seed_target-Balanced id c called
            (record { in_memory = even.in_memory; in_store = even.in_store }),
      )

  pub bind_target_vm-Balanced :
      (id : String) (c : VmClone) (calls : List CloneCall)
      → IsEven x old c calls
      → Balanced x old (bind_target_vm x source namespace id c calls)
  unfolding bind_target_vm mark_failed stored_clone clones has_target
  bind_target_vm-Balanced id c calls even =
      let key : ObjectRef = record { name = c.spec.target.name; namespace = namespace } in
      elim (Fetched-cases (x.get_vm key)) [
        | inl (vm, e) ↦ ground (arith, seed_target-Balanced id c calls even)
        | inr (inl absent) ↦ ground (arith, create_and_seed-Balanced id c calls even)
        | inr (inr (err, e)) ↦ ground arith
      ]

-- A reconcile, and what users have made of the object before it
pub record CloneRound : Type 0 where
  pub env : CloneEnv
  pub spec : CloneSpec
  pub generation : ℕ
  pub finalizers : List String
  pub deletion_timestamp : Option ℕ

unfoldable pub edited_clone : CloneRound → VmClone → VmClone
edited_clone round c = record c {
  spec = round.spec;
  generation = round.generation;
  finalizers = round.finalizers;
  deletion_timestamp = round.deletion_timestamp;
}

unfoldable pub clone_calls : CloneRound → VmClone → List CloneCall
unfolding edited_clone
clone_calls round c = (reconcile_clone round.env (edited_clone round c)).2

-- The object as the round leaves it in the API server
unfoldable pub clone_after : CloneRound → VmClone → VmClone
unfolding stored_clone edited_clone clone_calls
clone_after round c = record (edited_clone round c) {
  status = stored_clone c.status (clone_calls round c);
}

-- How many clones the provider has made for the object, over all rounds
unfoldable pub total_clones : List CloneRound → VmClone → ℕ
unfolding clones clone_calls clone_after
total_clones [] c = 0
total_clones (r ∷ rs) c = clones r.env (clone_calls r c) + total_clones rs (clone_after r c)
