-- ===== src/Cloning/Once/History.antt =====
-- internal/controller/vmclone_controller.go: over any number of reconciles a VM is cloned once.
use virtrigaud.Prelude.{
  ◌+◌, ◌≤◌, ◌≡◌, refl, Bool, true, false, String, List, [], ◌∷◌, none, some, str_eq, if◌then◌else◌,
  arith, inl, inr, Option-cases,
}
use virtrigaud.Migration.Types.{returned, Answer-cases, ObjectRef}
use virtrigaud.Migration.Machines.{Fetched-cases, provider_key}
use virtrigaud.Machine.Types.{Machine}
use virtrigaud.Cloning.Types.{
  VmClone, CloneStatus, CloneEnv, CloneRequest, CloneResponse, issue_clone, write_clone,
}
use virtrigaud.Cloning.Target.{mark_failed, mark_pending}
use virtrigaud.Cloning.Binding.{poll_clone_task, record_clone, start_clone, clone_request, cloning}
use virtrigaud.Cloning.Reconcile.{
  target_namespace, is_linked, first_clone, continue_clone, with_provider, with_source, from_source,
  run_named, run_clone, put_finalizers, reconcile_clone,
}
use virtrigaud.Cloning.Once.{
  stored_clone, clones, has_target, GivesTarget, Balanced, bind_target_vm-Balanced, CloneRound,
  edited_clone, clone_calls, clone_after, total_clones,
}

module _ (x : CloneEnv) (source : Machine) (namespace : String) (old : CloneStatus) where
  poll_clone_task-Balanced :
      (c : VmClone)
      → c.status.target_vm_id ≡ old.target_vm_id
      → Balanced x old (poll_clone_task x source namespace c [])
  unfolding poll_clone_task mark_failed stored_clone clones has_target
  poll_clone_task-Balanced c same = elim (Answer-cases (x.is_task_complete c.status.task_ref)) [
    | inl (err, refusal) ↦ ground arith
    | inr (over, answer) ↦
        let c' = record c { status = record (c.status) { task_ref = "" } } in
        ground (
          arith,
          bind_target_vm-Balanced x source namespace old c.status.target_vm_id c'
              (write_clone c'.status ∷ [])
              (record { in_memory = ground arith; in_store = ground arith }),
        )
  ]

  record_clone-Balanced :
      (r : CloneResponse) (request : CloneRequest) (c : VmClone)
      → x.clone request ≡ returned r
      → str_eq r.target_vm_id "" ≡ false
      → str_eq old.target_vm_id "" ≡ true
      → Balanced x old (record_clone x source namespace r c (issue_clone request ∷ []))
  unfolding record_clone stored_clone clones has_target
  record_clone-Balanced r request c answer given unset =
      let c' = record c {
        status = record (c.status) { target_vm_id = r.target_vm_id; task_ref = r.task_ref };
      } in
      ground (
        arith,
        bind_target_vm-Balanced x source namespace old r.target_vm_id c'
            (write_clone c'.status ∷ issue_clone request ∷ [])
            (record { in_memory = ground arith; in_store = ground arith }),
      )

  start_clone-Balanced :
      (linked : Bool) (c : VmClone)
      → GivesTarget x
      → c.status.target_vm_id ≡ old.target_vm_id
      → str_eq old.target_vm_id "" ≡ true
      → Balanced x old (start_clone x source namespace linked c [])
  unfolding start_clone mark_failed cloning stored_clone clones has_target
  start_clone-Balanced linked c gives same unset =
      let request = clone_request x source namespace linked c in
      elim (Answer-cases (x.clone request)) [
        | inl (err, refusal) ↦ ground arith
        | inr (r, answer) ↦ ground (
          arith,
          record_clone-Balanced r request (cloning x source namespace linked c) answer
              (gives request r answer) unset,
        )
      ]

module _ (x : CloneEnv) (old : CloneStatus) (gives : GivesTarget x) where
  first_clone-Balanced :
      (source : Machine) (c : VmClone)
      → c.status.target_vm_id ≡ old.target_vm_id
      → str_eq old.target_vm_id "" ≡ true
      → Balanced x old (first_clone x source c)
  unfolding first_clone mark_failed stored_clone clones has_target
  first_clone-Balanced source c same unset =
      let key : ObjectRef = record { name = c.spec.target.name; namespace = target_namespace c } in
      elim (Fetched-cases (x.get_vm key)) [
        | inl (vm, e) ↦ ground arith
        | inr (inl absent) ↦ ground (
          arith,
          start_clone-Balanced x source (target_namespace c) old (is_linked c) c gives same unset,
        )
        | inr (inr (err, e)) ↦ ground arith
      ]

  continue_clone-Balanced :
      (source : Machine) (c : VmClone)
      → c.status.target_vm_id ≡ old.target_vm_id
      → Balanced x old (continue_clone x source c)
  unfolding continue_clone mark_failed stored_clone clones has_target
  continue_clone-Balanced source c same = ground (
    arith,
    poll_clone_task-Balanced x source (target_namespace c) old c same,
    bind_target_vm-Balanced x source (target_namespace c) old c.status.target_vm_id c []
        (record { in_memory = ground arith; in_store = ground arith }),
    first_clone-Balanced source c same,
  )

  with_source-Balanced :
      (source : Machine) (c : VmClone)
      → c.status.target_vm_id ≡ old.target_vm_id
      → Balanced x old (with_source x source c)
  unfolding with_source with_provider mark_pending stored_clone clones has_target
  with_source-Balanced source c same =
      elim (Fetched-cases
        (x.get_provider (provider_key source.namespace source.spec.provider_ref))) [
          | inl (p, e) ↦ elim (Option-cases (x.resolve p)) [
            | inl resolved ↦ ground (arith, continue_clone-Balanced source c same)
            | inr (err, failure) ↦ ground arith
          ]
          | inr (inl absent) ↦ ground arith
          | inr (inr (err, e)) ↦ ground arith
        ]

  from_source-Balanced :
      (name : String) (c : VmClone)
      → c.status.target_vm_id ≡ old.target_vm_id
      → Balanced x old (from_source x name c)
  unfolding from_source mark_pending stored_clone clones has_target
  from_source-Balanced name c same =
      let key : ObjectRef = record { name = name; namespace = c.namespace } in
      elim (Fetched-cases (x.get_vm key)) [
        | inl (source, e) ↦ ground (arith, with_source-Balanced source c same)
        | inr (inl absent) ↦ ground arith
        | inr (inr (err, e)) ↦ ground arith
      ]

run_named-Balanced :
    (x : CloneEnv) (old : CloneStatus) (name : String) (c : VmClone)
    → GivesTarget x
    → c.status.target_vm_id ≡ old.target_vm_id
    → Balanced x old (run_named x name c)
unfolding run_named mark_failed stored_clone clones has_target
run_named-Balanced x old name c gives same =
    ground (arith, from_source-Balanced x old gives name c same)

run_clone-Balanced :
    (x : CloneEnv) (c : VmClone) → GivesTarget x → Balanced x c.status (run_clone x c)
unfolding run_clone
run_clone-Balanced x c gives =
    run_named-Balanced x c.status (elim c.spec.source_vm [ none ↦ "" | some n ↦ n ])
      (record c { status = record (c.status) { observed_generation = c.generation } }) gives refl

reconcile_clone-Balanced :
    (x : CloneEnv) (c : VmClone) → GivesTarget x → Balanced x c.status (reconcile_clone x c)
unfolding reconcile_clone put_finalizers stored_clone clones has_target
reconcile_clone-Balanced x c gives = ground (arith, run_clone-Balanced x c gives)

-- In every round the provider gives an ID to the VM that it makes.
abbrev pub AllGive : List CloneRound → Type 0
AllGive [] = Unit
AllGive (r ∷ rs) = GivesTarget r.env × AllGive rs

clone_after-has_target :
    (r : CloneRound) (c : VmClone)
    → GivesTarget r.env
    → has_target (clone_after r c).status ≡ has_target c.status + clones r.env (clone_calls r c)
unfolding clone_after clone_calls edited_clone
clone_after-has_target r c gives = reconcile_clone-Balanced r.env (edited_clone r c) gives

has_target-le-one : (c : VmClone) → has_target c.status ≤ 1
unfolding has_target
has_target-le-one c = ground arith

total_clones-bound :
    (rs : List CloneRound) (c : VmClone) → AllGive rs → has_target c.status + total_clones rs c ≤ 1
unfolding total_clones
total_clones-bound [] c gives = omega (arith, has_target-le-one c)
total_clones-bound (r ∷ rs) c gives =
    omega
      (arith, clone_after-has_target r c gives.0, total_clones-bound rs (clone_after r c) gives.1)

-- Over any rounds of reconciles, with whatever edits of the object's specification, finalizers and deletion
-- or answers of the API server and of the provider between and in them: if every status write is stored
-- and every Clone that the provider answers gives an ID, then the provider answers at most one Clone in
-- total, and none if the status named a target VM at first.
pub clone_at_most_once :
    (rs : List CloneRound) (c : VmClone)
    → AllGive rs
    → total_clones rs c ≤ (if str_eq c.status.target_vm_id "" then 1 else 0)
unfolding has_target
clone_at_most_once rs c gives = ground (arith, total_clones-bound rs c gives)
