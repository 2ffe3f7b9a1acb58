-- ===== src/Cloning/Binding.antt =====
-- internal/controller/vmclone_controller.go: startClone, pollCloneTask and bindTargetVM.
use virtrigaud.Prelude.{
  ◌*◌, Bool, true, false, not, String, List, [], ◌∷◌, none, some, str_eq, sprintf, if◌then◌else◌,
}
use virtrigaud.K8s.Conditions.{condition_true}
use virtrigaud.Migration.Types.{requeue_after, error, returned, refused}
use virtrigaud.Migration.Machines.{found, missing, fetch_failed}
use virtrigaud.Migration.Exporting.{second}
use virtrigaud.Machine.Types.{Machine}
use virtrigaud.Cloning.Types.{
  VmClone, CloneRequest, CloneResponse, created, already_exists, creation_failed, CloneEnv,
  CloneCall, issue_clone, write_clone, create_target_vm, seed_id, Cloned, with_clone_condition,
}
use virtrigaud.Cloning.Target.{build_target_vm, mark_failed, finalize_ready}

-- classJSON, placementJSON and customizeJSON
class_json_of : CloneEnv → VmClone → String
class_json_of x c = elim c.spec.target.class_ref [
  | none ↦ ""
  | some name ↦
      if str_eq name "" then "" else x.class_json (record { name = name; namespace = c.namespace })
]

placement_json_of : CloneEnv → VmClone → String
placement_json_of x c = elim c.spec.target.placement_ref [
  | none ↦ ""
  | some name ↦ if str_eq name "" then "" else x.placement_json name
]

customize_json_of : CloneEnv → VmClone → String
customize_json_of x c = if c.spec.customized then x.customize_json c else ""

module _ (x : CloneEnv) (source : Machine) (namespace : String) where
  -- The ID is written to the target VM, unless the VM that was read has it already.
  unfoldable pub seed_target : String → VmClone → List CloneCall → Cloned
  unfolding finalize_ready
  seed_target id c calls = elim x.latest_target [
    | refused err ↦ (requeue_after (5 * second), c, calls)
    | returned latest ↦
        finalize_ready x c.spec.target.name c
          (if str_eq latest.status.id id then calls else seed_id latest id ∷ calls)
  ]

  -- The target VM does not exist: it is created.
  unfoldable pub create_and_seed : String → VmClone → List CloneCall → Cloned
  unfolding build_target_vm mark_failed seed_target
  create_and_seed id c calls =
      let target = build_target_vm c source namespace in
      let called = create_target_vm target ∷ calls in
      elim (x.create_vm target) [
        | creation_failed err ↦
            mark_failed x "ProviderError" (sprintf ("failed to create target VM: " ∷ err ∷ [])) c
              called
        | created ↦ seed_target id c called
        | already_exists ↦ seed_target id c called
      ]

  -- bindTargetVM
  unfoldable pub bind_target_vm : String → VmClone → List CloneCall → Cloned
  unfolding mark_failed create_and_seed seed_target
  bind_target_vm id c calls =
      if str_eq id ""
      then mark_failed x "ProviderError" "clone completed but provider returned no target VM ID" c
          calls
      else (elim (x.get_vm (record { name = c.spec.target.name; namespace = namespace })) [
        | missing ↦ create_and_seed id c calls
        | fetch_failed err ↦ (requeue_after (30 * second), c, calls)
        | found _ ↦ seed_target id c calls
      ])

  -- pollCloneTask
  unfoldable pub poll_clone_task : VmClone → List CloneCall → Cloned
  unfolding mark_failed bind_target_vm
  poll_clone_task c calls = elim (x.is_task_complete c.status.task_ref) [
    | refused err ↦
        mark_failed x "ProviderError" (sprintf ("clone task failed: " ∷ err ∷ [])) c calls
    | returned false ↦ (requeue_after (10 * second), c, calls)
    | returned true ↦
        let c' = record c { status = record (c.status) { task_ref = "" } } in
        let called = write_clone c'.status ∷ calls in
        elim (x.update_status c'.status) [
          | some err ↦ (error err, c', called)
          | none ↦ bind_target_vm c'.status.target_vm_id c' called
        ]
  ]

  unfoldable pub clone_request : Bool → VmClone → CloneRequest
  unfolding class_json_of placement_json_of customize_json_of
  clone_request linked c = record {
    source_vm_id = source.status.id;
    target_name = c.spec.target.name;
    linked = linked;
    class_json = class_json_of x c;
    placement_json = placement_json_of x c;
    customize_json = customize_json_of x c;
  }

  unfoldable pub cloning : Bool → VmClone → VmClone
  cloning linked c =
      with_clone_condition x "Cloning" condition_true "Cloning" "Clone operation initiated"
        (record c {
          status = record (c.status) {
            phase = "Cloning";
            start_time = some x.now;
            actual_clone_type = if linked then "LinkedClone" else "FullClone";
          };
        })

  -- The Clone was answered: what it gave is written before anything is bound.
  unfoldable pub record_clone : CloneResponse → VmClone → List CloneCall → Cloned
  unfolding bind_target_vm
  record_clone r c calls =
      let c' = record c {
        status = record (c.status) { target_vm_id = r.target_vm_id; task_ref = r.task_ref };
      } in
      let called = write_clone c'.status ∷ calls in
      elim (x.update_status c'.status) [
        | some err ↦ (error err, c', called)
        | none ↦
            if str_eq r.task_ref ""
            then bind_target_vm r.target_vm_id c' called
            else (requeue_after (10 * second), c', called)
      ]

  -- startClone
  unfoldable pub start_clone : Bool → VmClone → List CloneCall → Cloned
  unfolding mark_failed clone_request cloning record_clone
  start_clone linked c calls =
      if not x.implements_clone
      then mark_failed x "Unsupported" "provider does not support clone" c calls
      else (let called = issue_clone (clone_request linked c) ∷ calls in
          elim (x.clone (clone_request linked c)) [
            | refused err ↦
                mark_failed x "ProviderError" (sprintf ("clone failed: " ∷ err ∷ []))
                  (cloning linked c) called
            | returned r ↦ record_clone r (cloning linked c) called
          ])
