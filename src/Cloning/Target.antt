-- ===== src/Cloning/Target.antt =====
-- internal/controller/vmclone_controller.go: buildTargetVM, and the ends of a reconcile that write the
-- status, markFailed, markPending and finalizeReady.
use virtrigaud.Prelude.{◌*◌, String, List, [], ◌∷◌, Option, none, some, str_eq, if◌then◌else◌}
use virtrigaud.Prelude.Dict.{insert}
use virtrigaud.K8s.Conditions.{condition_true, condition_false}
use virtrigaud.Migration.Types.{done, requeue_after, error}
use virtrigaud.Migration.Creating.{merge}
use virtrigaud.Migration.Exporting.{second}
use virtrigaud.Machine.Types.{Machine}
use virtrigaud.Cloning.Types.{
  VmClone, CloneEnv, CloneCall, write_clone, Cloned, with_clone_condition,
}

abbrev pub adopted_label : String
adopted_label = "virtrigaud.io/adopted"

-- A reference by a name that is not empty
named : Option String → Option String
named none = none
named (some name) = if str_eq name "" then none else some name

-- buildTargetVM. The reference to the provider is that of the source VM as it stands there.
unfoldable pub build_target_vm : VmClone → Machine → String → Machine
unfolding named
build_target_vm c source namespace = record {
  name = c.spec.target.name;
  namespace = namespace;
  generation = 0;
  deletion_timestamp = none;
  finalizers = [];
  labels = insert adopted_label "true" (merge c.spec.target.labels []);
  annotations =
      merge c.spec.target.annotations
        (("virtrigaud.io/cloned-from", source.name) ∷ ("virtrigaud.io/clone", c.name) ∷ []);
  spec = record {
    provider_ref = source.spec.provider_ref;
    class_ref = elim (named c.spec.target.class_ref) [
      | none ↦ source.spec.class_ref
      | some name ↦ record { name = name; namespace = "" }
    ];
    image_ref = none;
    imported_disk = none;
    networks = c.spec.target.networks;
    disks = [];
    user_data = none;
    meta_data = none;
    placement = none;
    power_state = "";
    tags = [];
    resources = none;
    placement_ref = named c.spec.target.placement_ref;
  };
  status = record {
    id = "";
    power_state = "";
    ips = [];
    console_url = "";
    provider = [];
    conditions = [];
    observed_generation = 0;
    last_task_ref = "";
    reconfigure_task_ref = "";
    last_reconfigure_time = none;
    current_resources = none;
    phase = "";
  };
}

module _ (x : CloneEnv) where
  -- markFailed, whatever the update of the status answers
  unfoldable pub mark_failed : String → String → VmClone → List CloneCall → Cloned
  mark_failed reason message c calls =
      let c' = with_clone_condition x "Failed" condition_true reason message (
        with_clone_condition x "Ready" condition_false reason message (record c {
          status = record (c.status) { phase = "Failed"; message = message; task_ref = "" };
        })) in
      (done, c', write_clone c'.status ∷ calls)

  -- markPending
  unfoldable pub mark_pending : String → String → VmClone → List CloneCall → Cloned
  mark_pending reason message c calls =
      let c' =
        with_clone_condition x "Ready" condition_false reason message
          (record c { status = record (c.status) { phase = "Pending"; message = message } }) in
      (requeue_after (30 * second), c', write_clone c'.status ∷ calls)

  -- finalizeReady
  unfoldable pub finalize_ready : String → VmClone → List CloneCall → Cloned
  finalize_ready target_name c calls =
      let c' = with_clone_condition x "Cloning" condition_false "Completed" "Clone completed" (
        with_clone_condition x "Ready" condition_true "Completed" "Clone completed successfully"
          (record c {
            status = record (c.status) {
              phase = "Ready";
              message = "Clone completed successfully";
              task_ref = "";
              completion_time = some x.now;
              target_ref = some target_name;
            };
          })) in
      (
        (elim (x.update_status c'.status) [ none ↦ done | some err ↦ error err ]),
        c',
        write_clone c'.status ∷ calls,
      )
