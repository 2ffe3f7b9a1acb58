-- ===== src/Migration/Snapshotting.antt =====
-- internal/controller/vmmigration_controller.go: handleSnapshottingPhase. The answers of the API server
-- and of the source provider are arguments, and so are the first eight characters of the UID.
pub mod Laws
mod Tests
use virtrigaud.Prelude.{
  ℕ, ◌*◌, not, String, List, [], ◌∷◌, Option, none, some, str_eq, sprintf, if◌then◌else◌,
}
use virtrigaud.K8s.Conditions.{condition_true, set_condition}
use virtrigaud.Migration.Types.{
  Migration, Provider, ObjectRef, exporting, Outcome, requeue, requeue_after, Answer, returned,
  refused,
}
use virtrigaud.Migration.Failed.{Env, after_update, transition_to_failed}
use virtrigaud.Migration.Exporting.{second}
use virtrigaud.Migration.Machines.{VirtualMachine, Effect, snapshot_create, Effected, provider_key}
use virtrigaud.Migration.Validating.{fail_effected, source_provider_ref}

-- SnapshotCreateResponse: the snapshot's ID, and the ID of its task if there is one
pub record SnapshotResponse : Type 0 where
  pub snapshot_id : String
  pub task : Option String

pub record SnapshotEnv : Type 0 where
  pub env : Env
  pub source_vm : Answer VirtualMachine
  pub get_provider : ObjectRef → Answer Provider
  pub provider_instance : Answer String
  pub uid_prefix : String
  pub create : Answer SnapshotResponse

-- The transition to Exporting with what is said of the snapshot; the task reference is `task_ref`.
unfoldable pub to_exporting :
    Env → String → String → String → String → String → Migration → Outcome × Migration
to_exporting env snapshot_id message reason detail task_ref m = (
  after_update env requeue,
  record m {
    status = record (m.status) {
      snapshot_id = snapshot_id;
      phase = exporting;
      message = message;
      task_ref = task_ref;
      conditions =
          set_condition env.now "Snapshotting" condition_true reason detail m.status.conditions;
    };
  },
)

unfoldable pub task_id_of : SnapshotResponse → String
task_id_of r = elim r.task [ none ↦ "" | some id ↦ id ]

-- What follows SnapshotCreate: with a task the phase stays, without one the export is next.
unfoldable pub note_snapshot : Env → SnapshotResponse → Migration → Outcome × Migration
unfolding to_exporting task_id_of
note_snapshot env r m =
    if not (str_eq (task_id_of r) "")
    then (
      after_update env (requeue_after (10 * second)),
      record m {
        status = record (m.status) {
          snapshot_id = r.snapshot_id;
          message = sprintf ("Snapshot " ∷ r.snapshot_id ∷ " created" ∷ []);
          task_ref = task_id_of r;
        };
      },
    )
    else to_exporting env r.snapshot_id "Snapshot created, starting export" "SnapshotComplete"
        "Source VM snapshot created" "" m

abbrev pub snapshot_name : SnapshotEnv → Migration → String
snapshot_name x m = sprintf (m.spec.source.vm_ref ∷ "-migration-" ∷ x.uid_prefix ∷ [])

-- The snapshot is made, unless the status has one already, which counts as complete.
unfoldable pub make_snapshot : SnapshotEnv → VirtualMachine → Migration → List Effect → Effected
unfolding note_snapshot to_exporting transition_to_failed
make_snapshot x vm m effects =
    let called = snapshot_create vm.id (snapshot_name x m) ∷ effects in
    if not (str_eq m.status.snapshot_id "")
    then (let (o, m') =
          to_exporting x.env m.status.snapshot_id "Snapshot ready, starting export"
            "SnapshotComplete" "Source VM snapshot created" m.status.task_ref m in
        (o, m', effects))
    else (elim x.create [
      | refused err ↦
          fail_effected x.env (sprintf ("Failed to create snapshot: " ∷ err ∷ [])) m called
      | returned r ↦ let (o, m') = note_snapshot x.env r m in (o, m', called)
    ])

unfoldable pub reach_provider : SnapshotEnv → VirtualMachine → Migration → List Effect → Effected
unfolding make_snapshot transition_to_failed
reach_provider x vm m effects =
    elim (x.get_provider (provider_key m.namespace (source_provider_ref m vm))) [
      | refused err ↦
          fail_effected x.env (sprintf ("Failed to get source provider: " ∷ err ∷ [])) m effects
      | returned provider ↦ (elim x.provider_instance [
        | refused err ↦
            fail_effected x.env (sprintf ("Failed to get provider instance: " ∷ err ∷ [])) m effects
        | returned client ↦ make_snapshot x vm m effects
      ])
    ]

-- handleSnapshottingPhase
unfoldable pub handle_snapshotting_phase : SnapshotEnv → Migration → List Effect → Effected
unfolding reach_provider to_exporting transition_to_failed
handle_snapshotting_phase x m effects = elim x.source_vm [
  | refused err ↦ fail_effected x.env (sprintf ("Failed to get source VM: " ∷ err ∷ [])) m effects
  | returned vm ↦ (elim m.spec.source.snapshot_ref [
    | some name ↦
        let (o, m') =
          to_exporting x.env name (sprintf ("Using existing snapshot " ∷ name ∷ []))
            "SnapshotSelected" "Using existing snapshot" m.status.task_ref m in
        (o, m', effects)
    | none ↦ reach_provider x vm m effects
  ])
]
