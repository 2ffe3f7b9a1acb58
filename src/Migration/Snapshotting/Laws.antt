-- ===== src/Migration/Snapshotting/Laws.antt =====
-- The snapshot of the source VM in vmmigration_controller.go.
use virtrigaud.Prelude.{◌≡◌, refl, ◌∷◌, ◌≢◌, String, List, none, arith, [], sprintf, eq_iff}
use virtrigaud.Migration.Types.{Migration, Provider, exporting, returned}
use virtrigaud.Migration.Machines.{Effect, snapshot_create, VirtualMachine, provider_key}
use virtrigaud.Migration.Validating.{source_provider_ref}
use virtrigaud.Migration.Snapshotting.{
  SnapshotEnv, SnapshotResponse, snapshot_name, task_id_of, handle_snapshotting_phase,
  reach_provider, make_snapshot, note_snapshot, to_exporting,
}

-- The lookups of a pass succeed.
pub record Reaches (x : SnapshotEnv) (m : Migration) : Type 0 where
  pub vm : VirtualMachine
  pub provider : Provider
  pub client : String
  pub vm_found : x.source_vm ≡ returned vm
  pub provider_found :
      x.get_provider (provider_key m.namespace (source_provider_ref m vm)) ≡ returned provider
  pub client_found : x.provider_instance ≡ returned client

make_of_Reaches :
    (x : SnapshotEnv) (m : Migration) (effects : List Effect) (r : Reaches x m)
    → m.spec.source.snapshot_ref ≡ none
    → handle_snapshotting_phase x m effects ≡ make_snapshot x r.vm m effects
unfolding handle_snapshotting_phase reach_provider
make_of_Reaches x m effects r n = ground (arith, r.vm_found, n, r.provider_found, r.client_found)

noted : SnapshotResponse → Migration → Migration
noted r m = record m {
  status = record (m.status) {
    snapshot_id = r.snapshot_id;
    message = sprintf ("Snapshot " ∷ r.snapshot_id ∷ " created" ∷ []);
    task_ref = task_id_of r;
  };
}

first_pass :
    (x : SnapshotEnv) (m : Migration) (effects : List Effect) (r : SnapshotResponse)
    (reach : Reaches x m)
    → m.spec.source.snapshot_ref ≡ none
    → m.status.snapshot_id ≡ ""
    → x.create ≡ returned r
    → task_id_of r ≢ ""
    → ((handle_snapshotting_phase x m effects).1 ≡ noted r m)
      × ((handle_snapshotting_phase x m effects).2
          ≡ snapshot_create reach.vm.id (snapshot_name x m) ∷ effects)
unfolding make_snapshot note_snapshot noted
first_pass x m effects r reach n i c t = rw (make_of_Reaches x m effects reach n) (
  ground (arith, eq_iff (task_id_of r) "", eq_iff m.status.snapshot_id ""),
  ground (arith, eq_iff (task_id_of r) "", eq_iff m.status.snapshot_id ""),
)

next_pass :
    (x : SnapshotEnv) (m : Migration) (effects : List Effect)
    → Reaches x m
    → m.spec.source.snapshot_ref ≡ none
    → m.status.snapshot_id ≢ ""
    → let (o, m', effects') = handle_snapshotting_phase x m effects in
      (m'.status.phase ≡ exporting)
      × (m'.status.snapshot_id ≡ m.status.snapshot_id)
      × (m'.status.task_ref ≡ m.status.task_ref)
      × (effects' ≡ effects)
unfolding make_snapshot to_exporting
next_pass x m effects reach n i =
    rw (make_of_Reaches x m effects reach n) (ground (arith, eq_iff m.status.snapshot_id ""))

-- The snapshot is created once and its task is not awaited. A pass over a migration without a snapshot
-- of its own, whose lookups succeed, calls SnapshotCreate; when the answer names a task, the phase
-- stays and the task is noted. The next pass over that status goes on to the export, without another
-- call, whatever became of the task, whose ID the status still holds.
pub snapshot_created_once :
    (x y : SnapshotEnv) (m : Migration) (effects : List Effect) (r : SnapshotResponse)
    (reach : Reaches x m)
    → m.spec.source.snapshot_ref ≡ none
    → m.status.snapshot_id ≡ ""
    → x.create ≡ returned r
    → r.snapshot_id ≢ ""
    → task_id_of r ≢ ""
    → let (o, m', effects') = handle_snapshotting_phase x m effects in
      Reaches y m'
      → let (o', m'', effects'') = handle_snapshotting_phase y m' effects' in
        (m'.status.phase ≡ m.status.phase)
        × (m'.status.task_ref ≡ task_id_of r)
        × (effects' ≡ snapshot_create reach.vm.id (snapshot_name x m) ∷ effects)
        × (m''.status.phase ≡ exporting)
        × (m''.status.snapshot_id ≡ r.snapshot_id)
        × (m''.status.task_ref ≡ task_id_of r)
        × (effects'' ≡ effects')
unfolding noted
snapshot_created_once x y m effects r reach n i c s t =
    let (same, one) = first_pass x m effects r reach n i c t in
    rw (same, one)
      (λ again.
        let (p, q, u, v) = next_pass y (noted r m) _ again n s in (refl, refl, refl, p, q, u, v))
