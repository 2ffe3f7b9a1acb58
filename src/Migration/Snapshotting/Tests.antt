-- ===== src/Migration/Snapshotting/Tests.antt =====
-- The snapshot of vmmigration_controller.go, made by a task.
use virtrigaud.Prelude.{◌≡◌, ◌≢◌, refl, [], ◌∷◌, some, arith, eq_iff}
use virtrigaud.Migration.Types.{Migration, snapshotting, exporting}
use virtrigaud.Migration.Machines.{snapshot_create}
use virtrigaud.Migration.Samples.{snapshot_sample, at_phase, ready_vm, kvm}
use virtrigaud.Migration.Snapshotting.{
  SnapshotResponse, snapshot_name, task_id_of, handle_snapshotting_phase,
}
use virtrigaud.Migration.Snapshotting.Laws.{Reaches, snapshot_created_once}

abbrev response : SnapshotResponse
response = record { snapshot_id = "snap-1"; task = some "t9" }

abbrev reaches : (m : Migration) → Reaches (snapshot_sample (some "t9")) m
reaches m = record {
  vm = ready_vm;
  provider = kvm;
  client = "client";
  vm_found = refl;
  provider_found = refl;
  client_found = refl;
}

named : response.snapshot_id ≢ ""
named = ground (arith, eq_iff "snap-1" "")

tasked : task_id_of response ≢ ""
unfolding task_id_of
tasked = ground (arith, eq_iff "t9" "")

snapshot_created_once_example :
    let (o, m', effects') =
      handle_snapshotting_phase (snapshot_sample (some "t9")) (at_phase snapshotting) [] in
    let (o', m'', effects'') =
      handle_snapshotting_phase (snapshot_sample (some "t9")) m' effects' in
    (m'.status.phase ≡ snapshotting)
    × (m'.status.task_ref ≡ task_id_of response)
    × (effects'
        ≡ snapshot_create "i1" (snapshot_name (snapshot_sample (some "t9")) (at_phase snapshotting))
          ∷ [])
    × (m''.status.phase ≡ exporting)
    × (m''.status.snapshot_id ≡ "snap-1")
    × (m''.status.task_ref ≡ task_id_of response)
    × (effects'' ≡ effects')
snapshot_created_once_example =
    snapshot_created_once (snapshot_sample (some "t9")) (snapshot_sample (some "t9"))
      (at_phase snapshotting) [] response (reaches (at_phase snapshotting)) refl refl refl named
      tasked
      (reaches
        (handle_snapshotting_phase (snapshot_sample (some "t9")) (at_phase snapshotting) []).1)
