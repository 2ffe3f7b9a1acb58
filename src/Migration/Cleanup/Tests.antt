-- ===== src/Migration/Cleanup/Tests.antt =====
-- The cleanup of vmmigration_controller.go after a migration that deletes its source VM.
use virtrigaud.Prelude.{◌≡◌, ◌⊎◌, refl, List, [], ◌∷◌, true, false}
use virtrigaud.Migration.Types.{Migration, ready, returned, refused, done}
use virtrigaud.Migration.Failed.{cleanup_allowed}
use virtrigaud.Migration.Samples.{cleanup_sample, at_phase}
use virtrigaud.Migration.Cleanup.{
  CleanupEnv, cleanup_intermediate_storage, own_snapshot, already_clean, handle_ready_phase,
  clean_up, tidy, clean_storage, clean_snapshot, clean_source_vm, and_then, delete_source_vm,
  delete_source_snapshot, call_snapshot_delete, forget_snapshot,
}
use virtrigaud.Migration.Cleanup.Order.{deletes_vm}
use virtrigaud.Migration.Cleanup.Last.{StorageStep, SnapshotStep, source_deleted_last}
use virtrigaud.Migration.Machines.{Effect, VirtualMachine, vm_delete}
use virtrigaud.Migration.Cleanup.Settling.{ready_settles}

abbrev migrated : Migration
migrated = record (at_phase ready) {
  status = record ((at_phase ready).status) { snapshot_id = "snap-1" };
}

deletes : deletes_vm (handle_ready_phase cleanup_sample migrated []).2 ≡ true
unfolding handle_ready_phase already_clean clean_up tidy cleanup_allowed and_then clean_storage
    clean_snapshot clean_source_vm delete_source_vm own_snapshot delete_source_snapshot
    call_snapshot_delete forget_snapshot cleanup_intermediate_storage
deletes = refl

source_deleted_last_example :
    (already_clean migrated ≡ false)
    × (true ≡ true)
    × ((vm : VirtualMachine) × (before : List Effect) × (cleanup_sample.source_vm ≡ returned vm)
        × ((handle_ready_phase cleanup_sample migrated []).2
            ≡ vm_delete vm.namespace vm.name ∷ before)
        × (((cleanup_allowed migrated ≡ false) × (before ≡ []))
            ⊎ ((mid : List Effect) × StorageStep cleanup_sample migrated [] mid
                × SnapshotStep cleanup_sample migrated mid before)))
source_deleted_last_example = source_deleted_last cleanup_sample migrated deletes

settles : (handle_ready_phase cleanup_sample migrated []).0 ≡ done
unfolding handle_ready_phase already_clean clean_up tidy cleanup_allowed and_then clean_storage
    clean_snapshot clean_source_vm delete_source_vm own_snapshot delete_source_snapshot
    call_snapshot_delete forget_snapshot cleanup_intermediate_storage
settles = refl

ready_settles_example :
    ((handle_ready_phase cleanup_sample migrated []).2 ≡ [])
    ⊎ (let (o, m', effects') = handle_ready_phase cleanup_sample migrated [] in
        handle_ready_phase cleanup_sample m' effects' ≡ (done, m', effects'))
ready_settles_example = ready_settles cleanup_sample cleanup_sample migrated [] settles

-- The source VM has been deleted by an earlier pass, whose status write failed.
abbrev gone : CleanupEnv
gone = record cleanup_sample { source_vm = refused "not found" }

uncleaned : already_clean migrated ≡ false
unfolding already_clean
uncleaned = refl
