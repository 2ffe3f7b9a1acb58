-- ===== src/Migration/Deletion/Tests.antt =====
-- The deletion of vmmigration_controller.go, with a target VM of the migration's own.
use virtrigaud.Prelude.{◌≡◌, inr, refl, [], ◌∷◌, List, String, none, false, contains}
use virtrigaud.Prelude.Dict.{lookup}
use virtrigaud.Migration.Types.{failed, creating}
use virtrigaud.Migration.Machines.{VirtualMachine, Effect, finalizers_update, vm_delete, found}
use virtrigaud.Migration.Samples.{deletion_sample, at_phase, ready_vm}
use virtrigaud.Migration.Exporting.{empty_disk_info}
use virtrigaud.Migration.Creating.{new_target_vm, mark_completed}
use virtrigaud.Migration.Cleanup.Order.{deletes_vm}
use virtrigaud.Migration.Deletion.{DeletionEnv, handle_deletion, finalizer_name}
use virtrigaud.Migration.Deletion.Laws.{
  deletion_releases, created_target_removed, completed_target_kept,
}

deletion_releases_example :
    let (o, m', effects') = handle_deletion deletion_sample (at_phase failed) [] in
    (contains m'.finalizers finalizer_name ≡ false)
    × ((before : List Effect) × (effects' ≡ finalizers_update m'.finalizers ∷ before))
deletion_releases_example = deletion_releases deletion_sample (at_phase failed) []

abbrev partial : VirtualMachine
partial = new_target_vm (at_phase creating) empty_disk_info

abbrev finding : VirtualMachine → DeletionEnv
finding vm = record deletion_sample { target_vm = found vm }

unannotated : lookup {A = String} "virtrigaud.io/migration" [] ≡ none
unfolding lookup
unannotated = refl

incomplete : lookup {A = String} "virtrigaud.io/migration-completed" [] ≡ none
unfolding lookup
incomplete = refl

created_target_removed_example :
    let (o, n', effects') = handle_deletion (finding partial) (at_phase failed) [] in
    (before : List Effect) × (effects'
      ≡ finalizers_update n'.finalizers ∷ vm_delete partial.namespace partial.name ∷ before)
created_target_removed_example =
    created_target_removed (finding partial) (at_phase creating) (at_phase failed) empty_disk_info
      partial [] unannotated incomplete refl refl refl refl (inr refl)

completed_target_kept_example :
    deletes_vm (handle_deletion (finding (mark_completed "now" ready_vm)) (at_phase failed) []).2
    ≡ deletes_vm []
completed_target_kept_example =
    completed_target_kept (finding (mark_completed "now" ready_vm)) (at_phase failed) "now" ready_vm
      [] refl
