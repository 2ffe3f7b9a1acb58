-- ===== src/Migration/Deletion/Laws.antt =====
-- The deletion of a VMMigration in vmmigration_controller.go: its finalizer, and the target VM.
use virtrigaud.Prelude.{
  ◌≡◌, refl, ap, ◌∙◌, eq_refl, ◌⊎◌, inl, inr, true, false, String, List, [], ◌∷◌, none, arith,
  contains,
}
use virtrigaud.Prelude.Dict.{lookup}
use virtrigaud.Migration.Types.{Migration, DiskInfo, failed, creating}
use virtrigaud.Migration.Machines.{VirtualMachine, Effect, vm_delete, finalizers_update, found}
use virtrigaud.Migration.Cleanup.{
  cleanup_intermediate_storage, delete_source_snapshot, call_snapshot_delete, forget_snapshot,
}
use virtrigaud.Migration.Cleanup.Order.{deletes_vm}
use virtrigaud.Migration.Creating.{new_target_vm, mark_completed}
use virtrigaud.Migration.Creating.Laws.{created_refers, created_incomplete, marked_completed}
use virtrigaud.Migration.Deletion.{
  DeletionEnv, Collected, remove_storage, remove_pvc, remove_snapshot, remove_target, collect_all,
  is_partial_target, may_have_partial_target, without, finalizer_name, handle_deletion,
  migration_ref,
}

contains-without : (name : String) (fs : List String) → contains (without name fs) name ≡ false
unfolding without
contains-without name [] = refl
contains-without name (f ∷ fs) = ground (arith, contains-without name fs)

-- The deletion never gets stuck on its cleanup: whatever the storage, the PVC, the snapshot and the
-- target VM answer, the last call is the update that takes the finalizer away.
pub deletion_releases :
    (x : DeletionEnv) (m : Migration) (effects : List Effect)
    → let (o, m', effects') = handle_deletion x m effects in
      (contains m'.finalizers finalizer_name ≡ false)
      × ((before : List Effect) × (effects' ≡ finalizers_update m'.finalizers ∷ before))
unfolding handle_deletion
deletion_releases x m effects =
    (contains-without finalizer_name (collect_all x m effects).1.finalizers, (_, refl))

storage_quiet :
    (x : DeletionEnv) (m : Migration) (effects : List Effect)
    → (deletes_vm (remove_storage x m effects).2 ≡ deletes_vm effects)
      × ((remove_storage x m effects).1 ≡ m)
unfolding remove_storage cleanup_intermediate_storage
storage_quiet x m effects = (ground arith, ground arith)

pvc_quiet :
    (x : DeletionEnv) (c : Collected)
    → (deletes_vm (remove_pvc x c).2 ≡ deletes_vm c.2) × ((remove_pvc x c).1 ≡ c.1)
unfolding remove_pvc
pvc_quiet x (errors, m, effects) = (ground arith, ground arith)

snapshot_quiet :
    (x : DeletionEnv) (c : Collected) → deletes_vm (remove_snapshot x c).2 ≡ deletes_vm c.2
unfolding remove_snapshot delete_source_snapshot call_snapshot_delete
snapshot_quiet x (errors, m, effects) = ground arith

-- What decides about the target VM stays the same until its turn comes.
before_target : DeletionEnv → Migration → List Effect → Collected
before_target x m effects = remove_snapshot x (remove_pvc x (remove_storage x m effects))

snapshot_frame :
    (x : DeletionEnv) (c : Collected)
    → let m' = (remove_snapshot x c).1 in
      (m'.status.phase ≡ c.1.status.phase) × (migration_ref m' ≡ migration_ref c.1)
unfolding remove_snapshot delete_source_snapshot call_snapshot_delete forget_snapshot
snapshot_frame x (errors, m, effects) = (ground arith, ground arith)

before_frame :
    (x : DeletionEnv) (m : Migration) (effects : List Effect)
    → let (errors, m', effects') = before_target x m effects in
      (m'.status.phase ≡ m.status.phase)
      × (migration_ref m' ≡ migration_ref m)
      × (deletes_vm effects' ≡ deletes_vm effects)
unfolding before_target
before_frame x m effects =
    let (quiet, same) = storage_quiet x m effects in
    let (quiet', same') = pvc_quiet x (remove_storage x m effects) in
    let (phase, ref) = snapshot_frame x (remove_pvc x (remove_storage x m effects)) in
    let kept = same' ∙ same in
    (
      phase ∙ ap (λ (n : Migration). n.status.phase) kept,
      ref ∙ ap migration_ref kept,
      snapshot_quiet x (remove_pvc x (remove_storage x m effects)) ∙ quiet' ∙ quiet,
    )

partial_stage :
    (m : Migration)
    → (m.status.phase ≡ creating) ⊎ (m.status.phase ≡ failed)
    → may_have_partial_target m.status.phase ≡ true
unfolding may_have_partial_target
partial_stage m (inl p) = rw p refl
partial_stage m (inr p) = rw p refl

removes_partial :
    (x : DeletionEnv) (c : Collected) (vm : VirtualMachine)
    → x.target_vm ≡ found vm
    → may_have_partial_target c.1.status.phase ≡ true
    → is_partial_target c.1 vm ≡ true
    → (remove_target x c).2 ≡ vm_delete vm.namespace vm.name ∷ c.2
unfolding remove_target
removes_partial x (errors, m, effects) vm t p i = ground arith

keeps_other :
    (x : DeletionEnv) (c : Collected) (vm : VirtualMachine)
    → x.target_vm ≡ found vm
    → is_partial_target c.1 vm ≡ false
    → (remove_target x c).2 ≡ c.2
unfolding remove_target
keeps_other x (errors, m, effects) vm t i = ground arith

marked_whole :
    (m : Migration) (at : String) (vm : VirtualMachine)
    → is_partial_target m (mark_completed at vm) ≡ false
unfolding is_partial_target
marked_whole m at vm = rw (marked_completed at vm) refl

partial_of_created :
    (m n : Migration) (d : DiskInfo) (vm : VirtualMachine)
    → lookup "virtrigaud.io/migration" m.spec.target.annotations ≡ none
    → lookup "virtrigaud.io/migration-completed" m.spec.target.annotations ≡ none
    → vm.annotations ≡ (new_target_vm m d).annotations
    → migration_ref n ≡ migration_ref m
    → is_partial_target n vm ≡ true
unfolding is_partial_target
partial_of_created m n d vm a b e r =
    rw (e, created_refers m d a, created_incomplete m d b, r) (eq_refl (migration_ref m))

-- What the phase Creating creates the deletion removes. The target VM that handleCreatingPhase creates
-- from the migration `m`, when the user's annotations set none of the two by which the controller
-- knows it and it still carries its annotations, is deleted with that migration in the phase Creating
-- or Failed, just before the finalizer is taken away.
pub created_target_removed :
    (x : DeletionEnv) (m n : Migration) (d : DiskInfo) (vm : VirtualMachine) (effects : List Effect)
    → lookup "virtrigaud.io/migration" m.spec.target.annotations ≡ none
    → lookup "virtrigaud.io/migration-completed" m.spec.target.annotations ≡ none
    → vm.annotations ≡ (new_target_vm m d).annotations
    → x.target_vm ≡ found vm
    → n.name ≡ m.name
    → n.namespace ≡ m.namespace
    → (n.status.phase ≡ creating) ⊎ (n.status.phase ≡ failed)
    → let (o, n', effects') = handle_deletion x n effects in
      (before : List Effect) × (effects'
        ≡ finalizers_update n'.finalizers ∷ vm_delete vm.namespace vm.name ∷ before)
unfolding handle_deletion collect_all before_target
created_target_removed x m n d vm effects a b e t name ns p =
    let (phase, ref, quiet) = before_frame x n effects in
    let same : migration_ref n ≡ migration_ref m = rw (name, ns) refl in
    let partial = partial_of_created m (before_target x n effects).1 d vm a b e (ref ∙ same) in
    let stage : may_have_partial_target (before_target x n effects).1.status.phase ≡ true =
      rw phase (partial_stage n p) in
    (
      (before_target x n effects).2,
      ap (λ (es : List Effect). finalizers_update (handle_deletion x n effects).1.finalizers ∷ es)
          (removes_partial x (before_target x n effects) vm t stage partial),
    )

-- A target VM that was marked as completed is never deleted with its migration, whatever the phase and
-- whoever else annotated it.
pub completed_target_kept :
    (x : DeletionEnv) (m : Migration) (at : String) (vm : VirtualMachine) (effects : List Effect)
    → x.target_vm ≡ found (mark_completed at vm)
    → deletes_vm (handle_deletion x m effects).2 ≡ deletes_vm effects
unfolding handle_deletion collect_all before_target
completed_target_kept x m at vm effects t =
    let (phase, ref, quiet) = before_frame x m effects in
    rw (keeps_other x (before_target x m effects) (mark_completed at vm) t (marked_whole _ at vm))
      quiet

target_same : (x : DeletionEnv) (c : Collected) → (remove_target x c).1 ≡ c.1
unfolding remove_target
target_same x (errors, m, effects) = ground arith

pub deletion_phase :
    (x : DeletionEnv) (m : Migration) (effects : List Effect)
    → (handle_deletion x m effects).1.status.phase ≡ m.status.phase
unfolding handle_deletion collect_all before_target
deletion_phase x m effects =
    ap (λ (n : Migration). n.status.phase) (target_same x (before_target x m effects))
    ∙ (before_frame x m effects).0
