-- ===== src/Migration/Cleanup/Last.antt =====
-- What vmmigration_controller.go has removed, and what it has only asked for, when it deletes the source
-- VM of a migration.
use virtrigaud.Prelude.{
  ◌≡◌, ◌≢◌, ◌⊎◌, refl, ap, ◌∙◌, inl, inr, true, false, String, List, [], ◌∷◌, none, some, str_eq,
  arith, eq_iff, Option-cases, Bool-cases,
}
use mathlib.Core.Path.{subst}
use virtrigaud.Migration.Types.{Migration, returned, refused, Answer-cases}
use virtrigaud.Migration.Failed.{cleanup_allowed}
use virtrigaud.Migration.Machines.{
  Effect, VirtualMachine, vm_delete, snapshot_delete, storage_delete,
}
use virtrigaud.Migration.Cleanup.{
  CleanupEnv, cleanup_intermediate_storage, await_deletion, delete_source_snapshot, own_snapshot,
  delete_source_vm, clean_storage, clean_snapshot, clean_source_vm, clean_up, tidy, and_then, Step,
  handle_ready_phase, already_clean, call_snapshot_delete,
}
use virtrigaud.Migration.Cleanup.Order.{
  deletes_vm, same_migration, then_succeeds, then_deletes, tidy_keeps, tidy_spec, deletes_clean,
  deletion_wanted,
}

-- The calls before and after the cleanup of the storage: there is none, its export has no URL, or the
-- deletion of the export was asked for. Whether that deletion failed is not looked at.
pub data StorageStep (x : CleanupEnv) (m : Migration) (es es' : List Effect) : Type 0 where
  no_storage : m.spec.storage ≡ none → es' ≡ es → StorageStep x m es es'
  url_unknown :
      (err : String)
      → x.new_storage ≡ none
      → x.export_url ≡ refused err
      → es' ≡ es
      → StorageStep x m es es'
  delete_asked :
      (url : String)
      → x.new_storage ≡ none
      → x.export_url ≡ returned url
      → es' ≡ storage_delete url ∷ es
      → StorageStep x m es es'

-- The calls before and after the cleanup of the snapshot: it is not the migration's own, or the provider
-- has deleted the recorded snapshot of the source VM, at once or by a task that is over without an error.
pub data SnapshotStep (x : CleanupEnv) (m : Migration) (es es' : List Effect) : Type 0 where
  not_own : own_snapshot m ≡ false → es' ≡ es → SnapshotStep x m es es'
  removed :
      (vm : VirtualMachine) (task : String)
      → x.source_vm ≡ returned vm
      → x.delete_snapshot ≡ returned task
      → es' ≡ snapshot_delete vm.id m.status.snapshot_id ∷ es
      → (task ≡ "") ⊎ ((x.await_task ≡ none) × (x.task_error ≡ returned ""))
      → SnapshotStep x m es es'

module _ (x : CleanupEnv) (m : Migration) (es : List Effect) where
  storage-StorageStep :
      (clean_storage x m es).0 ≢ none → StorageStep x m es (clean_storage x m es).2
  unfolding clean_storage cleanup_intermediate_storage
  storage-StorageStep done = elim (Option-cases m.spec.storage) [
    | inl absent ↦ no_storage absent (ground arith)
    | inr (s, e) ↦ (elim (Option-cases x.new_storage) [
      | inr (err, failure) ↦ absurd (ground arith)
      | inl ready ↦ (elim (Answer-cases x.export_url) [
        | inl (err, refusal) ↦ url_unknown err ready refusal (ground arith)
        | inr (url, answer) ↦ delete_asked url ready answer (ground arith)
      ])
    ])
  ]

  awaited :
      (task : String)
      → await_deletion x task ≡ none
      → (x.await_task ≡ none) × (x.task_error ≡ returned "")
  unfolding await_deletion
  awaited task done = elim (Answer-cases x.task_error) [
    | inl (err, refusal) ↦ absurd (ground arith)
    | inr (text, answer) ↦ (ground arith, ground (arith, eq_iff text ""))
  ]

  called-removed :
      (vm : VirtualMachine)
      → (call_snapshot_delete x vm m es).0 ≡ none
      → (task : String) × (x.delete_snapshot ≡ returned task)
        × ((call_snapshot_delete x vm m es).2 ≡ snapshot_delete vm.id m.status.snapshot_id ∷ es)
        × ((task ≡ "") ⊎ ((x.await_task ≡ none) × (x.task_error ≡ returned "")))
  unfolding call_snapshot_delete
  called-removed vm done = elim (Answer-cases x.delete_snapshot) [
    | inl (err, refusal) ↦ absurd (ground arith)
    | inr (task, answer) ↦ (elim (Bool-cases (str_eq task "")) [
      | inl empty ↦ (task, answer, ground arith, inl ((eq_iff task "").0 empty))
      | inr begun ↦ (elim (Option-cases (await_deletion x task)) [
        | inl over ↦ (task, answer, ground arith, inr (awaited task over))
        | inr (err, failure) ↦ absurd (ground arith)
      ])
    ])
  ]

  deleted-removed :
      (delete_source_snapshot x m es).0 ≡ none
      → (vm : VirtualMachine) × (x.source_vm ≡ returned vm)
        × ((call_snapshot_delete x vm m es).0 ≡ none)
        × ((delete_source_snapshot x m es).2 ≡ (call_snapshot_delete x vm m es).2)
  unfolding delete_source_snapshot
  deleted-removed done = elim (Answer-cases x.source_vm) [
    | inl (err, refusal) ↦ absurd (ground arith)
    | inr (vm, answer) ↦ (vm, answer, ground arith, ground arith)
  ]

  snapshot-SnapshotStep :
      (clean_snapshot x m es).0 ≢ none → SnapshotStep x m es (clean_snapshot x m es).2
  unfolding clean_snapshot
  snapshot-SnapshotStep done = elim (Bool-cases (own_snapshot m)) [
    | inr other ↦ not_own other (ground arith)
    | inl own ↦
        let (vm, answer, success, calls) = deleted-removed (ground arith) in
        let (task, begun, issued, over) = called-removed vm success in
        removed vm task answer begun (ground (arith, calls, issued)) over
  ]

  source_deleted :
      deletes_vm es ≡ false
      → deletes_vm (clean_source_vm x m es).2 ≡ true
      → (vm : VirtualMachine) × (x.source_vm ≡ returned vm)
        × ((clean_source_vm x m es).2 ≡ vm_delete vm.namespace vm.name ∷ es)
  unfolding clean_source_vm delete_source_vm
  source_deleted before after = elim (Answer-cases x.source_vm) [
    | inl (err, refusal) ↦ absurd (ground arith)
    | inr (vm, answer) ↦ (vm, answer, ground arith)
  ]

then_calls :
    (s : Step) (next : Migration → List Effect → Step)
    → s.0 ≢ none
    → (and_then s next).2 ≡ (next s.1 s.2).2
unfolding and_then
then_calls (none, m, es) next p = absurd (p refl)
then_calls (some b, m, es) next p = refl

module _ (x : CleanupEnv) (m : Migration) where
  allowed_calls :
      cleanup_allowed m ≡ true
      → (clean_storage x m []).0 ≢ none
      → (tidy x m []).2 ≡ (clean_snapshot x m (clean_storage x m []).2).2
  unfolding tidy
  allowed_calls a first =
      rw a (then_calls (clean_storage x m []) (clean_snapshot x) first)
      ∙ ap (λ n. (clean_snapshot x n (clean_storage x m []).2).2) (same_migration x m [])

  tidied_in_order :
      (tidy x m []).0 ≢ none
      → ((cleanup_allowed m ≡ false) × ((tidy x m []).2 ≡ []))
        ⊎ ((mid : List Effect) × StorageStep x m [] mid × SnapshotStep x m mid (tidy x m []).2)
  unfolding tidy
  tidied_in_order done = elim (Bool-cases (cleanup_allowed m)) [
    | inr never ↦ inl (never, ground arith)
    | inl a ↦
        let done' : (and_then (clean_storage x m []) (clean_snapshot x)).0 ≢ none = rw a at done in
        let (first, second, same) = then_succeeds (clean_storage x m []) (clean_snapshot x) done' in
        let mid = (clean_storage x m []).2 in
        inr (
          mid,
          storage-StorageStep x m [] first,
          rw (allowed_calls a first) (
              snapshot-SnapshotStep x m mid
                (subst (λ n. (clean_snapshot x n mid).0 ≢ none) (same_migration x m []) second)),
        )
  ]

ready_calls :
    (x : CleanupEnv) (m : Migration)
    → already_clean m ≡ false
    → (handle_ready_phase x m []).2 ≡ (clean_up x m []).2
unfolding handle_ready_phase
ready_calls x m n = ground arith

-- The source VM is deleted last. If a pass over a migration that is ready deletes a VM, the cleanup was
-- not recorded before, the deletion was asked for, the VM is the source VM, and its deletion is the last
-- call. The calls before it are none if the cleanup policy is Never. Otherwise they are, in this order:
-- the deletion of the export, if there is a storage and the export has a URL, which may have failed; and
-- the deletion of the recorded snapshot of the source VM, if the migration made it, which the provider has
-- accepted and completed, at once or by a task that was awaited and is over without an error.
pub source_deleted_last :
    (x : CleanupEnv) (m : Migration)
    → deletes_vm (handle_ready_phase x m []).2 ≡ true
    → (already_clean m ≡ false)
      × (m.spec.source.delete_after_migration ≡ true)
      × ((vm : VirtualMachine) × (before : List Effect) × (x.source_vm ≡ returned vm)
          × ((handle_ready_phase x m []).2 ≡ vm_delete vm.namespace vm.name ∷ before)
          × (((cleanup_allowed m ≡ false) × (before ≡ []))
              ⊎ ((mid : List Effect) × StorageStep x m [] mid × SnapshotStep x m mid before)))
unfolding clean_up
source_deleted_last x m d =
    let (n, d') = deletes_clean x m d in
    let (kept, deleted) = then_deletes (tidy x m []) (clean_source_vm x) (tidy_keeps x m []) d' in
    let wanted = deletion_wanted x (tidy x m []).1 (tidy x m []).2 (tidy_keeps x m []) deleted in
    let (vm, answer, calls) =
      source_deleted x (tidy x m []).1 (tidy x m []).2 (tidy_keeps x m []) deleted in
    (
      n,
      rw (tidy_spec x m []) at wanted,
      (
        vm,
        (tidy x m []).2,
        answer,
        ready_calls x m n ∙ then_calls (tidy x m []) (clean_source_vm x) kept ∙ calls,
        tidied_in_order x m kept,
      ),
    )
