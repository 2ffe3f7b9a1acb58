-- ===== src/Migration/Deletion.antt =====
-- internal/controller/vmmigration_controller.go: handleDeletion. The answers of the API server are
-- arguments; what the steps return is the errors that they collect.
pub mod Laws
mod Tests
use virtrigaud.Prelude.{
  ℕ, Bool, true, false, ◌&&◌, ◌||◌, not, String, List, [], ◌∷◌, Option, none, some, str_eq, sprintf,
  if◌then◌else◌,
}
use virtrigaud.Prelude.Dict.{lookup}
use virtrigaud.Migration.Types.{Migration, Phase, failed, creating, Outcome, done, error}
use virtrigaud.Migration.Failed.{cleanup_allowed}
use virtrigaud.Migration.Machines.{
  VirtualMachine, Effect, vm_delete, pvc_delete, finalizers_update, Effected, Fetched, found,
  missing, fetch_failed, Removal, removed, already_gone, removal_failed, target_vm_name,
  target_vm_namespace,
}
use virtrigaud.Migration.Cleanup.{
  CleanupEnv, cleanup_intermediate_storage, delete_source_snapshot, own_snapshot,
}

-- `pvc` answers the Get of the PVC, `update` the update of the finalizers.
pub record DeletionEnv : Type 0 where
  pub cleanup : CleanupEnv
  pub pvc : Fetched String
  pub pvc_removal : Removal
  pub target_vm : Fetched VirtualMachine
  pub delete_target : Option String
  pub update : Option String

abbrev pub Collected : Type 0
Collected = List String × Migration × List Effect

abbrev pub collect : String → Option String → List String → List String
collect what none errors = errors
collect what (some err) errors = sprintf (what ∷ ": " ∷ err ∷ []) ∷ errors

storage_is_clean : Option Bool → Bool
storage_is_clean none = false
storage_is_clean (some cleaned_up) = cleaned_up

-- 1. The intermediate storage
unfoldable pub remove_storage : DeletionEnv → Migration → List Effect → Collected
unfolding storage_is_clean
remove_storage x m effects =
    let (failure, effects') = cleanup_intermediate_storage x.cleanup m effects in
    elim m.spec.storage [
      | none ↦ ([], m, effects)
      | some s ↦
          if storage_is_clean m.status.storage_info
          then ([], m, effects)
          else (collect "storage cleanup" failure [], m, effects')
    ]

-- 2. The PVC
unfoldable pub remove_pvc : DeletionEnv → Collected → Collected
remove_pvc x (errors, m, effects) =
    if str_eq m.status.storage_pvc_name "" then (errors, m, effects) else (elim x.pvc [
      | missing ↦ (errors, m, effects)
      | fetch_failed err ↦ (collect "PVC get" (some err) errors, m, effects)
      | found name ↦
          let called = pvc_delete m.status.storage_pvc_name ∷ effects in
          elim x.pvc_removal [
            | removed ↦ (errors, m, called)
            | already_gone ↦ (errors, m, called)
            | removal_failed err ↦ (collect "PVC cleanup" (some err) errors, m, called)
          ]
    ])

-- 3. The snapshot that the migration made
unfoldable pub remove_snapshot : DeletionEnv → Collected → Collected
remove_snapshot x (errors, m, effects) =
    let (failure, m', effects') = delete_source_snapshot x.cleanup m effects in
    if cleanup_allowed m && own_snapshot m
    then (collect "snapshot cleanup" failure errors, m', effects')
    else (errors, m, effects)

abbrev pub migration_ref : Migration → String
migration_ref m = sprintf (m.namespace ∷ "/" ∷ m.name ∷ [])

unfoldable pub is_completed : Option String → Bool
is_completed none = false
is_completed (some v) = str_eq v "true"

unfoldable pub refers_to : String → Option String → Bool
refers_to ref none = false
refers_to ref (some v) = str_eq v ref

-- Whether the target VM may go: it is not marked as completed, and this migration made it.
unfoldable pub is_partial_target : Migration → VirtualMachine → Bool
unfolding is_completed refers_to
is_partial_target m vm =
    not (is_completed (lookup "virtrigaud.io/migration-completed" vm.annotations))
    && refers_to (migration_ref m) (lookup "virtrigaud.io/migration" vm.annotations)

unfoldable pub may_have_partial_target : Phase → Bool
may_have_partial_target failed = true
may_have_partial_target creating = true
may_have_partial_target _ = false

-- 4. The target VM; an error of its Get is passed over.
unfoldable pub remove_target : DeletionEnv → Collected → Collected
remove_target x (errors, m, effects) =
    if may_have_partial_target m.status.phase
    then (elim x.target_vm [
      | missing ↦ (errors, m, effects)
      | fetch_failed err ↦ (errors, m, effects)
      | found vm ↦
          if is_partial_target m vm
          then (
            collect "target VM cleanup" x.delete_target errors,
            m,
            vm_delete vm.namespace vm.name ∷ effects,
          )
          else (errors, m, effects)
    ])
    else (errors, m, effects)

abbrev pub finalizer_name : String
finalizer_name = "vmmigration.infra.virtrigaud.io/finalizer"

-- controllerutil.RemoveFinalizer
unfoldable pub without : String → List String → List String
without name [] = []
without name (f ∷ fs) = let rest = without name fs in if str_eq f name then rest else f ∷ rest

unfoldable pub collect_all : DeletionEnv → Migration → List Effect → Collected
unfolding remove_storage remove_pvc remove_snapshot remove_target
collect_all x m effects =
    remove_target x (remove_snapshot x (remove_pvc x (remove_storage x m effects)))

-- handleDeletion: whatever errors were collected, the finalizer is removed.
unfoldable pub handle_deletion : DeletionEnv → Migration → List Effect → Effected
unfolding collect_all without
handle_deletion x m effects =
    let (errors, m', effects') = collect_all x m effects in
    let finalizers = without finalizer_name m'.finalizers in
    (
      (elim x.update [ none ↦ done | some err ↦ error err ]),
      record m' { finalizers = finalizers },
      finalizers_update finalizers ∷ effects',
    )
