-- ===== src/Migration/Cleanup.antt =====
-- internal/controller/vmmigration_controller.go: what a migration leaves behind and how it is removed:
-- cleanupIntermediateStorage, deleteSourceSnapshot, deleteSourceVM and handleReadyPhase. The answers
-- of the API server, of the provider and of the storage client are arguments.
pub mod Order
pub mod Last
pub mod Settling
mod Tests
use virtrigaud.Prelude.{
  ℕ, ◌*◌, Bool, true, false, ◌&&◌, ◌||◌, not, String, List, [], ◌∷◌, Option, none, some, str_eq,
  sprintf, if◌then◌else◌,
}
use virtrigaud.Migration.Types.{
  Migration, Provider, ObjectRef, Outcome, done, requeue_after, Answer, returned, refused,
}
use virtrigaud.Migration.Failed.{Env, after_update, minute, cleanup_allowed}
use virtrigaud.Migration.Machines.{
  VirtualMachine, Effect, snapshot_delete, vm_delete, storage_delete, provider_key,
}
use virtrigaud.Migration.Validating.{source_provider_ref}

-- `new_storage` and `export_url` answer storage.NewStorage and generateStorageURL. `await_task` is the
-- poll of IsTaskComplete until it holds or two minutes have passed, and `task_error` the error text
-- in the task's status.
pub record CleanupEnv : Type 0 where
  pub env : Env
  pub new_storage : Option String
  pub export_url : Answer String
  pub source_vm : Answer VirtualMachine
  pub get_provider : ObjectRef → Answer Provider
  pub provider_instance : Answer String
  pub delete_snapshot : Answer String
  pub await_task : Option String
  pub task_error : Answer String
  pub delete_vm : Option String

-- cleanupIntermediateStorage. The deletion of the export may fail without an error being returned.
unfoldable pub cleanup_intermediate_storage :
    CleanupEnv → Migration → List Effect → Option String × List Effect
cleanup_intermediate_storage x m effects = elim m.spec.storage [
  | none ↦ (none, effects)
  | some s ↦ (elim x.new_storage [
    | some err ↦ (some (sprintf ("failed to create storage client: " ∷ err ∷ [])), effects)
    | none ↦ (elim x.export_url [
      | refused err ↦ (none, effects)
      | returned url ↦ (none, storage_delete url ∷ effects)
    ])
  ])
]

-- The task of the deletion is awaited, and its status asked for.
unfoldable pub await_deletion : CleanupEnv → String → Option String
await_deletion x task = elim x.await_task [
  | some err ↦ some (sprintf ("await snapshot delete task " ∷ task ∷ ": " ∷ err ∷ []))
  | none ↦ (elim x.task_error [
    | refused err ↦ some (sprintf ("get snapshot delete task " ∷ task ∷ " status: " ∷ err ∷ []))
    | returned text ↦
        if not (str_eq text "")
        then some (sprintf ("snapshot delete task " ∷ task ∷ " failed: " ∷ text ∷ []))
        else none
  ])
]

-- The recorded ID is cleared once the snapshot is gone.
unfoldable pub forget_snapshot : Migration → Migration
forget_snapshot m = record m { status = record (m.status) { snapshot_id = "" } }

unfoldable pub call_snapshot_delete :
    CleanupEnv → VirtualMachine → Migration → List Effect → Option String × Migration × List Effect
unfolding await_deletion forget_snapshot
call_snapshot_delete x vm m effects =
    let called = snapshot_delete vm.id m.status.snapshot_id ∷ effects in
    elim x.delete_snapshot [
      | refused err ↦ (some (sprintf ("failed to delete snapshot: " ∷ err ∷ [])), m, called)
      | returned task ↦
          if str_eq task ""
          then (none, forget_snapshot m, called)
          else (elim (await_deletion x task) [
            | some err ↦ (some err, m, called)
            | none ↦ (none, forget_snapshot m, called)
          ])
    ]

-- deleteSourceSnapshot
unfoldable pub delete_source_snapshot :
    CleanupEnv → Migration → List Effect → Option String × Migration × List Effect
unfolding call_snapshot_delete
delete_source_snapshot x m effects = elim x.source_vm [
  | refused err ↦ (some (sprintf ("failed to get source VM: " ∷ err ∷ [])), m, effects)
  | returned vm ↦ (elim (x.get_provider (provider_key m.namespace (source_provider_ref m vm))) [
    | refused err ↦ (some (sprintf ("failed to get source provider: " ∷ err ∷ [])), m, effects)
    | returned provider ↦ (elim x.provider_instance [
      | refused err ↦ (some (sprintf ("failed to get provider instance: " ∷ err ∷ [])), m, effects)
      | returned client ↦ call_snapshot_delete x vm m effects
    ])
  ])
]

-- deleteSourceVM
unfoldable pub delete_source_vm : CleanupEnv → List Effect → Option String × List Effect
delete_source_vm x effects = elim x.source_vm [
  | refused err ↦ (some (sprintf ("failed to get source VM: " ∷ err ∷ [])), effects)
  | returned vm ↦ (elim x.delete_vm [
    | some err ↦ (
      some (sprintf ("failed to delete source VM: " ∷ err ∷ [])),
      vm_delete vm.namespace vm.name ∷ effects,
    )
    | none ↦ (none, vm_delete vm.namespace vm.name ∷ effects)
  ])
]

-- A snapshot that the migration made, and may remove
unfoldable pub own_snapshot : Migration → Bool
own_snapshot m =
    not (str_eq m.status.snapshot_id "")
    && (elim m.spec.source.snapshot_ref [ none ↦ true | some name ↦ false ])

-- Each step of the cleanup returns whether it did something, or `none` if it failed.
abbrev pub Step : Type 0
Step = Option Bool × Migration × List Effect

unfoldable pub clean_storage : CleanupEnv → Migration → List Effect → Step
clean_storage x m effects =
    let (failure, effects') = cleanup_intermediate_storage x m effects in
    elim m.spec.storage [
      | none ↦ (some false, m, effects)
      | some s ↦ (elim failure [ some err ↦ (none, m, effects') | none ↦ (some true, m, effects') ])
    ]

unfoldable pub clean_snapshot : CleanupEnv → Migration → List Effect → Step
clean_snapshot x m effects =
    let (failure, m', effects') = delete_source_snapshot x m effects in
    if not (own_snapshot m)
    then (some false, m, effects)
    else (elim failure [ some err ↦ (none, m', effects') | none ↦ (some true, m', effects') ])

unfoldable pub clean_source_vm : CleanupEnv → Migration → List Effect → Step
clean_source_vm x m effects =
    let (failure, effects') = delete_source_vm x effects in
    if not m.spec.source.delete_after_migration
    then (some false, m, effects)
    else (elim failure [ some err ↦ (none, m, effects') | none ↦ (some true, m, effects') ])

-- Two steps in a row: the first failure ends the cleanup.
unfoldable pub and_then : Step → (Migration → List Effect → Step) → Step
and_then (none, m, effects) next = (none, m, effects)
and_then (some performed, m, effects) next =
    let (more, m', effects') = next m effects in
    (elim more [ none ↦ none | some also ↦ some (performed || also) ], m', effects')

-- The policy Never keeps the storage and the snapshot,
unfoldable pub tidy : CleanupEnv → Migration → List Effect → Step
unfolding and_then clean_storage clean_snapshot
tidy x m effects =
    if cleanup_allowed m
    then and_then (clean_storage x m effects) (clean_snapshot x)
    else (some false, m, effects)

-- but not the source VM.
unfoldable pub clean_up : CleanupEnv → Migration → List Effect → Step
unfolding and_then tidy clean_source_vm
clean_up x m effects = and_then (tidy x m effects) (clean_source_vm x)

unfoldable pub already_clean : Migration → Bool
already_clean m = elim m.status.storage_info [ none ↦ false | some cleaned_up ↦ cleaned_up ]

-- handleReadyPhase
unfoldable pub handle_ready_phase :
    CleanupEnv → Migration → List Effect → Outcome × Migration × List Effect
unfolding clean_up already_clean
handle_ready_phase x m effects =
    let (result, m', effects') = clean_up x m effects in
    if already_clean m then (done, m, effects) else (elim result [
      | none ↦ (requeue_after (5 * minute), m', effects')
      | some false ↦ (done, m', effects')
      | some true ↦ (
        after_update x.env done,
        record m' {
          status = record (m'.status) {
            storage_info = some true;
            message = "Migration completed, cleanup finished";
          };
        },
        effects',
      )
    ])
