-- ===== src/Migration/Importing/Retried.antt =====
-- What a retry of handleFailedPhase means for the import in vmmigration_controller.go.
use virtrigaud.Prelude.{ℕ, true, ◌≡◌, ◌≢◌, sym, ◌∙◌, String, arith, eq_iff}
use virtrigaud.Migration.Types.{Migration, Provider, creating, failed, pending, returned}
use virtrigaud.Migration.Guard.{Manager}
use virtrigaud.Migration.Failed.{Env, transition_to_failed, reconcile}
use virtrigaud.Migration.Failed.Laws.{Handler, retried_keeps_import}
use virtrigaud.Migration.Importing.{
  ImportEnv, handle_importing_phase, guarded_import, finish_import_task, advance_to_creating,
  import_already_done,
}

-- The API server and the provider answer the lookups that every pass begins with.
pub record ReachesTarget (x : ImportEnv) : Type 0 where
  pub provider : (p : Provider) × (x.target_provider ≡ returned p)
  pub client : (i : String) × (x.provider_instance ≡ returned i)

guarded_of_Reaches :
    (x : ImportEnv) (m : Migration) (mgr : Manager) (r : ReachesTarget x)
    → handle_importing_phase x m mgr ≡ guarded_import x r.provider.0 m mgr
unfolding handle_importing_phase
guarded_of_Reaches x m mgr r = ground (arith, r.provider.1, r.client.1)

import_task_error_fails :
    (x : ImportEnv) (m : Migration) (mgr : Manager) (text : String)
    → ReachesTarget x
    → m.status.import_id ≢ ""
    → m.status.task_ref ≢ ""
    → x.is_task_complete ≡ returned true
    → x.task_error ≡ returned text
    → text ≢ ""
    → let m' = (handle_importing_phase x m mgr).1 in
      (m'.status.phase ≡ failed) × (m'.status.import_id ≡ m.status.import_id)
unfolding guarded_import finish_import_task import_already_done transition_to_failed
import_task_error_fails x m mgr text r e t c d n =
    rw (guarded_of_Reaches x m mgr r)
      (ground (arith, eq_iff m.status.import_id "", eq_iff m.status.task_ref "", eq_iff text ""))

skips_import :
    (x : ImportEnv) (m : Migration) (mgr : Manager)
    → ReachesTarget x
    → m.status.import_id ≢ ""
    → m.status.task_ref ≡ ""
    → let (o, m', mgr') = handle_importing_phase x m mgr in
      (m'.status.phase ≡ creating)
      × (m'.status.message ≡ "Disk imported, creating target VM")
      × (mgr' ≡ mgr)
unfolding guarded_import import_already_done advance_to_creating
skips_import x m mgr r e t =
    rw (guarded_of_Reaches x m mgr r)
      (ground (arith, eq_iff m.status.import_id "", eq_iff m.status.task_ref ""))

-- A failed import is retried by creating the target VM on what it left. The migration `m` waits for the
-- task of its import and the task ends with an error, so it fails; it has retries left and the delay
-- has passed, so Reconcile takes it back to Pending. Once it is in the phase Importing again, with
-- the import's ID and the task reference as the retry left them, the handler says that the disk was
-- imported and goes on to Creating, and no ImportDisk is issued.
pub failed_import_created :
    (x y : ImportEnv) (env : Env) (handle : Handler) (m n : Migration) (mgr mgr' : Manager)
    (text : String) (deletions : ℕ)
    → ReachesTarget x
    → m.status.import_id ≢ ""
    → m.status.task_ref ≢ ""
    → x.is_task_complete ≡ returned true
    → x.task_error ≡ returned text
    → text ≢ ""
    → let retried = (reconcile handle env (handle_importing_phase x m mgr).1 deletions).1 in
      retried.status.phase ≡ pending
      → ReachesTarget y
      → n.status.import_id ≡ retried.status.import_id
      → n.status.task_ref ≡ retried.status.task_ref
      → let (o, m', mgr'') = handle_importing_phase y n mgr' in
        (m'.status.phase ≡ creating)
        × (m'.status.message ≡ "Disk imported, creating target VM")
        × (mgr'' ≡ mgr')
failed_import_created x y env handle m n mgr mgr' text deletions r e t c d k p s i j =
    let (fails, kept) = import_task_error_fails x m mgr text r e t c d k in
    let (same, cleared) =
      retried_keeps_import handle env (handle_importing_phase x m mgr).1 deletions fails p in
    skips_import y n mgr' s (λ empty. e (sym kept ∙ sym same ∙ sym i ∙ empty)) (j ∙ cleared)
