-- ===== src/Migration/Exporting/Retried.antt =====
-- What a retry of handleFailedPhase means for the export in vmmigration_controller.go.
use virtrigaud.Prelude.{ℕ, ◌≡◌, ◌≢◌, true, String, arith, eq_iff, sym, ◌∙◌}
use virtrigaud.Migration.Types.{Migration, importing, failed, pending, returned}
use virtrigaud.Migration.Failed.{Env, transition_to_failed, reconcile}
use virtrigaud.Migration.Failed.Laws.{Handler, retried_keeps_export}
use virtrigaud.Migration.Exporting.{
  ExportEnv, Manager, handle_exporting_phase, guarded_export, finish_task, advance,
  export_already_done,
}

-- The API server and the provider answer the lookups that every pass begins with.
pub record Reaches (x : ExportEnv) : Type 0 where
  pub vm : (v : String) × (x.source_vm ≡ returned v)
  pub provider : (p : String) × (x.source_provider ≡ returned p)
  pub client : (i : String) × (x.provider_instance ≡ returned i)

guarded_of_Reaches :
    (x : ExportEnv) (m : Migration) (mgr : Manager)
    → Reaches x
    → handle_exporting_phase x m mgr ≡ guarded_export x m mgr
unfolding handle_exporting_phase
guarded_of_Reaches x m mgr r = ground arith

-- When the task of an export ends with an error the migration
-- fails and still carries the export's ID.
pub task_error_fails :
    (x : ExportEnv) (m : Migration) (mgr : Manager) (text : String)
    → Reaches x
    → m.status.export_id ≢ ""
    → m.status.task_ref ≢ ""
    → x.is_task_complete ≡ returned true
    → x.task_error ≡ returned text
    → text ≢ ""
    → let m' = (handle_exporting_phase x m mgr).1 in
      (m'.status.phase ≡ failed) × (m'.status.export_id ≡ m.status.export_id)
unfolding guarded_export finish_task export_already_done transition_to_failed
task_error_fails x m mgr text r e t c d n =
    rw (guarded_of_Reaches x m mgr r)
      (ground (arith, eq_iff m.status.export_id "", eq_iff m.status.task_ref "", eq_iff text ""))

skips_export :
    (x : ExportEnv) (m : Migration) (mgr : Manager)
    → Reaches x
    → m.status.export_id ≢ ""
    → m.status.task_ref ≡ ""
    → let (o, m', mgr') = handle_exporting_phase x m mgr in
      (m'.status.phase ≡ importing)
      × (m'.status.message ≡ "Disk exported successfully")
      × (mgr' ≡ mgr)
unfolding guarded_export export_already_done advance
skips_export x m mgr r e t =
    rw (guarded_of_Reaches x m mgr r)
      (ground (arith, eq_iff m.status.export_id "", eq_iff m.status.task_ref ""))

-- A failed export is retried by importing what it left. The migration `m` waits for the task of its
-- export and the task ends with an error, so it fails; it has retries left and the delay has passed,
-- so Reconcile takes it back to Pending. Once it is in the phase Exporting again, with the export's
-- ID and the task reference as the retry left them, the handler says that the disk was exported and
-- goes on to Importing, and no ExportDisk is issued.
pub failed_export_imported :
    (x y : ExportEnv) (env : Env) (handle : Handler) (m n : Migration) (mgr mgr' : Manager)
    (text : String) (deletions : ℕ)
    → Reaches x
    → m.status.export_id ≢ ""
    → m.status.task_ref ≢ ""
    → x.is_task_complete ≡ returned true
    → x.task_error ≡ returned text
    → text ≢ ""
    → let retried = (reconcile handle env (handle_exporting_phase x m mgr).1 deletions).1 in
      retried.status.phase ≡ pending
      → Reaches y
      → n.status.export_id ≡ retried.status.export_id
      → n.status.task_ref ≡ retried.status.task_ref
      → let (o, m', mgr'') = handle_exporting_phase y n mgr' in
        (m'.status.phase ≡ importing)
        × (m'.status.message ≡ "Disk exported successfully")
        × (mgr'' ≡ mgr')
failed_export_imported x y env handle m n mgr mgr' text deletions r e t c d k p s i j =
    let (fails, kept) = task_error_fails x m mgr text r e t c d k in
    let (same, cleared) =
      retried_keeps_export handle env (handle_exporting_phase x m mgr).1 deletions fails p in
    skips_export y n mgr' s (λ empty. e (sym kept ∙ sym same ∙ sym i ∙ empty)) (j ∙ cleared)
