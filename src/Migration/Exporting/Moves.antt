-- ===== src/Migration/Exporting/Moves.antt =====
-- What one pass of handleExportingPhase does to the guard of vmmigration_controller.go.
use virtrigaud.Prelude.{◌≡◌, arith}
use virtrigaud.Migration.Types.{Migration}
use virtrigaud.Migration.Guard.{Manager, long_op_export, long_op_key, mark_long_op_started, release}
use virtrigaud.Migration.Guard.Moves.{Moves}
use virtrigaud.Migration.Exporting.{
  ExportEnv, handle_exporting_phase, guarded_export, prepare_export, claim_and_export, issue_export,
  finish_task,
}

claim-Moves :
    (x : ExportEnv) (m : Migration) (mgr : Manager)
    → Moves (long_op_key long_op_export m) mgr (claim_and_export x m mgr).2
unfolding claim_and_export issue_export mark_long_op_started release
claim-Moves x m mgr = ground arith

prepare-Moves :
    (x : ExportEnv) (m : Migration) (mgr : Manager)
    → Moves (long_op_key long_op_export m) mgr (prepare_export x m mgr).2
unfolding prepare_export
prepare-Moves x m mgr = ground (arith, claim-Moves x m mgr)

finish_keeps : (x : ExportEnv) (m : Migration) (mgr : Manager) → (finish_task x m mgr).2 ≡ mgr
unfolding finish_task
finish_keeps x m mgr = ground arith

pub handle_exporting-Moves :
    (x : ExportEnv) (m : Migration) (mgr : Manager)
    → Moves (long_op_key long_op_export m) mgr (handle_exporting_phase x m mgr).2
unfolding handle_exporting_phase guarded_export
handle_exporting-Moves x m mgr = ground (arith, prepare-Moves x m mgr, finish_keeps x m mgr)
