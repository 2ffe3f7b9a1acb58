-- ===== src/Migration/Exporting/Checksum.antt =====
-- What handleExportingPhase of vmmigration_controller.go records of an export that is answered.
use virtrigaud.Prelude.{◌≡◌, ◌≢◌, String, Option, none, some, arith}
use virtrigaud.Migration.Types.{Migration, DiskInfo, returned}
use virtrigaud.Migration.Guard.{Manager, mark_long_op_started}
use virtrigaud.Migration.Exporting.{
  ExportEnv, ExportResponse, handle_exporting_phase, guarded_export, prepare_export,
  claim_and_export, issue_export, after_export, note_export, advance, finish_task,
}

-- The checksum of the source disk in the status, or none
abbrev pub recorded_checksum : Option DiskInfo → String
recorded_checksum none = ""
recorded_checksum (some d) = d.source_checksum

-- A pass in which ExportDisk is answered
abbrev pub Answers : ExportEnv → Migration → Manager → Type 0
Answers x m mgr = (handle_exporting_phase x m mgr).2.answered ≢ mgr.answered

claim_records :
    (x : ExportEnv) (m : Migration) (mgr : Manager) (r : ExportResponse)
    → x.export_disk ≡ returned r
    → (claim_and_export x m mgr).2.answered ≢ mgr.answered
    → recorded_checksum (claim_and_export x m mgr).1.status.disk_info ≡ r.checksum
unfolding claim_and_export issue_export mark_long_op_started after_export note_export advance
claim_records x m mgr r h n = ground arith

prepare_records :
    (x : ExportEnv) (m : Migration) (mgr : Manager) (r : ExportResponse)
    → x.export_disk ≡ returned r
    → (prepare_export x m mgr).2.answered ≢ mgr.answered
    → recorded_checksum (prepare_export x m mgr).1.status.disk_info ≡ r.checksum
unfolding prepare_export
prepare_records x m mgr r h n = ground (arith, claim_records x m mgr r h)

guarded_records :
    (x : ExportEnv) (m : Migration) (mgr : Manager) (r : ExportResponse)
    → x.export_disk ≡ returned r
    → (guarded_export x m mgr).2.answered ≢ mgr.answered
    → recorded_checksum (guarded_export x m mgr).1.status.disk_info ≡ r.checksum
unfolding guarded_export advance finish_task
guarded_records x m mgr r h n = ground (arith, prepare_records x m mgr r h)

pub export_records :
    (x : ExportEnv) (m : Migration) (mgr : Manager) (r : ExportResponse)
    → x.export_disk ≡ returned r
    → Answers x m mgr
    → recorded_checksum (handle_exporting_phase x m mgr).1.status.disk_info ≡ r.checksum
unfolding handle_exporting_phase
export_records x m mgr r h n = ground (arith, guarded_records x m mgr r h)
