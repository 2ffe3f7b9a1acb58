-- ===== src/Migration/Exporting/Tests.antt =====
-- handleExportingPhase of vmmigration_controller.go on small inputs.
use virtrigaud.Prelude.{◌≡◌, refl, arith, eq_iff}
use virtrigaud.Migration.Types.{Migration, importing, done, returned}
use virtrigaud.Migration.Failed.{reconcile}
use virtrigaud.Migration.Failed.Laws.{Handler}
use virtrigaud.Migration.Exporting.{
  ExportEnv, export_already_done, finish_task, guarded_export, handle_exporting_phase,
}
use virtrigaud.Migration.Once.{started}
use virtrigaud.Migration.Samples.{clock, healthy_export, fresh}
use virtrigaud.Migration.Exporting.Retried.{Reaches, failed_export_imported}

-- The task of the export ends with an error.
abbrev breaking : ExportEnv
breaking = record healthy_export { task_error = returned "disk full" }

-- The same migration while it waits for its task.
abbrev waiting : Migration
waiting = record fresh { status = record (fresh.status) { export_id = "e1"; task_ref = "t1" } }

-- And when it is back in the phase Exporting after the retry.
abbrev again : Migration
again = record fresh { status = record (fresh.status) { export_id = "e1"; retry_count = 1 } }

idle : Handler
idle e m deletions = (done, m, deletions)

Reaches-of :
    (x : ExportEnv)
    → x.source_vm ≡ returned "vm"
    → x.source_provider ≡ returned "libvirt"
    → x.provider_instance ≡ returned "client"
    → Reaches x
Reaches-of x v p c = record { vm = ("vm", v); provider = ("libvirt", p); client = ("client", c) }

failed_export_imported_example :
    let (o, m', mgr'') = handle_exporting_phase healthy_export again started in
    (m'.status.phase ≡ importing)
    × (m'.status.message ≡ "Disk exported successfully")
    × (mgr'' ≡ started)
unfolding handle_exporting_phase reconcile guarded_export finish_task export_already_done
failed_export_imported_example =
    failed_export_imported breaking healthy_export clock idle waiting again started started
      "disk full" 0 (Reaches-of breaking refl refl refl) (ground (arith, eq_iff "e1" ""))
      (ground (arith, eq_iff "t1" "")) refl refl (ground (arith, eq_iff "disk full" "")) refl
      (Reaches-of healthy_export refl refl refl) refl refl
