-- ===== src/Migration/Exporting.antt =====
-- internal/controller/vmmigration_controller.go: handleExportingPhase with its guards against a second
-- ExportDisk. The answers of the API server and of the source provider are arguments, also those of
-- generateStorageURL, storageOptionsJSON and loadS3Credentials, which only prepare the request.
pub mod Moves
pub mod Checksum
pub mod Retried
mod Tests
use virtrigaud.Prelude.{
  ℕ, ◌*◌, Bool, true, false, ◌&&◌, ◌||◌, not, String, List, [], ◌∷◌, Option, none, some, str_eq,
  contains, sprintf, decimal, if◌then◌else◌,
}
use virtrigaud.K8s.Conditions.{condition_true, set_condition, is_condition_true}
use virtrigaud.Migration.Types.{
  Migration, Options, DiskInfo, Phase, importing, Outcome, done, requeue, requeue_after, error,
  Answer, returned, refused,
}
use virtrigaud.Migration.Guard.{
  Manager, long_op_export, long_op_key, long_op_already_started, mark_long_op_started, release,
  blocked, drop_error,
}
use virtrigaud.Migration.Failed.{Env, after_update, transition_to_failed}

pub record ExportResponse : Type 0 where
  pub export_id : String
  pub task_ref : String
  pub checksum : String
  pub estimated_size_bytes : ℕ

-- `can_export` is what the provider reports of its disk export, `none` if it does not report
-- capabilities or the query fails.
pub record ExportEnv : Type 0 where
  pub env : Env
  pub enforce_capabilities : Bool
  pub source_vm : Answer String
  pub source_provider : Answer String
  pub provider_instance : Answer String
  pub is_task_complete : Answer Bool
  pub task_error : Answer String
  pub storage_url : Answer String
  pub storage_options : Answer String
  pub credentials : Answer String
  pub can_export : Option Bool
  pub export_disk : Answer ExportResponse

abbrev pub second : ℕ
second = 1_000_000_000

abbrev pub Handled : Type 0
Handled = Outcome × Migration × Manager

-- transitionToFailed as the end of a handler that has not touched the guard
abbrev pub fail_with : Env → String → Migration → Manager → Handled
fail_with env message m mgr = let (o, m') = transition_to_failed env message m in (o, m', mgr)

abbrev fail : ExportEnv → String → Migration → Manager → Handled
fail x message m mgr = fail_with x.env message m mgr

-- The transition to Importing, with the event and the condition ExportComplete
unfoldable pub advance : ExportEnv → Migration → Manager → Handled
advance x m mgr = (
  after_update x.env done,
  record m {
    status = record (m.status) {
      phase = importing;
      message = "Disk exported successfully";
      task_ref = "";
      conditions =
          set_condition x.env.now "Exporting" condition_true "ExportComplete"
            "Source VM disk exported" m.status.conditions;
    };
  },
  mgr,
)

-- The end of a task that was started by ExportDisk
unfoldable pub finish_task : ExportEnv → Migration → Manager → Handled
unfolding advance transition_to_failed
finish_task x m mgr = elim x.is_task_complete [
  | refused err ↦ (requeue_after (30 * second), m, mgr)
  | returned complete ↦
      if not complete then (requeue_after (30 * second), m, mgr) else (elim x.task_error [
        | refused err ↦ fail x (sprintf ("Failed to get export task status: " ∷ err ∷ [])) m mgr
        | returned text ↦
            if not (str_eq text "")
            then fail x (sprintf ("Export failed: " ∷ text ∷ [])) m mgr
            else advance x m mgr
      ])
]

-- exportAlreadyDone
unfoldable pub export_already_done : Migration → Manager → Bool
export_already_done m mgr =
    not (str_eq m.status.export_id "")
    || is_condition_true m.status.conditions "Exporting"
    || long_op_already_started m long_op_export mgr

abbrev pub empty_disk_info : DiskInfo
empty_disk_info = record {
  source_disk_id = "";
  source_format = "";
  source_checksum = "";
  target_disk_id = "";
  target_format = "";
  target_path = "";
  target_checksum = "";
}

-- DiskInfo, made if it is nil
abbrev pub disk_info_of : Migration → DiskInfo
disk_info_of m = elim m.status.disk_info [ none ↦ empty_disk_info | some d ↦ d ]

unfoldable pub disk_format_of : Option Options → String
disk_format_of none = "qcow2"
disk_format_of (some o) = if str_eq o.disk_format "" then "qcow2" else o.disk_format

-- What is noted in the status when ExportDisk has returned
unfoldable pub note_export : ExportResponse → Migration → Migration
unfolding disk_format_of
note_export r m = record m {
  status = record (m.status) {
    export_id = r.export_id;
    message =
        sprintf
          ("Exporting disk (estimated size: " ∷ decimal r.estimated_size_bytes ∷ " bytes)" ∷ []);
    disk_info = some (record (disk_info_of m) {
      source_disk_id = "";
      source_format = disk_format_of m.spec.options;
      source_checksum = r.checksum;
    });
  };
}

-- After a response: wait for its task, or go on at once.
unfoldable pub after_export : ExportEnv → ExportResponse → Migration → Manager → Handled
unfolding note_export advance
after_export x r m mgr =
    let noted = note_export r m in
    if not (str_eq r.task_ref "")
    then (
      after_update x.env (requeue_after (30 * second)),
      record noted { status = record (noted.status) { task_ref = r.task_ref } },
      mgr,
    )
    else advance x noted mgr

-- ExportDisk, with the guard claimed before and released again if the call fails
unfoldable pub issue_export : ExportEnv → Migration → Manager → Handled
unfolding after_export transition_to_failed
issue_export x m mgr =
    let calling = record mgr { issued = long_op_key long_op_export m ∷ mgr.issued } in
    elim x.export_disk [
      | refused err ↦
          fail x (sprintf ("Failed to start disk export: " ∷ err ∷ [])) m
            (release m long_op_export calling)
      | returned r ↦
          after_export x r m
            (record calling { answered = long_op_key long_op_export m ∷ calling.answered })
    ]

-- The capability gate, the claim of the guard, and the RPC
unfoldable pub claim_and_export : ExportEnv → Migration → Manager → Handled
unfolding issue_export transition_to_failed
claim_and_export x m mgr =
    let (claimed, mgr') = mark_long_op_started m long_op_export mgr in
    if blocked x.enforce_capabilities x.can_export
    then (let (o, m') =
          transition_to_failed x.env "Source provider does not support disk export" m in
        (drop_error o, m', mgr))
    else if claimed
    then issue_export x m mgr'
    else (requeue_after (30 * second), m, mgr)

-- What is prepared for the request before it is issued; the first failure ends it.
unfoldable pub prepare_export : ExportEnv → Migration → Manager → Handled
unfolding transition_to_failed
prepare_export x m mgr = elim x.storage_url [
  | refused err ↦ fail x (sprintf ("Failed to generate storage URL: " ∷ err ∷ [])) m mgr
  | returned url ↦ (elim x.storage_options [
    | refused err ↦ fail x (sprintf ("Failed to build storage options: " ∷ err ∷ [])) m mgr
    | returned options ↦ (elim x.credentials [
      | refused err ↦ fail x (sprintf ("Failed to load storage credentials: " ∷ err ∷ [])) m mgr
      | returned creds ↦ claim_and_export x m mgr
    ])
  ])
]

unfoldable pub guarded_export : ExportEnv → Migration → Manager → Handled
unfolding advance
guarded_export x m mgr =
    if export_already_done m mgr
    then (if not (str_eq m.status.task_ref "") then finish_task x m mgr else advance x m mgr)
    else prepare_export x m mgr

-- handleExportingPhase
unfoldable pub handle_exporting_phase : ExportEnv → Migration → Manager → Handled
unfolding transition_to_failed
handle_exporting_phase x m mgr = elim x.source_vm [
  | refused err ↦ fail x (sprintf ("Failed to get source VM: " ∷ err ∷ [])) m mgr
  | returned vm ↦ (elim x.source_provider [
    | refused err ↦ fail x (sprintf ("Failed to get source provider: " ∷ err ∷ [])) m mgr
    | returned provider ↦ (elim x.provider_instance [
      | refused err ↦ fail x (sprintf ("Failed to get provider instance: " ∷ err ∷ [])) m mgr
      | returned client ↦ guarded_export x m mgr
    ])
  ])
]
