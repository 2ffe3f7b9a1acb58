-- ===== src/Migration/Importing.antt =====
-- internal/controller/vmmigration_controller.go: handleImportingPhase with its guards against a second
-- ImportDisk, and the two phases that pass straight on to it. The answers of the API server and of the
-- providers are arguments, also those of generateStorageURL, storageOptionsJSON and loadS3Credentials,
-- which only prepare the request.
pub mod Moves
pub mod Phases
pub mod Request
pub mod Retried
mod Tests
use virtrigaud.Prelude.{
  ℕ, ◌*◌, Bool, true, ◌||◌, not, String, [], ◌∷◌, Option, none, some, str_eq, sprintf, decimal,
  if◌then◌else◌,
}
use virtrigaud.K8s.Conditions.{condition_true, set_condition, is_condition_true}
use virtrigaud.Migration.Types.{
  Migration, Options, DiskInfo, Provider, ImportRequest, ImportResponse, importing, creating,
  Outcome, done, requeue, requeue_after, Answer, returned, refused,
}
use virtrigaud.Migration.Gate.{
  backend_s3, backend_nfs, migration_backend_type, resolve_transfer_mode, native_disk_format,
}
use virtrigaud.Migration.Guard.{
  Manager, long_op_import, long_op_key, long_op_already_started, mark_long_op_started, release,
  blocked, drop_error,
}
use virtrigaud.Migration.Failed.{Env, after_update, transition_to_failed}
use virtrigaud.Migration.Exporting.Checksum.{recorded_checksum}
use virtrigaud.Migration.ImportRequest.{import_format, import_request}
use virtrigaud.Migration.Exporting.{Handled, fail_with, second, disk_format_of, disk_info_of}

-- `can_import` is what the provider reports of its disk import, `none` if it does not report
-- capabilities or the query fails. The provider's answer may depend on the request.
pub record ImportEnv : Type 0 where
  pub env : Env
  pub enforce_capabilities : Bool
  pub target_provider : Answer Provider
  pub provider_instance : Answer String
  pub is_task_complete : Answer Bool
  pub task_error : Answer String
  pub storage_url : Answer String
  pub storage_options : Answer String
  pub credentials : Answer String
  pub source_provider : Answer Provider
  pub can_import : Option Bool
  pub import_disk : ImportRequest → Answer ImportResponse

-- handleTransferringPhase
unfoldable pub handle_transferring_phase : Env → Migration → Outcome × Migration
handle_transferring_phase env m = (
  after_update env requeue,
  record m {
    status = record (m.status) {
      phase = importing;
      message = "Transfer complete, starting import";
      conditions =
          set_condition env.now "Transferring" condition_true "TransferComplete"
            "Disk transfer completed" m.status.conditions;
    };
  },
)

-- handleConvertingPhase
unfoldable pub handle_converting_phase : Env → Migration → Outcome × Migration
handle_converting_phase env m = (
  after_update env requeue,
  record m {
    status = record (m.status) {
      phase = importing;
      message = "Conversion complete, starting import";
    };
  },
)

-- The transition to Creating, with the event and the condition ImportComplete
unfoldable pub advance_to_creating : ImportEnv → Outcome → Migration → Manager → Handled
advance_to_creating x outcome m mgr = (
  after_update x.env outcome,
  record m {
    status = record (m.status) {
      phase = creating;
      message = "Disk imported, creating target VM";
      task_ref = "";
      conditions =
          set_condition x.env.now "Importing" condition_true "ImportComplete"
            "Disk imported to target provider" m.status.conditions;
    };
  },
  mgr,
)

-- The end of a task that was started by ImportDisk
unfoldable pub finish_import_task : ImportEnv → Migration → Manager → Handled
unfolding advance_to_creating
finish_import_task x m mgr = elim x.is_task_complete [
  | refused err ↦ (requeue_after (30 * second), m, mgr)
  | returned complete ↦
      if not complete then (requeue_after (30 * second), m, mgr) else (elim x.task_error [
        | refused err ↦
            fail_with x.env (sprintf ("Failed to get import task status: " ∷ err ∷ [])) m mgr
        | returned text ↦
            if not (str_eq text "")
            then fail_with x.env (sprintf ("Import failed: " ∷ text ∷ [])) m mgr
            else advance_to_creating x done m mgr
      ])
]

-- importAlreadyDone
unfoldable pub import_already_done : Migration → Manager → Bool
import_already_done m mgr =
    not (str_eq m.status.import_id "")
    || is_condition_true m.status.conditions "Importing"
    || long_op_already_started m long_op_import mgr

-- What is noted in the status when ImportDisk has returned
unfoldable pub note_import : Provider → ImportResponse → Migration → Migration
note_import target r m = record m {
  status = record (m.status) {
    import_id = r.disk_id;
    message = sprintf ("Importing disk (size: " ∷ decimal r.actual_size_bytes ∷ " bytes)" ∷ []);
    disk_info = some (record (disk_info_of m) {
      target_disk_id = r.disk_id;
      target_format = native_disk_format target;
      target_path = r.path;
      target_checksum = r.checksum;
    });
  };
}

-- After a response: wait for its task, or go on after the settle interval.
unfoldable pub after_import : ImportEnv → Provider → ImportResponse → Migration → Manager → Handled
unfolding note_import advance_to_creating
after_import x target r m mgr =
    let noted = note_import target r m in
    if not (str_eq r.task_ref "")
    then (
      after_update x.env (requeue_after (30 * second)),
      record noted { status = record (noted.status) { task_ref = r.task_ref } },
      mgr,
    )
    else advance_to_creating x (requeue_after (5 * second)) noted mgr

unfoldable pub issue_import : ImportEnv → Provider → ImportRequest → Migration → Manager → Handled
unfolding after_import
issue_import x target req m mgr =
    let calling = record mgr {
      issued = long_op_key long_op_import m ∷ mgr.issued;
      import_requests = req ∷ mgr.import_requests;
    } in
    elim (x.import_disk req) [
      | refused err ↦
          fail_with x.env (sprintf ("Failed to start disk import: " ∷ err ∷ [])) m
            (release m long_op_import calling)
      | returned r ↦
          after_import x target r m
            (record calling { answered = long_op_key long_op_import m ∷ calling.answered })
    ]

-- The capability gate, the claim of the guard, and the RPC
unfoldable pub claim_and_import :
    ImportEnv → Provider → ImportRequest → Migration → Manager → Handled
unfolding issue_import transition_to_failed
claim_and_import x target req m mgr =
    let (claimed, mgr') = mark_long_op_started m long_op_import mgr in
    if blocked x.enforce_capabilities x.can_import
    then (let (o, m') =
          transition_to_failed x.env "Target provider does not support disk import" m in
        (drop_error o, m', mgr))
    else if claimed
    then issue_import x target req m mgr'
    else (requeue_after (30 * second), m, mgr)

-- The request, or the message of the first failure while it is prepared
unfoldable pub prepared : ImportEnv → Migration → Answer ImportRequest
prepared x m = elim x.storage_url [
  | refused err ↦ refused (sprintf ("Failed to generate source URL: " ∷ err ∷ []))
  | returned url ↦ (elim x.storage_options [
    | refused err ↦ refused (sprintf ("Failed to build storage options: " ∷ err ∷ []))
    | returned options ↦ (elim x.credentials [
      | refused err ↦ refused (sprintf ("Failed to load storage credentials: " ∷ err ∷ []))
      | returned creds ↦ (elim (import_format m x.source_provider) [
        | refused err ↦ refused (sprintf ("Failed to get source provider: " ∷ err ∷ []))
        | returned format ↦ returned (import_request m url format creds options)
      ])
    ])
  ])
]

unfoldable pub prepare_import : ImportEnv → Provider → Migration → Manager → Handled
prepare_import x target m mgr = elim (prepared x m) [
  | refused message ↦ fail_with x.env message m mgr
  | returned req ↦ claim_and_import x target req m mgr
]

unfoldable pub guarded_import : ImportEnv → Provider → Migration → Manager → Handled
unfolding finish_import_task advance_to_creating prepare_import
guarded_import x target m mgr =
    if import_already_done m mgr
    then (if not (str_eq m.status.task_ref "")
        then finish_import_task x m mgr
        else advance_to_creating x done m mgr)
    else prepare_import x target m mgr

-- handleImportingPhase
unfoldable pub handle_importing_phase : ImportEnv → Migration → Manager → Handled
unfolding guarded_import
handle_importing_phase x m mgr = elim x.target_provider [
  | refused err ↦ fail_with x.env (sprintf ("Failed to get target provider: " ∷ err ∷ [])) m mgr
  | returned target ↦ (elim x.provider_instance [
    | refused err ↦
        fail_with x.env (sprintf ("Failed to get target provider instance: " ∷ err ∷ [])) m mgr
    | returned client ↦ guarded_import x target m mgr
  ])
]
