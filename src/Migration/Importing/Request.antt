-- ===== src/Migration/Importing/Request.antt =====
-- The requests that handleImportingPhase of vmmigration_controller.go sends to the target provider.
use virtrigaud.Prelude.{
  ◌≡◌, ◌≢◌, refl, sym, ap, ◌∙◌, ◌⊎◌, inl, inr, List, ◌∷◌, arith, length, suc, Bool-cases, true,
  false,
}
use virtrigaud.Migration.Types.{Migration, Provider, ImportRequest, returned, Answer-cases}
use virtrigaud.Migration.Gate.{migration_backend_type, resolve_transfer_mode}
use virtrigaud.Migration.Guard.{Manager, mark_long_op_started, release}
use virtrigaud.Migration.Exporting.{ExportEnv, ExportResponse, handle_exporting_phase}
use virtrigaud.Migration.Exporting.Checksum.{recorded_checksum, Answers, export_records}
use virtrigaud.Migration.ImportRequest.{import_request, verify_checksums_of}
use virtrigaud.Migration.Importing.{
  ImportEnv, handle_importing_phase, guarded_import, prepare_import, prepared, claim_and_import,
  issue_import, finish_import_task, advance_to_creating, import_already_done,
}

-- No import, or one with the request that was prepared
abbrev Sends : ImportEnv → Migration → Manager → Manager → Type 0
Sends x m mgr mgr' =
    (mgr'.import_requests ≡ mgr.import_requests)
    ⊎ ((req : ImportRequest) × (prepared x m ≡ returned req)
        × (mgr'.import_requests ≡ req ∷ mgr.import_requests))

claim_sends :
    (x : ImportEnv) (target : Provider) (req : ImportRequest) (m : Migration) (mgr : Manager)
    → ((claim_and_import x target req m mgr).2.import_requests ≡ mgr.import_requests)
      ⊎ ((claim_and_import x target req m mgr).2.import_requests ≡ req ∷ mgr.import_requests)
unfolding claim_and_import issue_import mark_long_op_started release
claim_sends x target req m mgr = ground arith

prepare-Sends :
    (x : ImportEnv) (target : Provider) (m : Migration) (mgr : Manager)
    → Sends x m mgr (prepare_import x target m mgr).2
unfolding prepare_import
prepare-Sends x target m mgr = elim (Answer-cases (prepared x m)) [
  | inl (message, e) ↦ inl (ground arith)
  | inr (req, e) ↦ (elim (claim_sends x target req m mgr) [
    | inl same ↦ inl (ground arith)
    | inr sent ↦ inr (req, e, ground arith)
  ])
]

guarded_done :
    (x : ImportEnv) (target : Provider) (m : Migration) (mgr : Manager)
    → import_already_done m mgr ≡ true
    → (guarded_import x target m mgr).2.import_requests ≡ mgr.import_requests
unfolding guarded_import advance_to_creating finish_import_task
guarded_done x target m mgr h = ground arith

guarded_fresh :
    (x : ImportEnv) (target : Provider) (m : Migration) (mgr : Manager)
    → import_already_done m mgr ≡ false
    → guarded_import x target m mgr ≡ prepare_import x target m mgr
unfolding guarded_import
guarded_fresh x target m mgr h = rw (h, guarded_import) refl

guarded-Sends :
    (x : ImportEnv) (target : Provider) (m : Migration) (mgr : Manager)
    → Sends x m mgr (guarded_import x target m mgr).2
guarded-Sends x target m mgr = elim (Bool-cases (import_already_done m mgr)) [
  | inl h ↦ inl (guarded_done x target m mgr h)
  | inr h ↦ rw (guarded_fresh x target m mgr h) (prepare-Sends x target m mgr)
]

-- What a pass of handleImportingPhase sends: nothing, or the one request that it prepared.
handle-Sends :
    (x : ImportEnv) (m : Migration) (mgr : Manager)
    → Sends x m mgr (handle_importing_phase x m mgr).2
unfolding handle_importing_phase prepared
handle-Sends x m mgr = elim (Answer-cases x.target_provider) [
  | inl (message, e) ↦ inl (ground arith)
  | inr (target, e) ↦ (elim (Answer-cases x.provider_instance) [
    | inl (message, e') ↦ inl (ground arith)
    | inr (client, e') ↦ rw (e, e', handle_importing_phase) (guarded-Sends x target m mgr)
  ])
]

cons_longer : (req : ImportRequest) (reqs : List ImportRequest) → (req ∷ reqs) ≢ reqs
cons_longer req reqs e = let n : suc (length reqs) ≡ length reqs = ap length e in omega arith

prepared_checksum :
    (x : ImportEnv) (m : Migration) (req : ImportRequest)
    → prepared x m ≡ returned req
    → (req.expected_checksum ≡ recorded_checksum m.status.disk_info)
      × (req.verify_checksum ≡ verify_checksums_of m.spec.options)
      × (req.backend_type ≡ migration_backend_type m)
      × (req.transfer_mode ≡ resolve_transfer_mode m)
unfolding prepared import_request
prepared_checksum x m req h = ground arith

-- The checksum of the export reaches the import. When a pass of handleExportingPhase gets the response
-- `r` of ExportDisk, and a later pass of handleImportingPhase, on a migration `n` with the disk
-- information that the first left in the status, sends a request to the target provider, then the
-- request expects the checksum of `r`, asks for its verification as the options say, and names the
-- staging backend and the resolved transfer mode of the migration.
pub checksum_carried :
    (x : ExportEnv) (y : ImportEnv) (m n : Migration) (mgr mgr' : Manager) (r : ExportResponse)
    (req : ImportRequest)
    → x.export_disk ≡ returned r
    → Answers x m mgr
    → n.status.disk_info ≡ (handle_exporting_phase x m mgr).1.status.disk_info
    → (handle_importing_phase y n mgr').2.import_requests ≡ req ∷ mgr'.import_requests
    → (req.expected_checksum ≡ r.checksum)
      × (req.verify_checksum ≡ verify_checksums_of n.spec.options)
      × (req.backend_type ≡ migration_backend_type n)
      × (req.transfer_mode ≡ resolve_transfer_mode n)
checksum_carried x y m n mgr mgr' r req h a d sent = elim (handle-Sends y n mgr') [
  | inl same ↦ absurd (cons_longer req mgr'.import_requests (sym sent ∙ same))
  | inr (req', e, sent') ↦
      let one : req' ≡ req = ground arith in
      let (sum, verify, backend, mode) = prepared_checksum y n req (rw one at e) in
      (sum ∙ ap recorded_checksum d ∙ export_records x m mgr r h a, verify, backend, mode)
]
