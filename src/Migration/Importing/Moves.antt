-- ===== src/Migration/Importing/Moves.antt =====
-- What one pass of handleImportingPhase does to the guard of vmmigration_controller.go.
use virtrigaud.Prelude.{◌≡◌, inl, inr, arith}
use virtrigaud.Migration.Types.{Migration, Provider, ImportRequest, Answer-cases}
use virtrigaud.Migration.Guard.{Manager, long_op_import, long_op_key, mark_long_op_started, release}
use virtrigaud.Migration.Guard.Moves.{Moves}
use virtrigaud.Migration.Importing.{
  ImportEnv, handle_importing_phase, guarded_import, prepare_import, claim_and_import, issue_import,
  finish_import_task, advance_to_creating, prepared,
}

claim-Moves :
    (x : ImportEnv) (target : Provider) (req : ImportRequest) (m : Migration) (mgr : Manager)
    → Moves (long_op_key long_op_import m) mgr (claim_and_import x target req m mgr).2
unfolding claim_and_import issue_import mark_long_op_started release
claim-Moves x target req m mgr = ground arith

prepare-Moves :
    (x : ImportEnv) (target : Provider) (m : Migration) (mgr : Manager)
    → Moves (long_op_key long_op_import m) mgr (prepare_import x target m mgr).2
unfolding prepare_import
prepare-Moves x target m mgr = elim (Answer-cases (prepared x m)) [
  | inl (message, e) ↦ ground arith
  | inr (req, e) ↦ ground (arith, claim-Moves x target req m mgr)
]

finish_keeps :
    (x : ImportEnv) (m : Migration) (mgr : Manager) → (finish_import_task x m mgr).2 ≡ mgr
unfolding finish_import_task advance_to_creating
finish_keeps x m mgr = ground arith

guarded-Moves :
    (x : ImportEnv) (target : Provider) (m : Migration) (mgr : Manager)
    → Moves (long_op_key long_op_import m) mgr (guarded_import x target m mgr).2
unfolding guarded_import advance_to_creating
guarded-Moves x target m mgr = ground (arith, prepare-Moves x target m mgr, finish_keeps x m mgr)

pub handle_importing-Moves :
    (x : ImportEnv) (m : Migration) (mgr : Manager)
    → Moves (long_op_key long_op_import m) mgr (handle_importing_phase x m mgr).2
unfolding handle_importing_phase
handle_importing-Moves x m mgr = elim (Answer-cases x.target_provider) [
  | inl (message, e) ↦ ground arith
  | inr (target, e) ↦ ground (arith, guarded-Moves x target m mgr)
]
