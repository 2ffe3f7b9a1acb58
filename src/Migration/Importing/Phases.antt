-- ===== src/Migration/Importing/Phases.antt =====
-- The phases that follow Importing in vmmigration_controller.go.
use virtrigaud.Prelude.{◌≡◌, arith, inl, inr}
use virtrigaud.Migration.Types.{Migration, importing, Answer-cases, Provider, ImportRequest}
use virtrigaud.Migration.Phases.{Moves}
use virtrigaud.Migration.Guard.{Manager}
use virtrigaud.Migration.Failed.{transition_to_failed}
use virtrigaud.Migration.Importing.{
  ImportEnv, handle_importing_phase, guarded_import, prepare_import, claim_and_import, issue_import,
  after_import, note_import, finish_import_task, advance_to_creating, prepared,
}

module _ (x : ImportEnv) (target : Provider) (m : Migration) (mgr : Manager)
    (v : m.status.phase ≡ importing) where
  claimed_phase :
      (req : ImportRequest) → Moves importing (claim_and_import x target req m mgr).1.status.phase
  unfolding claim_and_import issue_import after_import note_import advance_to_creating
      transition_to_failed
  claimed_phase req = ground arith

  begun_phase : Moves importing (prepare_import x target m mgr).1.status.phase
  unfolding prepare_import transition_to_failed
  begun_phase = elim (Answer-cases (prepared x m)) [
    | inl (message, e) ↦ ground arith
    | inr (req, e) ↦ ground (arith, claimed_phase req)
  ]

  finished_phase : Moves importing (finish_import_task x m mgr).1.status.phase
  unfolding finish_import_task advance_to_creating transition_to_failed
  finished_phase = ground arith

  guarded_phase : Moves importing (guarded_import x target m mgr).1.status.phase
  unfolding guarded_import advance_to_creating
  guarded_phase = ground (arith, begun_phase, finished_phase)

pub importing-Moves :
    (x : ImportEnv) (m : Migration) (mgr : Manager)
    → m.status.phase ≡ importing
    → Moves importing (handle_importing_phase x m mgr).1.status.phase
unfolding handle_importing_phase transition_to_failed
importing-Moves x m mgr v = elim (Answer-cases x.target_provider) [
  | inl (message, e) ↦ ground arith
  | inr (target, e) ↦ ground (arith, guarded_phase x target m mgr v)
]
