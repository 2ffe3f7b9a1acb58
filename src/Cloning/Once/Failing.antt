-- ===== src/Cloning/Once/Failing.antt =====
-- internal/controller/vmclone_controller.go: what becomes of a clone whose running task could not be asked
-- about.
use virtrigaud.Prelude.{
  ◌≡◌, ◌≢◌, refl, ◌⊎◌, inl, inr, true, String, List, [], ◌∷◌, ◌++◌, none, some, contains, arith,
  eq_iff, Option-cases,
}
use virtrigaud.Migration.Types.{refused, done}
use virtrigaud.Machine.Types.{Machine}
use virtrigaud.Cloning.Types.{VmClone, CloneEnv, CloneCall}
use virtrigaud.Cloning.Target.{mark_failed}
use virtrigaud.Cloning.Binding.{poll_clone_task}
use virtrigaud.Cloning.Reconcile.{clone_finalizer, is_over, reconcile_clone}
use virtrigaud.Cloning.Once.{stored_clone, CloneRound, edited_clone, clone_calls, clone_after}

reconcile_over :
    (y : CloneEnv) (c : VmClone)
    → c.deletion_timestamp ≡ none
    → contains c.finalizers clone_finalizer ≡ true
    → is_over y c ≡ true
    → reconcile_clone y c ≡ (done, c, [])
unfolding reconcile_clone
reconcile_over y c alive held over = ground arith

-- In no round the clone is being deleted or has lost its finalizer.
abbrev pub AllHeld : List CloneRound → Type 0
AllHeld [] = Unit
AllHeld (r ∷ rs) =
    (r.deletion_timestamp ≡ none) × (contains r.finalizers clone_finalizer ≡ true) × AllHeld rs

-- All calls of the rounds
unfoldable pub all_calls : List CloneRound → VmClone → List CloneCall
all_calls [] c = []
all_calls (r ∷ rs) c = clone_calls r c ++ all_calls rs (clone_after r c)

-- The object in the API server after a poll of the task whose status write was stored or was not
abbrev pub after_poll : CloneEnv → Machine → String → VmClone → VmClone
after_poll x source namespace c =
    let c' = (poll_clone_task x source namespace c []).1 in
    elim (x.update_status c'.status) [ none ↦ c' | some err ↦ c ]

over_calls :
    (r : CloneRound) (c : VmClone)
    → c.status.phase ≡ "Failed"
    → r.deletion_timestamp ≡ none
    → contains r.finalizers clone_finalizer ≡ true
    → clone_calls r c ≡ []
unfolding clone_calls edited_clone is_over
over_calls r c failed alive held =
    let over : is_over r.env (edited_clone r c) ≡ true =
      ground (arith, eq_iff c.status.phase "Failed") in
    ground (arith, reconcile_over r.env (edited_clone r c) alive held over)

over_phase :
    (r : CloneRound) (c : VmClone)
    → clone_calls r c ≡ []
    → c.status.phase ≡ "Failed"
    → (clone_after r c).status.phase ≡ "Failed"
unfolding clone_after stored_clone
over_phase r c quiet failed = ground arith

stays_failed :
    (rs : List CloneRound) (c : VmClone)
    → c.status.phase ≡ "Failed"
    → AllHeld rs
    → all_calls rs c ≡ []
unfolding all_calls
stays_failed [] c failed held = refl
stays_failed (r ∷ rs) c failed (alive, kept, rest) =
    let quiet = over_calls r c failed alive kept in
    ground (arith, quiet, stays_failed rs (clone_after r c) (over_phase r c quiet failed) rest)

poll_fails :
    (x : CloneEnv) (source : Machine) (namespace err : String) (c : VmClone)
    → x.is_task_complete c.status.task_ref ≡ refused err
    → let c' = (poll_clone_task x source namespace c []).1 in
      (c'.status.phase ≡ "Failed") × (c'.status.task_ref ≡ "")
unfolding poll_clone_task mark_failed
poll_fails x source namespace err c refusal = (ground arith, ground arith)

-- One failed question about a running task ends the clone for good, once that is stored. Either the status
-- write is not stored, and the clone is as it was; or the clone is Failed with its task forgotten, and over
-- any later rounds in which it is not being deleted and keeps its finalizer, with whatever specification,
-- nothing is ever called again: the VM that the provider is making is not bound.
pub failed_poll_is_final :
    (x : CloneEnv) (source : Machine) (namespace err : String) (c : VmClone) (rs : List CloneRound)
    → x.is_task_complete c.status.task_ref ≡ refused err
    → AllHeld rs
    → let polled = (poll_clone_task x source namespace c []).1 in
      let c' = after_poll x source namespace c in
      ((x.update_status polled.status ≢ none) × (c' ≡ c))
      ⊎ ((x.update_status polled.status ≡ none)
          × (c'.status.phase ≡ "Failed")
          × (c'.status.task_ref ≡ "")
          × (all_calls rs c' ≡ []))
failed_poll_is_final x source namespace err c rs refusal held =
    let polled = (poll_clone_task x source namespace c []).1 in
    let (failed, forgotten) = poll_fails x source namespace err c refusal in
    elim (Option-cases (x.update_status polled.status)) [
      | inr (e, lost) ↦ inl (ground arith, ground arith)
      | inl written ↦ inr (
        written,
        ground (arith, failed),
        ground (arith, forgotten),
        rw (after_poll, written) (stays_failed rs polled failed held),
      )
    ]
