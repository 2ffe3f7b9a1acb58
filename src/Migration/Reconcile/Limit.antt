-- ===== src/Migration/Reconcile/Limit.antt =====
-- vmmigration_controller.go: over any run of reconciles the number of retries stays within the limit.
use virtrigaud.Prelude.{
  ◌≡◌, sym, ◌∙◌, ℕ, ◌≤◌, true, false, none, List, [], ◌∷◌, some, arith, inl, inr, Option-cases,
  Bool-cases, contains,
}
use mathlib.Core.Path.{subst}
use virtrigaud.Migration.Types.{
  Migration, Phase, unset, pending, validating, snapshotting, exporting, transferring, converting,
  importing, creating, validating_target, ready, failed, unknown_phase, RetryPolicy, Outcome, done,
  requeue, requeue_after, error,
}
use virtrigaud.Migration.Machines.{Effect}
use virtrigaud.Migration.Failed.{retry_policy, max_retries_of, permanently_failed}
use virtrigaud.Migration.Failed.Laws.{Bounded, handle_failed-Bounded}
use virtrigaud.Migration.Validating.{handle_pending_phase}
use virtrigaud.Migration.Importing.{handle_transferring_phase, handle_converting_phase}
use virtrigaud.Migration.Cleanup.{
  CleanupEnv, delete_source_snapshot, clean_storage, clean_snapshot, tidy, and_then,
  handle_ready_phase, forget_snapshot, call_snapshot_delete,
}
use virtrigaud.Migration.Cleanup.Order.{clean_up-tidy}
use virtrigaud.Migration.Deletion.{
  DeletionEnv, Collected, remove_storage, remove_pvc, remove_snapshot, remove_target, collect_all,
  handle_deletion, finalizer_name,
}
use virtrigaud.Migration.Reconcile.{World, Process, handle_phase, reconcile_migration}
use virtrigaud.Migration.Reconcile.History.{stored}
use virtrigaud.Migration.Reconcile.Retries.{
  KeepsRetries, validating-KeepsRetries, snapshotting-KeepsRetries, exporting-KeepsRetries,
  importing-KeepsRetries, creating-KeepsRetries, validating_target-KeepsRetries,
}

module _ (x : CleanupEnv) where
  clean_snapshot-KeepsRetries :
      (m : Migration) (es : List Effect) → KeepsRetries m (clean_snapshot x m es).1
  unfolding clean_snapshot delete_source_snapshot call_snapshot_delete forget_snapshot
  clean_snapshot-KeepsRetries m es = (ground arith, ground arith)

  tidy-KeepsRetries : (m : Migration) (es : List Effect) → KeepsRetries m (tidy x m es).1
  unfolding tidy and_then clean_storage
  tidy-KeepsRetries m es =
      let known = clean_snapshot-KeepsRetries m (clean_storage x m es).2 in
      (ground (arith, known), ground (arith, known))

  ready-KeepsRetries :
      (m : Migration) (es : List Effect) → KeepsRetries m (handle_ready_phase x m es).1
  unfolding handle_ready_phase
  ready-KeepsRetries m es =
      let same = clean_up-tidy x m es in
      let known = tidy-KeepsRetries m es in
      (ground (arith, same, known), ground (arith, same, known))

module _ (x : DeletionEnv) where
  storage_same : (m : Migration) (es : List Effect) → KeepsRetries m (remove_storage x m es).1
  unfolding remove_storage
  storage_same m es = (ground arith, ground arith)

  pvc_same : (c : Collected) → KeepsRetries c.1 (remove_pvc x c).1
  unfolding remove_pvc
  pvc_same (errors, m, es) = (ground arith, ground arith)

  snapshot_same : (c : Collected) → KeepsRetries c.1 (remove_snapshot x c).1
  unfolding remove_snapshot delete_source_snapshot call_snapshot_delete forget_snapshot
  snapshot_same (errors, m, es) = (ground arith, ground arith)

  target_keeps : (c : Collected) → KeepsRetries c.1 (remove_target x c).1
  unfolding remove_target
  target_keeps (errors, m, es) = (ground arith, ground arith)

chain : (a b c : Migration) → KeepsRetries a b → KeepsRetries b c → KeepsRetries a c
chain a b c (n, s) (n', s') = (n' ∙ n, s' ∙ s)

deletion-KeepsRetries :
    (x : DeletionEnv) (m : Migration) (es : List Effect) → KeepsRetries m (handle_deletion x m es).1
unfolding handle_deletion collect_all
deletion-KeepsRetries x m es =
    let first = remove_storage x m es in
    let second = remove_pvc x first in
    let third = remove_snapshot x second in
    chain m third.1 (remove_target x third).1
      (chain m second.1 third.1 (chain m first.1 second.1 (storage_same x m es) (pvc_same x first))
        (snapshot_same x second))
      (target_keeps x third)

keeps-Bounded : (m m' : Migration) → KeepsRetries m m' → Bounded m → Bounded m'
keeps-Bounded m m' (count, spec) bounded p policy = ground (arith, count, spec, bounded p)

handle-Bounded :
    (w : World) (q : Phase) (m : Migration) (p : Process)
    → Bounded m
    → Bounded (handle_phase w q m p).1
unfolding handle_phase handle_pending_phase handle_transferring_phase handle_converting_phase
handle-Bounded w unset m p b = b
handle-Bounded w pending m p b = b
handle-Bounded w validating m p b =
    keeps-Bounded m (handle_phase w validating m p).1
      (validating-KeepsRetries w.validating_env p.effects m) b
handle-Bounded w snapshotting m p b =
    keeps-Bounded m (handle_phase w snapshotting m p).1
      (snapshotting-KeepsRetries w.snapshot_env m p.effects) b
handle-Bounded w exporting m p b =
    keeps-Bounded m (handle_phase w exporting m p).1
      (exporting-KeepsRetries w.export_env m p.manager) b
handle-Bounded w transferring m p b = b
handle-Bounded w converting m p b = b
handle-Bounded w importing m p b =
    keeps-Bounded m (handle_phase w importing m p).1
      (importing-KeepsRetries w.import_env m p.manager) b
handle-Bounded w creating m p b =
    keeps-Bounded m (handle_phase w creating m p).1 (creating-KeepsRetries w.target_env m p.effects)
      b
handle-Bounded w validating_target m p b =
    keeps-Bounded m (handle_phase w validating_target m p).1
      (validating_target-KeepsRetries w.target_env m p.effects) b
handle-Bounded w ready m p b =
    keeps-Bounded m (handle_phase w ready m p).1 (ready-KeepsRetries w.cleanup_env m p.effects) b
handle-Bounded w failed m p b = elim (Bool-cases (permanently_failed m)) [
  | inl given_up ↦ rw given_up b
  | inr left ↦ rw left (handle_failed-Bounded w.env m p.deletions b)
]
handle-Bounded w (unknown_phase text) m p b = b

module _ (w : World) (m : Migration) (p : Process) where
  dispatched :
      m.deletion_timestamp ≡ none
      → contains m.finalizers finalizer_name ≡ true
      → reconcile_migration w m p ≡ handle_phase w m.status.phase m p
  unfolding reconcile_migration
  dispatched alive held = ground arith

  finalized :
      m.deletion_timestamp ≡ none
      → contains m.finalizers finalizer_name ≡ false
      → KeepsRetries m (reconcile_migration w m p).1
  unfolding reconcile_migration
  finalized alive bare = (ground arith, ground arith)

  deleted :
      (at : ℕ)
      → m.deletion_timestamp ≡ some at
      → (reconcile_migration w m p).1 ≡ (handle_deletion w.deletion_env m p.effects).1
  unfolding reconcile_migration
  deleted at d = ground arith

reconcile-Bounded :
    (w : World) (m : Migration) (p : Process) → Bounded m → Bounded (reconcile_migration w m p).1
reconcile-Bounded w m p b = elim (Option-cases m.deletion_timestamp) [
  | inr (at, d) ↦
      keeps-Bounded m (reconcile_migration w m p).1
        (subst (λ n. KeepsRetries m n) (sym (deleted w m p at d))
          (deletion-KeepsRetries w.deletion_env m p.effects))
        b
  | inl n ↦ (elim (Bool-cases (contains m.finalizers finalizer_name)) [
    | inl held ↦
        subst (λ r. Bounded r.1) (sym (dispatched w m p n held))
          (handle-Bounded w m.status.phase m p b)
    | inr bare ↦ keeps-Bounded m (reconcile_migration w m p).1 (finalized w m p n bare) b
  ])
]

stored-Bounded : (m m' : Migration) (o : Outcome) → Bounded m → Bounded m' → Bounded (stored m o m')
stored-Bounded m m' done b b' = b'
stored-Bounded m m' requeue b b' = b'
stored-Bounded m m' (requeue_after t) b b' = b'
stored-Bounded m m' (error err) b b' = b

-- The migration as a run of reconciles leaves it in the API server
unfoldable pub final : List World → Migration → Process → Migration
final [] m p = m
final (w ∷ ws) m p = let (o, m', p') = reconcile_migration w m p in final ws (stored m o m') p'

final-Bounded : (ws : List World) (m : Migration) (p : Process) → Bounded m → Bounded (final ws m p)
unfolding final
final-Bounded [] m p b = b
final-Bounded (w ∷ ws) m p b =
    let (o, m', p') = reconcile_migration w m p in
    final-Bounded ws (stored m o m') p' (stored-Bounded m m' o b (reconcile-Bounded w m p b))

-- Over any run of reconciles, however they are answered and whichever lose their status write, the number
-- of retries that are counted stays within the limit of the migration's retry policy, if it was at first.
pub retries_within_limit :
    (ws : List World) (m : Migration) (p : Process) (policy : RetryPolicy)
    → Bounded m
    → retry_policy (final ws m p) ≡ some policy
    → (final ws m p).status.retry_count ≤ max_retries_of policy
retries_within_limit ws m p policy b given = final-Bounded ws m p b policy given
