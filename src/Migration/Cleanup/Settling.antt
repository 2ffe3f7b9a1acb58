-- ===== src/Migration/Cleanup/Settling.antt =====
-- How the cleanup of vmmigration_controller.go comes to an end, and what keeps it from ending.
use virtrigaud.Prelude.{
  ◌*◌, ◌≡◌, ◌⊎◌, inl, inr, true, false, String, List, none, some, arith, refl, ◌∙◌, Option-cases,
  Bool-cases,
}
use virtrigaud.Migration.Types.{Migration, refused, done, requeue_after}
use virtrigaud.Migration.Failed.{cleanup_allowed, minute}
use virtrigaud.Migration.Machines.{Effect}
use virtrigaud.Migration.Cleanup.{
  CleanupEnv, delete_source_snapshot, delete_source_vm, clean_storage, clean_snapshot,
  clean_source_vm, clean_up, tidy, and_then, Step, handle_ready_phase, already_clean,
}

-- A step that did nothing called nothing.
module _ (x : CleanupEnv) (m : Migration) (effects : List Effect) where
  storage_idle :
      (clean_storage x m effects).0 ≡ some false → (clean_storage x m effects).2 ≡ effects
  unfolding clean_storage
  storage_idle h = ground arith

  snapshot_idle :
      (clean_snapshot x m effects).0 ≡ some false → (clean_snapshot x m effects).2 ≡ effects
  unfolding clean_snapshot
  snapshot_idle h = ground arith

  source_idle :
      (clean_source_vm x m effects).0 ≡ some false → (clean_source_vm x m effects).2 ≡ effects
  unfolding clean_source_vm
  source_idle h = ground arith

then_idle :
    (s : Step) (next : Migration → List Effect → Step) (effects : List Effect)
    → (s.0 ≡ some false → s.2 ≡ effects)
    → ((next s.1 s.2).0 ≡ some false → (next s.1 s.2).2 ≡ s.2)
    → (and_then s next).0 ≡ some false
    → (and_then s next).2 ≡ effects
unfolding and_then
then_idle (none, m, es) next effects f g h = ground arith
then_idle (some true, m, es) next effects f g h = elim (Option-cases (next m es).0) [
  | inl n ↦ ground arith
  | inr (b, n) ↦ ground arith
]
then_idle (some false, m, es) next effects f g h = elim (Option-cases (next m es).0) [
  | inl n ↦ ground arith
  | inr (b, n) ↦ g (ground arith) ∙ f refl
]

tidy_idle :
    (x : CleanupEnv) (m : Migration) (effects : List Effect)
    → (tidy x m effects).0 ≡ some false
    → (tidy x m effects).2 ≡ effects
unfolding tidy
tidy_idle x m effects h = elim (Bool-cases (cleanup_allowed m)) [
  | inl a ↦ rw a (
      then_idle (clean_storage x m effects) (clean_snapshot x) effects (storage_idle x m effects)
        (snapshot_idle x _ _) (rw a at h))
  | inr a ↦ rw a refl
]

clean_up_idle :
    (x : CleanupEnv) (m : Migration) (effects : List Effect)
    → (clean_up x m effects).0 ≡ some false
    → (clean_up x m effects).2 ≡ effects
unfolding clean_up
clean_up_idle x m effects h =
    then_idle (tidy x m effects) (clean_source_vm x) effects (tidy_idle x m effects)
      (source_idle x _ _) h

clean_stays :
    (y : CleanupEnv) (m : Migration) (effects : List Effect)
    → already_clean m ≡ true
    → handle_ready_phase y m effects ≡ (done, m, effects)
unfolding handle_ready_phase
clean_stays y m effects a = ground arith

records :
    (x : CleanupEnv) (m : Migration) (effects : List Effect)
    → (clean_up x m effects).0 ≡ some true
    → already_clean (handle_ready_phase x m effects).1 ≡ true
unfolding handle_ready_phase already_clean
records x m effects c = ground arith

-- A pass that ends without asking for another one has either called nothing or recorded the cleanup,
-- so that the next pass over what it leaves does nothing at all, whatever its calls would answer.
pub ready_settles :
    (x y : CleanupEnv) (m : Migration) (effects : List Effect)
    → (handle_ready_phase x m effects).0 ≡ done
    → ((handle_ready_phase x m effects).2 ≡ effects)
      ⊎ (let (o, m', effects') = handle_ready_phase x m effects in
          handle_ready_phase y m' effects' ≡ (done, m', effects'))
unfolding handle_ready_phase
ready_settles x y m effects h = elim (Option-cases (clean_up x m effects).0) [
  | inl n ↦ (elim (Bool-cases (already_clean m)) [
    | inl a ↦ inl (ground arith)
    | inr a ↦ ground arith
  ])
  | inr (true, c) ↦ inr (clean_stays y _ _ (records x m effects c))
  | inr (false, c) ↦ inl (ground (arith, clean_up_idle x m effects c))
]

-- A source VM that is gone ends no cleanup. When the migration is to delete its source VM, the cleanup
-- is not recorded and the source VM is not found any more, every pass asks for another one after five
-- minutes and leaves the cleanup unrecorded.
pub deleted_source_never_settles :
    (x : CleanupEnv) (m : Migration) (effects : List Effect) (err : String)
    → m.spec.source.delete_after_migration ≡ true
    → already_clean m ≡ false
    → x.source_vm ≡ refused err
    → let (o, m', effects') = handle_ready_phase x m effects in
      (o ≡ requeue_after (5 * minute)) × (already_clean m' ≡ false)
unfolding handle_ready_phase already_clean clean_up tidy clean_storage clean_snapshot
    clean_source_vm and_then delete_source_snapshot delete_source_vm
deleted_source_never_settles x m effects err a n g = ground arith
