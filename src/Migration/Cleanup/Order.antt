-- ===== src/Migration/Cleanup/Order.antt =====
-- The order in which vmmigration_controller.go cleans up after a migration.
use virtrigaud.Prelude.{
  if◌then◌else◌, ◌≡◌, ◌≢◌, Bool, true, false, List, [], ◌∷◌, none, some, arith, refl,
}
use virtrigaud.Migration.Types.{Migration}
use virtrigaud.Migration.Machines.{Effect, vm_delete}
use virtrigaud.Migration.Cleanup.{
  CleanupEnv, cleanup_intermediate_storage, delete_source_snapshot, clean_storage, clean_snapshot,
  clean_source_vm, clean_up, tidy, and_then, Step, handle_ready_phase, already_clean,
  forget_snapshot, call_snapshot_delete,
}

-- Whether a call is the deletion of a VM
abbrev pub is_vm_delete : Effect → Bool
is_vm_delete (vm_delete ns name) = true
is_vm_delete _ = false

abbrev pub deletes_vm : List Effect → Bool
deletes_vm [] = false
deletes_vm (e ∷ es) = if is_vm_delete e then true else deletes_vm es

module _ (x : CleanupEnv) (m : Migration) (effects : List Effect) where
  keeps_storage : deletes_vm (clean_storage x m effects).2 ≡ deletes_vm effects
  unfolding clean_storage cleanup_intermediate_storage
  keeps_storage = ground arith

  pub same_migration : (clean_storage x m effects).1 ≡ m
  unfolding clean_storage
  same_migration = ground arith

  keeps_snapshot : deletes_vm (clean_snapshot x m effects).2 ≡ deletes_vm effects
  unfolding clean_snapshot delete_source_snapshot call_snapshot_delete
  keeps_snapshot = ground arith

  pub deletion_wanted :
      deletes_vm effects ≡ false
      → deletes_vm (clean_source_vm x m effects).2 ≡ true
      → m.spec.source.delete_after_migration ≡ true
  unfolding clean_source_vm
  deletion_wanted n d = ground arith

  source_keeps : (clean_source_vm x m effects).1 ≡ m
  unfolding clean_source_vm
  source_keeps = ground arith

then_keeps :
    (s : Step) (next : Migration → List Effect → Step)
    → ((m : Migration) (es : List Effect) → deletes_vm (next m es).2 ≡ deletes_vm es)
    → deletes_vm (and_then s next).2 ≡ deletes_vm s.2
unfolding and_then
then_keeps (none, m, es) next h = refl
then_keeps (some b, m, es) next h = h m es

pub then_deletes :
    (s : Step) (next : Migration → List Effect → Step)
    → deletes_vm s.2 ≡ false
    → deletes_vm (and_then s next).2 ≡ true
    → (s.0 ≢ none) × (deletes_vm (next s.1 s.2).2 ≡ true)
unfolding and_then
then_deletes (none, m, es) next n d = ground arith
then_deletes (some b, m, es) next n d = (ground arith, d)

pub then_succeeds :
    (s : Step) (next : Migration → List Effect → Step)
    → (and_then s next).0 ≢ none
    → (s.0 ≢ none) × ((next s.1 s.2).0 ≢ none) × ((and_then s next).1 ≡ (next s.1 s.2).1)
unfolding and_then
then_succeeds (none, m, es) next p = absurd (p refl)
then_succeeds (some b, m, es) next p = (ground arith, ground arith, refl)

pub tidy_keeps :
    (x : CleanupEnv) (m : Migration) (effects : List Effect)
    → deletes_vm (tidy x m effects).2 ≡ deletes_vm effects
unfolding tidy
tidy_keeps x m effects = ground (
  arith,
  then_keeps (clean_storage x m effects) (clean_snapshot x) (keeps_snapshot x),
  keeps_storage x m effects,
)

then_same :
    (s : Step) (next : Migration → List Effect → Step)
    → ((m : Migration) (es : List Effect) → (next m es).1 ≡ m)
    → (and_then s next).1 ≡ s.1
unfolding and_then
then_same (none, m, es) next h = refl
then_same (some b, m, es) next h = h m es

pub clean_up-tidy :
    (x : CleanupEnv) (m : Migration) (effects : List Effect)
    → (clean_up x m effects).1 ≡ (tidy x m effects).1
unfolding clean_up
clean_up-tidy x m effects = then_same (tidy x m effects) (clean_source_vm x) (source_keeps x)

snapshot_spec :
    (x : CleanupEnv) (m : Migration) (effects : List Effect)
    → (clean_snapshot x m effects).1.spec ≡ m.spec
unfolding clean_snapshot delete_source_snapshot call_snapshot_delete forget_snapshot
snapshot_spec x m effects = ground arith

pub tidy_spec :
    (x : CleanupEnv) (m : Migration) (effects : List Effect) → (tidy x m effects).1.spec ≡ m.spec
unfolding tidy and_then clean_storage
tidy_spec x m effects = ground (arith, snapshot_spec x m (clean_storage x m effects).2)

pub deletes_clean :
    (x : CleanupEnv) (m : Migration)
    → deletes_vm (handle_ready_phase x m []).2 ≡ true
    → (already_clean m ≡ false) × (deletes_vm (clean_up x m []).2 ≡ true)
unfolding handle_ready_phase
deletes_clean x m d = (ground arith, ground arith)

snapshot_phase :
    (x : CleanupEnv) (m : Migration) (effects : List Effect)
    → (clean_snapshot x m effects).1.status.phase ≡ m.status.phase
unfolding clean_snapshot delete_source_snapshot call_snapshot_delete forget_snapshot
snapshot_phase x m effects = ground arith

tidy_phase :
    (x : CleanupEnv) (m : Migration) (effects : List Effect)
    → (tidy x m effects).1.status.phase ≡ m.status.phase
unfolding tidy and_then clean_storage
tidy_phase x m effects = ground (arith, snapshot_phase x m (clean_storage x m effects).2)

pub ready_phase :
    (x : CleanupEnv) (m : Migration) (effects : List Effect)
    → (handle_ready_phase x m effects).1.status.phase ≡ m.status.phase
unfolding handle_ready_phase
ready_phase x m effects = ground (arith, clean_up-tidy x m effects, tidy_phase x m effects)
