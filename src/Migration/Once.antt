-- ===== src/Migration/Once.antt =====
-- The guard longOpInFlight of vmmigration_controller.go over the life of a manager process: no reconcile,
-- however stale the object that it sees, repeats an export or an import that a provider has answered.
mod Tests
use virtrigaud.Prelude.{ℕ, ◌≤◌, List, [], ◌∷◌, String, contains, arith}
use virtrigaud.Migration.Types.{Migration}
use virtrigaud.Migration.Guard.{LongOp, Manager, long_op_export, long_op_import, long_op_key}
use virtrigaud.Migration.Guard.Moves.{Guarded, Moves-Guarded, count, held, held-le}
use virtrigaud.Migration.Exporting.{ExportEnv, handle_exporting_phase}
use virtrigaud.Migration.Exporting.Moves.{handle_exporting-Moves}
use virtrigaud.Migration.Importing.{ImportEnv, handle_importing_phase}
use virtrigaud.Migration.Importing.Moves.{handle_importing-Moves}

-- A reconcile of any migration in the phase Exporting or Importing. What it sees of the migration is
-- arbitrary: the cache may be stale.
pub data Pass : Type 0 where
  exporting_pass : ExportEnv → Migration → Pass
  importing_pass : ImportEnv → Migration → Pass

pub reconcile_all : List Pass → Manager → Manager
reconcile_all [] mgr = mgr
reconcile_all (exporting_pass x m ∷ passes) mgr =
    reconcile_all passes (handle_exporting_phase x m mgr).2
reconcile_all (importing_pass x m ∷ passes) mgr =
    reconcile_all passes (handle_importing_phase x m mgr).2

all-Guarded :
    (passes : List Pass) (k : String) (mgr : Manager)
    → Guarded k mgr
    → Guarded k (reconcile_all passes mgr)
unfolding reconcile_all
all-Guarded [] k mgr g = g
all-Guarded (exporting_pass x m ∷ passes) k mgr g =
    all-Guarded passes k (handle_exporting_phase x m mgr).2 (
      Moves-Guarded k (long_op_key long_op_export m) mgr (handle_exporting_phase x m mgr).2
        (handle_exporting-Moves x m mgr) g)
all-Guarded (importing_pass x m ∷ passes) k mgr g =
    all-Guarded passes k (handle_importing_phase x m mgr).2 (
      Moves-Guarded k (long_op_key long_op_import m) mgr (handle_importing_phase x m mgr).2
        (handle_importing-Moves x m mgr) g)

abbrev pub started : Manager
started = record { long_op_in_flight = []; issued = []; answered = []; import_requests = [] }

-- In the life of a manager process ExportDisk, and likewise ImportDisk, returns a response at most once
-- for each migration UID and generation: whatever each reconcile sees of the migration and whatever
-- the API server and the providers answer.
pub long_op_at_most_once :
    (passes : List Pass) (op : LongOp) (m : Migration)
    → count (long_op_key op m) (reconcile_all passes started).answered ≤ 1
unfolding count
long_op_at_most_once passes op m = omega (
  arith,
  all-Guarded passes (long_op_key op m) started (omega arith),
  held-le (contains (reconcile_all passes started).long_op_in_flight (long_op_key op m)),
)
