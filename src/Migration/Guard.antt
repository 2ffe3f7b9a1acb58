-- ===== src/Migration/Guard.antt =====
-- internal/controller/vmmigration_controller.go: what the export and the import share, the in-memory
-- guard longOpInFlight and gateProviderCapability.
pub mod Moves
use virtrigaud.Prelude.{
  true, ℕ, Bool, false, ◌&&◌, not, String, List, [], ◌∷◌, Option, none, some, str_eq, contains,
  sprintf, decimal, if◌then◌else◌,
}
use virtrigaud.Migration.Types.{Migration, ImportRequest, Outcome, done, error}

pub data LongOp : Type 0 where
  long_op_export long_op_import : LongOp

op_text : LongOp → String
op_text long_op_export = "export"
op_text long_op_import = "import"

-- The manager process: the keys of longOpInFlight, and for the statements the keys of the long RPCs
-- that it issued and of those that returned a response, and the requests of the imports.
pub record Manager : Type 0 where
  pub long_op_in_flight : List String
  pub issued : List String
  pub answered : List String
  pub import_requests : List ImportRequest

-- longOpKey
unfoldable pub long_op_key : LongOp → Migration → String
unfolding op_text
long_op_key op m = sprintf (m.uid ∷ "/" ∷ decimal m.generation ∷ "/" ∷ op_text op ∷ [])

-- longOpAlreadyStarted
unfoldable pub long_op_already_started : Migration → LongOp → Manager → Bool
long_op_already_started m op mgr = contains mgr.long_op_in_flight (long_op_key op m)

-- markLongOpStarted
unfoldable pub mark_long_op_started : Migration → LongOp → Manager → Bool × Manager
mark_long_op_started m op mgr =
    let k = long_op_key op m in
    if contains mgr.long_op_in_flight k
    then (false, mgr)
    else (true, record mgr { long_op_in_flight = k ∷ mgr.long_op_in_flight })

-- longOpInFlight.Delete
unfoldable pub delete_key : String → List String → List String
delete_key k [] = []
delete_key k (j ∷ js) = if str_eq j k then delete_key k js else j ∷ delete_key k js

unfoldable pub release : Migration → LongOp → Manager → Manager
release m op mgr = record mgr {
  long_op_in_flight = delete_key (long_op_key op m) mgr.long_op_in_flight;
}

-- gateProviderCapability: it blocks only if it is enforced and the provider reports that it cannot.
unfoldable pub blocked : Bool → Option Bool → Bool
blocked enforce reported =
    enforce && (elim reported [ none ↦ false | some supported ↦ not supported ])

-- The gate hands on the result of transitionToFailed without its error.
abbrev pub drop_error : Outcome → Outcome
drop_error (error err) = done
drop_error outcome = outcome
