-- ===== src/Migration/Once/Tests.antt =====
-- The guard of vmmigration_controller.go over four reconciles of one migration.
use virtrigaud.Prelude.{◌≤◌, List, [], ◌∷◌}
use virtrigaud.Migration.Types.{refused}
use virtrigaud.Migration.Guard.{long_op_export, long_op_key}
use virtrigaud.Migration.Guard.Moves.{count}
use virtrigaud.Migration.Exporting.{ExportEnv}
use virtrigaud.Migration.Once.{
  Pass, exporting_pass, importing_pass, reconcile_all, started, long_op_at_most_once,
}
use virtrigaud.Migration.Samples.{healthy_export, healthy_import, fresh}

-- The provider refuses the call.
abbrev refusing : ExportEnv
refusing = record healthy_export { export_disk = refused "busy" }

-- The third has a status from before the second.
abbrev passes : List Pass
passes =
    exporting_pass refusing fresh
    ∷ exporting_pass healthy_export fresh
    ∷ exporting_pass healthy_export fresh
    ∷ importing_pass healthy_import fresh
    ∷ []

long_op_at_most_once_example :
    count (long_op_key long_op_export fresh) (reconcile_all passes started).answered ≤ 1
long_op_at_most_once_example = long_op_at_most_once passes long_op_export fresh
