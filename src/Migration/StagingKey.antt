-- ===== src/Migration/StagingKey.antt =====
-- internal/controller/vmmigration_controller.go, generateStorageURL: the names under which a migration
-- stages its disk on each backend, before the prefix of the bucket, the export or the PVC.
pub mod Laws
mod Tests
use virtrigaud.Prelude.{String, [], ◌∷◌, sprintf}

-- migrationPath
unfoldable pub pvc_path : String → String → String → String
pvc_path namespace name stage =
    sprintf ("vmmigrations" ∷ "/" ∷ namespace ∷ "/" ∷ name ∷ "/" ∷ stage ∷ ".qcow2" ∷ [])

-- key of the case BackendS3
unfoldable pub s3_key : String → String → String → String
s3_key namespace name stage =
    sprintf ("vmmigrations" ∷ "/" ∷ namespace ∷ "/" ∷ name ∷ "/" ∷ stage ∷ ".vmdk" ∷ [])

-- key of the case BackendNFS
unfoldable pub nfs_key : String → String → String → String
nfs_key namespace name stage =
    sprintf ("vmmigrations-" ∷ namespace ∷ "-" ∷ name ∷ "-" ∷ stage ∷ ".qcow2" ∷ [])
