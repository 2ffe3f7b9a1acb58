-- ===== src/Migration/StorageConfig.antt =====
-- internal/controller/vmmigration_controller.go: validateStorageConfig. The policy of the hosts that may
-- be reached, of internal/storage/migration/addrpolicy.go, is an argument.
pub mod Laws
use virtrigaud.Prelude.{
  Bool, true, false, ◌||◌, ◌&&◌, not, String, [], ◌∷◌, Option, none, some, str_eq, sprintf,
  if◌then◌else◌,
}
use virtrigaud.Migration.Types.{Storage, PvcConfig, NfsConfig, S3Config}
use virtrigaud.Migration.Gate.{backend_s3, backend_nfs}

-- The answers of ValidateS3Endpoint and ValidateHost: the text of an error, or `none`
pub record HostPolicy : Type 0 where
  pub validate_s3_endpoint : String → Option String
  pub validate_host : String → Option String

unfoldable pub validate_s3 : HostPolicy → Option S3Config → Option String
validate_s3 hosts none = some "s3 configuration is required when using s3 storage type"
validate_s3 hosts (some c) =
    if str_eq c.bucket ""
    then some "s3.bucket is required for s3 storage type"
    else if str_eq c.credentials_secret_ref.name ""
    then some "s3.credentialsSecretRef is required for s3 storage type"
    else (elim (hosts.validate_s3_endpoint c.endpoint) [
      | none ↦ none
      | some err ↦ some (sprintf ("s3 endpoint not permitted: " ∷ err ∷ []))
    ])

unfoldable pub validate_nfs : HostPolicy → Option NfsConfig → Option String
validate_nfs hosts none = some "nfs configuration is required when using nfs storage type"
validate_nfs hosts (some c) =
    if str_eq c.server "" || str_eq c.export ""
    then some "nfs.server and nfs.export are required for nfs storage type"
    else (elim (hosts.validate_host c.server) [
      | none ↦ none
      | some err ↦ some (sprintf ("nfs server not permitted: " ∷ err ∷ []))
    ])

unfoldable pub is_access_mode : String → Bool
is_access_mode mode =
    str_eq mode "ReadWriteOnce" || str_eq mode "ReadWriteMany" || str_eq mode "ReadOnlyMany"

unfoldable pub validate_pvc : Option PvcConfig → Option String
unfolding is_access_mode
validate_pvc none = some "pvc configuration is required when using pvc storage type"
validate_pvc (some c) =
    if not (str_eq c.name "")
    then none
    else if str_eq c.storage_class_name ""
    then some "storageClassName is required when PVC name is not specified (auto-create mode)"
    else if str_eq c.size ""
    then some "size is required when PVC name is not specified (auto-create mode)"
    else if not (str_eq c.access_mode "") && not (is_access_mode c.access_mode)
    then some (sprintf ("invalid access mode: " ∷ c.access_mode ∷ []))
    else none

-- validateStorageConfig of a configuration that is not nil
unfoldable pub validate_storage_config : HostPolicy → Storage → Option String
unfolding validate_s3 validate_nfs validate_pvc
validate_storage_config hosts s =
    if str_eq s.type "pvc" || str_eq s.type ""
    then validate_pvc s.pvc
    else if str_eq s.type backend_s3
    then validate_s3 hosts s.s3
    else if str_eq s.type backend_nfs
    then validate_nfs hosts s.nfs
    else some
        (sprintf ("unsupported storage type: " ∷ s.type ∷ " (supported: 'pvc', 's3', 'nfs')" ∷ []))
