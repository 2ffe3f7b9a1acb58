-- ===== src/Migration/StorageConfig/Laws.antt =====
-- What vmmigration_controller.go has checked of a storage configuration that it accepts.
use virtrigaud.Prelude.{◌≡◌, refl, ◌≢◌, Option, none, some, arith, eq_iff}
use virtrigaud.Migration.Types.{Storage, NfsConfig, S3Config}
use virtrigaud.Migration.Gate.{backend_s3, backend_nfs}
use virtrigaud.Migration.StorageConfig.{
  HostPolicy, validate_s3, validate_nfs, validate_storage_config,
}

-- The hosts that a provider will reach for the staged disk are permitted.
pub record IsConfigured (hosts : HostPolicy) (s : Storage) : Type 0 where
  pub accepted : validate_storage_config hosts s ≡ none
  pub s3_permitted :
      s.type ≡ backend_s3
      → (c : S3Config) × (s.s3 ≡ some c)
        × (c.bucket ≢ "")
        × (c.credentials_secret_ref.name ≢ "")
        × (hosts.validate_s3_endpoint c.endpoint ≡ none)
  pub nfs_permitted :
      s.type ≡ backend_nfs
      → (c : NfsConfig) × (s.nfs ≡ some c)
        × (c.server ≢ "")
        × (c.export ≢ "")
        × (hosts.validate_host c.server ≡ none)

s3_checked :
    (hosts : HostPolicy) (o : Option S3Config)
    → validate_s3 hosts o ≡ none
    → (c : S3Config) × (o ≡ some c)
      × (c.bucket ≢ "")
      × (c.credentials_secret_ref.name ≢ "")
      × (hosts.validate_s3_endpoint c.endpoint ≡ none)
unfolding validate_s3
s3_checked hosts none h = ground arith
s3_checked hosts (some c) h = (
  c,
  refl,
  ground (arith, eq_iff c.bucket ""),
  ground (arith, eq_iff c.credentials_secret_ref.name ""),
  ground arith,
)

nfs_checked :
    (hosts : HostPolicy) (o : Option NfsConfig)
    → validate_nfs hosts o ≡ none
    → (c : NfsConfig) × (o ≡ some c)
      × (c.server ≢ "")
      × (c.export ≢ "")
      × (hosts.validate_host c.server ≡ none)
unfolding validate_nfs
nfs_checked hosts none h = ground arith
nfs_checked hosts (some c) h =
    (c, refl, ground (arith, eq_iff c.server ""), ground (arith, eq_iff c.export ""), ground arith)

as_s3 :
    (hosts : HostPolicy) (s : Storage)
    → s.type ≡ backend_s3
    → validate_storage_config hosts s ≡ validate_s3 hosts s.s3
unfolding validate_storage_config validate_s3
as_s3 hosts s t = rw t refl

as_nfs :
    (hosts : HostPolicy) (s : Storage)
    → s.type ≡ backend_nfs
    → validate_storage_config hosts s ≡ validate_nfs hosts s.nfs
unfolding validate_storage_config validate_nfs
as_nfs hosts s t = rw t refl

pub accepted-IsConfigured :
    (hosts : HostPolicy) (s : Storage)
    → validate_storage_config hosts s ≡ none
    → IsConfigured hosts s
accepted-IsConfigured hosts s h = record {
  accepted = h;
  s3_permitted = λ t. s3_checked hosts s.s3 (rw (as_s3 hosts s t) at h);
  nfs_permitted = λ t. nfs_checked hosts s.nfs (rw (as_nfs hosts s t) at h);
}
