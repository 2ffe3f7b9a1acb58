-- ===== src/Migration/Types.antt =====
-- api/infra.virtrigaud.io/v1beta1/vmmigration_types.go and provider_types.go: the parts of a
-- VMMigration and of a Provider that the modelled handlers read or write. Durations and times are
-- int64 bit patterns in nanoseconds. A failed call of the API server or of a provider is its error text.
use virtrigaud.Prelude.{◌≡◌, refl, ◌⊎◌, inl, inr, ℕ, Bool, String, List, Option}
use virtrigaud.Prelude.Dict.{Dict}
use virtrigaud.K8s.Conditions.{Condition}

pub data Phase : Type 0 where
  unset pending validating snapshotting exporting transferring converting importing : Phase
  creating validating_target ready failed : Phase
  unknown_phase : String → Phase

pub record RetryPolicy : Type 0 where
  pub max_retries : Option ℕ
  pub retry_delay : Option ℕ
  pub backoff_multiplier : Option ℕ

pub record Options : Type 0 where
  pub disk_format : String
  pub compress : Bool
  pub verify_checksums : Bool
  pub retry_policy : Option RetryPolicy
  pub cleanup_policy : String

pub record ObjectRef : Type 0 where
  pub name : String
  pub namespace : String

pub record PvcConfig : Type 0 where
  pub name : String
  pub storage_class_name : String
  pub size : String
  pub access_mode : String

pub record NfsConfig : Type 0 where
  pub server : String
  pub export : String

pub record S3Config : Type 0 where
  pub bucket : String
  pub endpoint : String
  pub credentials_secret_ref : ObjectRef

pub record Storage : Type 0 where
  pub type : String
  pub transfer_mode : String
  pub pvc : Option PvcConfig
  pub nfs : Option NfsConfig
  pub s3 : Option S3Config

-- MigrationSource and MigrationTarget. Class, networks and placement of the target are the names of
-- what they refer to.
pub record Source : Type 0 where
  pub vm_ref : String
  pub provider_ref : Option ObjectRef
  pub snapshot_ref : Option String
  pub create_snapshot : Bool
  pub power_off_before_migration : Bool
  pub delete_after_migration : Bool

pub record Target : Type 0 where
  pub name : String
  pub namespace : String
  pub provider_ref : ObjectRef
  pub class_ref : Option String
  pub networks : List String
  pub placement_ref : Option String
  pub labels : Dict String
  pub annotations : Dict String

pub record Spec : Type 0 where
  pub source : Source
  pub target : Target
  pub storage : Option Storage
  pub options : Option Options

pub record DiskInfo : Type 0 where
  pub source_disk_id : String
  pub source_format : String
  pub source_checksum : String
  pub target_disk_id : String
  pub target_format : String
  pub target_path : String
  pub target_checksum : String

-- `storage_info` is StorageInfo.CleanedUp, `none` when StorageInfo is nil.
pub record Status : Type 0 where
  pub phase : Phase
  pub message : String
  pub snapshot_id : String
  pub export_id : String
  pub import_id : String
  pub task_ref : String
  pub completion_time : Option ℕ
  pub disk_info : Option DiskInfo
  pub conditions : List Condition
  pub retry_count : ℕ
  pub last_retry_time : Option ℕ
  pub start_time : Option ℕ
  pub target_vm_id : String
  pub storage_pvc_name : String
  pub storage_info : Option Bool

pub record Migration : Type 0 where
  pub name : String
  pub namespace : String
  pub deletion_timestamp : Option ℕ
  pub finalizers : List String
  pub uid : String
  pub generation : ℕ
  pub spec : Spec
  pub status : Status

pub record ReportedCapabilities : Type 0 where
  pub supported_export_backends : List String
  pub supported_import_backends : List String
  pub supported_transfer_modes : List String

pub record Provider : Type 0 where
  pub name : String
  pub namespace : String
  pub conditions : List Condition
  pub provider_type : String
  pub reported_capabilities : Option ReportedCapabilities

-- ctrl.Result with the error of a reconcile: an empty result, Requeue, RequeueAfter, an error.
pub data Outcome : Type 0 where
  done requeue : Outcome
  requeue_after : ℕ → Outcome
  error : String → Outcome

-- The answer of a call: its value, or the text of its error.
pub data Answer (A : Type 0) : Type 0 where
  returned : A → Answer A
  refused : String → Answer A

pub Answer-cases :
    {A : Type 0} (answer : Answer A)
    → ((err : String) × (answer ≡ refused err)) ⊎ ((a : A) × (answer ≡ returned a))
Answer-cases (returned a) = inr (a, refl)
Answer-cases (refused err) = inl (err, refl)

-- internal/providers/contracts/types.go: the fields of an ImportDiskRequest that are not constant
pub record ImportRequest : Type 0 where
  pub source_url : String
  pub format : String
  pub target_name : String
  pub verify_checksum : Bool
  pub expected_checksum : String
  pub credentials : String
  pub backend_type : String
  pub transfer_mode : String
  pub storage_options_json : String

pub record ImportResponse : Type 0 where
  pub disk_id : String
  pub path : String
  pub task_ref : String
  pub actual_size_bytes : ℕ
  pub checksum : String
