-- ===== src/Machine/Request/Contract.antt =====
-- internal/providers/contracts/types.go and provider.go: what the VirtualMachine controller sends to a
-- provider, and what comes back. The fields that the controller never sets are left out.
use virtrigaud.Prelude.{ℕ, Bool, String, List, Option}
use virtrigaud.Prelude.Dict.{Dict}
use virtrigaud.Machine.Types.{DiskSpec, Placement, PerformanceProfile}

pub record ClassDisk : Type 0 where
  pub type : String
  pub size_gib : ℕ

pub record ClassSecurity : Type 0 where
  pub secure_boot : Bool
  pub tpm_enabled : Bool
  pub tpm_version : String
  pub vtd_enabled : Bool
  pub encryption_enabled : Bool
  pub key_provider : String
  pub require_encryption : Bool

pub record ClassLimits : Type 0 where
  pub cpu_limit : Option ℕ
  pub cpu_reservation : Option ℕ
  pub memory_limit_mib : Option ℕ
  pub memory_reservation_mib : Option ℕ
  pub cpu_shares : Option ℕ

-- contracts.VMClass; `memory_mib` is the bit pattern of an int32.
pub record ClassRequest : Type 0 where
  pub cpu : ℕ
  pub memory_mib : ℕ
  pub firmware : String
  pub disk_defaults : Option ClassDisk
  pub guest_tools_policy : String
  pub extra_config : Dict String
  pub performance_profile : Option PerformanceProfile
  pub security_profile : Option ClassSecurity
  pub resource_limits : Option ClassLimits

-- contracts.VMImage
pub record ImageSource : Type 0 where
  pub template_name : String
  pub path : String
  pub url : String
  pub format : String
  pub checksum : String
  pub checksum_type : String

-- contracts.NetworkAttachment
pub record Attachment : Type 0 where
  pub name : String
  pub network_name : String
  pub bridge : String
  pub vlan : ℕ
  pub model : String
  pub static_ip : String
  pub prefix : ℕ
  pub gateway : String
  pub dns : String
  pub pci_slot_number : Option ℕ

-- contracts.UserData
pub record UserData : Type 0 where
  pub type : String
  pub cloud_init_data : String

-- `meta_data` is MetaData.MetaDataYAML.
pub record CreateRequest : Type 0 where
  pub name : String
  pub class : ClassRequest
  pub image : ImageSource
  pub networks : List Attachment
  pub disks : List DiskSpec
  pub user_data : Option UserData
  pub meta_data : Option String
  pub placement : Option Placement
  pub tags : List String

pub record CreateResponse : Type 0 where
  pub id : String
  pub task_ref : String

pub record DescribeResponse : Type 0 where
  pub is_there : Bool
  pub power_state : String
  pub ips : List String
  pub console_url : String
  pub provider_raw : Dict String

-- ImagePrepareResponse
pub record PrepareResponse : Type 0 where
  pub task_ref : String
  pub prepared_image_id : String
  pub prepared_image_path : String
