-- ===== src/Machine/Types.antt =====
-- api/infra.virtrigaud.io/v1beta1: the parts of a VirtualMachine, a VMClass, a VMImage and a
-- VMNetworkAttachment that the VirtualMachine controller reads or writes. Sizes are numbers of bytes, as
-- Quantity.Value gives them; times are numbers.
use virtrigaud.Prelude.{ℕ, Bool, String, List, Option}
use virtrigaud.Prelude.Dict.{Dict}
use virtrigaud.K8s.Conditions.{Condition}
use virtrigaud.Migration.Types.{ObjectRef}
use virtrigaud.Migration.Machines.{ImportedDisk}

-- VirtualMachineResources, without the GPU
pub record Resources : Type 0 where
  pub cpu : Option ℕ
  pub memory_mib : Option ℕ

-- VMNetworkRef
pub record NetworkRef : Type 0 where
  pub name : String
  pub network_ref : Option ObjectRef
  pub ip_address : String
  pub prefix : ℕ
  pub gateway : String
  pub dns : String

-- DiskSpec, the same fields in a create request
pub record DiskSpec : Type 0 where
  pub name : String
  pub size_gib : ℕ
  pub type : String

-- CloudInit and CloudInitMetaData: the inline text and the name of a Secret
pub record CloudInit : Type 0 where
  pub inline : String
  pub secret_ref : Option String

-- Placement, the same fields in a create request
pub record Placement : Type 0 where
  pub datastore : String
  pub storage_pod : String
  pub cluster : String
  pub folder : String

pub record MachineSpec : Type 0 where
  pub provider_ref : ObjectRef
  pub class_ref : ObjectRef
  pub image_ref : Option ObjectRef
  pub imported_disk : Option ImportedDisk
  pub networks : List NetworkRef
  pub disks : List DiskSpec
  pub user_data : Option CloudInit
  pub meta_data : Option CloudInit
  pub placement : Option Placement
  pub power_state : String
  pub tags : List String
  pub resources : Option Resources
  pub placement_ref : Option String

pub record MachineStatus : Type 0 where
  pub id : String
  pub power_state : String
  pub ips : List String
  pub console_url : String
  pub provider : Dict String
  pub conditions : List Condition
  pub observed_generation : ℕ
  pub last_task_ref : String
  pub reconfigure_task_ref : String
  pub last_reconfigure_time : Option ℕ
  pub current_resources : Option Resources
  pub phase : String

-- VirtualMachine
pub record Machine : Type 0 where
  pub name : String
  pub namespace : String
  pub generation : ℕ
  pub deletion_timestamp : Option ℕ
  pub finalizers : List String
  pub labels : Dict String
  pub annotations : Dict String
  pub spec : MachineSpec
  pub status : MachineStatus

pub record DiskDefaults : Type 0 where
  pub type : String
  pub size : ℕ

pub record PerformanceProfile : Type 0 where
  pub latency_sensitivity : String
  pub cpu_hot_add_enabled : Bool
  pub memory_hot_add_enabled : Bool
  pub virtualization_based_security : Bool
  pub nested_virtualization : Bool
  pub hyper_threading_policy : String

pub record EncryptionPolicy : Type 0 where
  pub enabled : Bool
  pub key_provider : String
  pub require_encryption : Bool

pub record SecurityProfile : Type 0 where
  pub secure_boot : Bool
  pub tpm_enabled : Bool
  pub tpm_version : String
  pub vtd_enabled : Bool
  pub encryption_policy : Option EncryptionPolicy

pub record ResourceLimits : Type 0 where
  pub cpu_limit : Option ℕ
  pub cpu_reservation : Option ℕ
  pub memory_limit : Option ℕ
  pub memory_reservation : Option ℕ
  pub cpu_shares : Option ℕ

-- VMClassSpec; `memory` is in bytes.
pub record MachineClass : Type 0 where
  pub cpu : ℕ
  pub memory : ℕ
  pub firmware : String
  pub disk_defaults : Option DiskDefaults
  pub guest_tools_policy : String
  pub extra_config : Dict String
  pub resource_limits : Option ResourceLimits
  pub performance_profile : Option PerformanceProfile
  pub security_profile : Option SecurityProfile

-- VSphereImageSource; of the content library only whether there is one
pub record VsphereSource : Type 0 where
  pub template_name : String
  pub content_library : Bool
  pub ova_url : String
  pub checksum : String
  pub checksum_type : String

pub record LibvirtSource : Type 0 where
  pub path : String
  pub url : String
  pub format : String
  pub checksum : String
  pub checksum_type : String

pub record ProxmoxSource : Type 0 where
  pub template_id : Option ℕ
  pub template_name : String

-- ProviderImageStatus
pub record Prepared : Type 0 where
  pub available : Bool
  pub id : String
  pub path : String
  pub last_updated : Option ℕ
  pub message : String

pub record ImageStatus : Type 0 where
  pub ready : Bool
  pub phase : String
  pub message : String
  pub available_on : List String
  pub provider_status : Dict Prepared
  pub prepare_task_ref : String
  pub last_prepare_time : Option ℕ
  pub conditions : List Condition

-- VMImage; `on_missing` is Spec.Prepare.OnMissing, `none` when Prepare is nil.
pub record Image : Type 0 where
  pub name : String
  pub namespace : String
  pub generation : ℕ
  pub vsphere : Option VsphereSource
  pub libvirt : Option LibvirtSource
  pub proxmox : Option ProxmoxSource
  pub on_missing : Option String
  pub status : ImageStatus

pub record VsphereNetwork : Type 0 where
  pub portgroup : String
  pub vlan_id : Option ℕ
  pub pci_slot_number : Option ℕ

pub record LibvirtNetwork : Type 0 where
  pub network_name : String
  pub bridge : Option String
  pub model : String

pub record ProxmoxNetwork : Type 0 where
  pub bridge : String
  pub model : String
  pub vlan_tag : Option ℕ

-- VMNetworkAttachment; `vlan_id` is VLAN.VlanID, `none` also when VLAN is nil.
pub record NetworkConfig : Type 0 where
  pub vsphere : Option VsphereNetwork
  pub libvirt : Option LibvirtNetwork
  pub proxmox : Option ProxmoxNetwork
