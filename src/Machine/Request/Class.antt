-- ===== src/Machine/Request/Class.antt =====
-- internal/controller/virtualmachine_controller.go, buildCreateRequest: the conversion of a VMClass.
use virtrigaud.Prelude.{ℕ, ◌*◌, ◌/◌, ◌%◌, ◌^◌, ◌≤◌, false, none, some, ltb, if◌then◌else◌, arith}
use mathlib.Core.Option
use virtrigaud.Machine.Types.{MachineClass, DiskDefaults, SecurityProfile, ResourceLimits}
use virtrigaud.Machine.Request.Contract.{ClassRequest, ClassDisk, ClassSecurity, ClassLimits}

abbrev pub mebibyte : ℕ
mebibyte = 1024 * 1024

abbrev pub max_int32 : ℕ
max_int32 = 2147483647

-- int32(v): the bit pattern that is left of an int64.
abbrev pub int32 : ℕ → ℕ
int32 v = v % 2 ^ 32

-- Bytes to MiB, clamped to the largest int32.
unfoldable pub clamped_mib : ℕ → ℕ
clamped_mib bytes = int32 (if ltb max_int32 (bytes / mebibyte) then max_int32 else bytes / mebibyte)

disk_defaults_of : DiskDefaults → ClassDisk
disk_defaults_of d = record { type = d.type; size_gib = int32 (d.size / (1024 * 1024 * 1024)) }

security_of : SecurityProfile → ClassSecurity
security_of s = record {
  secure_boot = s.secure_boot;
  tpm_enabled = s.tpm_enabled;
  tpm_version = s.tpm_version;
  vtd_enabled = s.vtd_enabled;
  encryption_enabled = elim s.encryption_policy [ none ↦ false | some p ↦ p.enabled ];
  key_provider = elim s.encryption_policy [ none ↦ "" | some p ↦ p.key_provider ];
  require_encryption = elim s.encryption_policy [ none ↦ false | some p ↦ p.require_encryption ];
}

unfoldable pub limits_of : ResourceLimits → ClassLimits
unfolding clamped_mib
limits_of l = record {
  cpu_limit = l.cpu_limit;
  cpu_reservation = l.cpu_reservation;
  memory_limit_mib = Option.map clamped_mib l.memory_limit;
  memory_reservation_mib = Option.map clamped_mib l.memory_reservation;
  cpu_shares = l.cpu_shares;
}

unfoldable pub class_of : MachineClass → ClassRequest
unfolding disk_defaults_of security_of limits_of
class_of c = record {
  cpu = c.cpu;
  memory_mib = int32 (c.memory / mebibyte);
  firmware = c.firmware;
  disk_defaults = Option.map disk_defaults_of c.disk_defaults;
  guest_tools_policy = c.guest_tools_policy;
  extra_config = c.extra_config;
  performance_profile = c.performance_profile;
  security_profile = Option.map security_of c.security_profile;
  resource_limits = Option.map limits_of c.resource_limits;
}

-- A memory limit arrives as the least of its size in MiB and the largest int32: it never wraps to a
-- negative number.
pub clamped_mib_bounds : (bytes : ℕ) → clamped_mib bytes ≤ max_int32
unfolding clamped_mib
clamped_mib_bounds bytes = ground arith
