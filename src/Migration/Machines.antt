-- ===== src/Migration/Machines.antt =====
-- The parts of a VirtualMachine that vmmigration_controller.go reads or writes, the calls by which it
-- changes something outside its own status, and the answers of the API server to a Get and a Delete.
use virtrigaud.Prelude.{
  ◌≡◌, refl, ◌⊎◌, inl, inr, String, List, Option, ◌∷◌, [], str_eq, sprintf, if◌then◌else◌,
}
use virtrigaud.Prelude.Dict.{Dict}
use virtrigaud.K8s.Conditions.{Condition}
use virtrigaud.Migration.Types.{Migration, ObjectRef, Outcome}

-- ImportedDiskRef
pub record ImportedDisk : Type 0 where
  pub disk_id : String
  pub path : String
  pub format : String
  pub source : String
  pub migration_ref : String

-- `id` and `conditions` are of the status; `power_state` is the desired one, of the spec.
pub record VirtualMachine : Type 0 where
  pub name : String
  pub namespace : String
  pub labels : Dict String
  pub annotations : Dict String
  pub provider_ref : ObjectRef
  pub class_ref : Option ObjectRef
  pub networks : List String
  pub placement_ref : Option String
  pub imported_disk : Option ImportedDisk
  pub power_state : String
  pub id : String
  pub conditions : List Condition

-- The calls that a handler makes, whatever they answer: the patch of the source VM's desired power
-- state, the provider's power-off, snapshot creation and deletion, the VMs that are created, updated
-- and deleted, the deletion of the staged export and of the PVC, and the update of the finalizers.
pub data Effect : Type 0 where
  patch_power_off : String → Effect
  power_off : String → Effect
  snapshot_create : String → String → Effect
  snapshot_delete : String → String → Effect
  vm_create : VirtualMachine → Effect
  vm_update : VirtualMachine → Effect
  vm_delete : String → String → Effect
  storage_delete : String → Effect
  pvc_delete : String → Effect
  finalizers_update : List String → Effect

-- What a handler returns: its outcome, the migration as it is in memory, and the calls made so far,
-- the last one first.
abbrev pub Effected : Type 0
Effected = Outcome × Migration × List Effect

-- The answer to a Get, where the code tells a missing object from other errors
pub data Fetched (A : Type 0) : Type 0 where
  found : A → Fetched A
  missing : Fetched A
  fetch_failed : String → Fetched A

pub Fetched-cases :
    {A : Type 0} (f : Fetched A)
    → ((a : A) × (f ≡ found a)) ⊎ ((f ≡ missing) ⊎ ((err : String) × (f ≡ fetch_failed err)))
Fetched-cases (found a) = inl (a, refl)
Fetched-cases missing = inr (inl refl)
Fetched-cases (fetch_failed err) = inr (inr (err, refl))

-- The answer to a Delete, where the code ignores that the object is missing
pub data Removal : Type 0 where
  removed already_gone : Removal
  removal_failed : String → Removal

-- The name and the namespace of the target VM, with their defaults
unfoldable pub target_vm_name : Migration → String
target_vm_name m =
    if str_eq m.spec.target.name ""
    then sprintf (m.spec.source.vm_ref ∷ "-migrated" ∷ [])
    else m.spec.target.name

unfoldable pub target_vm_namespace : Migration → String
target_vm_namespace m =
    if str_eq m.spec.target.namespace "" then m.namespace else m.spec.target.namespace

-- The key that getProvider looks a provider up with
abbrev pub provider_key : String → ObjectRef → ObjectRef
provider_key default_namespace ref = record ref {
  namespace = if str_eq ref.namespace "" then default_namespace else ref.namespace;
}
