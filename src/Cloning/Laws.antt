-- ===== src/Cloning/Laws.antt =====
-- internal/controller/vmclone_controller.go: how a clone and its target VM end, also in the hands of the
-- VirtualMachine controller.
use virtrigaud.Prelude.{
  ◌≡◌, ◌≢◌, ap, sym, ◌∙◌, true, String, List, [], ◌∷◌, some, str_eq, if◌then◌else◌, arith, eq_iff,
}
use virtrigaud.Prelude.Dict.{lookup, lookup-insert}
use virtrigaud.Migration.Types.{ObjectRef}
use virtrigaud.Migration.Machines.{provider_key}
use virtrigaud.Migration.Creating.{merge}
use virtrigaud.Machine.Types.{Machine}
use virtrigaud.Machine.Env.{MachineEnv}
use virtrigaud.Machine.Reconcile.{is_adopted, reconcile_machine}
use virtrigaud.Machine.Once.{accepted}
use virtrigaud.Machine.Once.Adopted.{adopted_waits}
use virtrigaud.Cloning.Types.{
  VmClone, CloneCall, issue_clone, write_clone, create_target_vm, seed_id, write_clone_finalizers,
}
use virtrigaud.Cloning.Target.{adopted_label, build_target_vm}

build_target_vm-adopted :
    (c : VmClone) (source : Machine) (namespace : String)
    → lookup adopted_label (build_target_vm c source namespace).labels ≡ some "true"
unfolding build_target_vm
build_target_vm-adopted c source namespace = ground (
  arith,
  lookup-insert adopted_label adopted_label "true" (merge c.spec.target.labels []),
  eq_iff adopted_label adopted_label,
)

-- A VM that still has the labels that a clone has given it, whatever labels the clone asks for, and no ID
-- yet is never created by the VirtualMachine controller, whatever else became of it and whatever the API
-- server and the provider answer.
pub cloned_target_waits :
    (x : MachineEnv) (c : VmClone) (source : Machine) (namespace : String) (vm : Machine)
    → vm.labels ≡ (build_target_vm c source namespace).labels
    → str_eq vm.status.id "" ≡ true
    → accepted x (reconcile_machine x vm).2 ≡ 0
unfolding is_adopted
cloned_target_waits x c source namespace vm labelled unnamed =
    let marked : lookup adopted_label vm.labels ≡ some "true" =
      ap (lookup adopted_label) labelled ∙ build_target_vm-adopted c source namespace in
    adopted_waits x vm (ground arith) unnamed

-- The IDs that are written to VMs, the last one first
unfoldable pub seeded : List CloneCall → List (Machine × String)
seeded [] = []
seeded (seed_id vm id ∷ calls) = (vm, id) ∷ seeded calls
seeded (issue_clone _ ∷ calls) = seeded calls
seeded (write_clone _ ∷ calls) = seeded calls
seeded (create_target_vm _ ∷ calls) = seeded calls
seeded (write_clone_finalizers _ ∷ calls) = seeded calls

key_elsewhere :
    (ref : ObjectRef) (n m : String)
    → ref.namespace ≡ ""
    → n ≢ m
    → provider_key n ref ≢ provider_key m ref
key_elsewhere ref n m unqualified apart same =
    let at_n : (provider_key n ref).namespace ≡ n =
      ap (λ s. if str_eq s "" then n else s) unqualified in
    let at_m : (provider_key m ref).namespace ≡ m =
      ap (λ s. if str_eq s "" then m else s) unqualified in
    apart (sym at_n ∙ ap (λ k. k.namespace) same ∙ at_m)

-- A source VM that names its provider without a namespace, cloned to another namespace: the target VM looks
-- its provider up under another key than the source does.
pub target_provider_elsewhere :
    (c : VmClone) (source : Machine) (namespace : String)
    → source.spec.provider_ref.namespace ≡ ""
    → namespace ≢ source.namespace
    → let target = build_target_vm c source namespace in
      provider_key target.namespace target.spec.provider_ref
      ≢ provider_key source.namespace source.spec.provider_ref
unfolding build_target_vm
target_provider_elsewhere c source namespace unqualified elsewhere =
    key_elsewhere source.spec.provider_ref namespace source.namespace unqualified elsewhere
