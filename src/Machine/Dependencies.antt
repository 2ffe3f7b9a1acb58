-- ===== src/Machine/Dependencies.antt =====
-- internal/controller/virtualmachine_controller.go: getDependencies, and what reconcileVM makes of its
-- errors.

use virtrigaud.Prelude.{
  ◌≡◌, refl, Bool, true, false, ◌||◌, String, List, [], ◌∷◌, Option, none, some, sprintf,
  if◌then◌else◌, ◌⊎◌, inl, inr,
}
use virtrigaud.Prelude.Part.{has_part}
use virtrigaud.K8s.Conditions.{condition_false}
use virtrigaud.Migration.Types.{ObjectRef}
use virtrigaud.Migration.Machines.{Fetched, found, missing, fetch_failed, provider_key}
use virtrigaud.Machine.Types.{Machine, MachineClass, Image, NetworkRef, NetworkConfig}
use virtrigaud.Machine.Env.{MachineEnv, Host, Handled, with_condition, write_and_requeue}

pub record Dependencies : Type 0 where
  pub provider : Host
  pub class : MachineClass
  pub image : Option Image
  pub networks : List (Option NetworkConfig)

-- An error: whether errors.IsNotFound finds a missing object in it, and its text
pub record DependencyError : Type 0 where
  pub is_missing : Bool
  pub text : String

pub data Resolved (A : Type 0) : Type 0 where
  resolved : A → Resolved A
  unresolved : DependencyError → Resolved A

pub Resolved-cases :
    {A : Type 0} (r : Resolved A)
    → ((e : DependencyError) × (r ≡ unresolved e)) ⊎ ((a : A) × (r ≡ resolved a))
Resolved-cases (resolved a) = inr (a, refl)
Resolved-cases (unresolved e) = inl (e, refl)

abbrev lost : {A : Type 0} → Bool → List String → Resolved A
lost is_missing pieces = unresolved (record { is_missing = is_missing; text = sprintf pieces })

-- The answer of a Get of a class, an image or a network, whose error is wrapped
abbrev wrapped : {A : Type 0} → String → ObjectRef → Fetched A → Resolved A
wrapped kind key (found a) = resolved a
wrapped kind key missing =
    lost true ("failed to get " ∷ kind ∷ " " ∷ key.name ∷ ": " ∷ key.name ∷ " not found" ∷ [])
wrapped kind key (fetch_failed err) =
    lost false ("failed to get " ∷ kind ∷ " " ∷ key.name ∷ ": " ∷ err ∷ [])

provider_dependency : ObjectRef → Fetched Host → Resolved Host
provider_dependency key (found a) = resolved a
provider_dependency key missing = lost true (
    "provider " ∷ key.name ∷ " not found (namespace: " ∷ key.namespace ∷ "): " ∷ key.name
    ∷ " not found" ∷ [])
provider_dependency key (fetch_failed err) =
    lost false ("failed to get provider " ∷ key.name ∷ ": " ∷ err ∷ [])

infixl 5 ◌>>=◌
abbrev pub ◌>>=◌ : {A B : Type 0} → Resolved A → (A → Resolved B) → Resolved B
resolved a >>= f = f a
unresolved e >>= f = unresolved e

image_dependency : MachineEnv → Machine → Resolved (Option Image)
image_dependency x vm = elim vm.spec.image_ref [
  | none ↦ resolved none
  | some ref ↦
      let key = provider_key vm.namespace ref in
      do i ← wrapped "vmimage" key (x.get_image key); resolved (some i)
]

-- The attachment of one reference; its namespace is always that of the VM.
unfoldable pub network_dependency :
    MachineEnv → String → Option ObjectRef → Resolved (Option NetworkConfig)
network_dependency x namespace none = resolved none
network_dependency x namespace (some ref) =
    let key : ObjectRef = record { name = ref.name; namespace = namespace } in
    do n ← wrapped "vmnetworkattachment" key (x.get_network key); resolved (some n)

unfoldable pub networks_of :
    MachineEnv → String → List NetworkRef → Resolved (List (Option NetworkConfig))
unfolding network_dependency
networks_of x namespace [] = resolved []
networks_of x namespace (r ∷ rs) = do
  n ← network_dependency x namespace r.network_ref
  ns ← networks_of x namespace rs
  resolved (n ∷ ns)

-- getDependencies
unfoldable pub get_dependencies : MachineEnv → Machine → Resolved Dependencies
unfolding provider_dependency image_dependency networks_of
get_dependencies x vm =
    let key = provider_key vm.namespace vm.spec.provider_ref in
    let class_key = provider_key vm.namespace vm.spec.class_ref in
    do
      p ← provider_dependency key (x.get_provider key)
      c ← wrapped "vmclass" class_key (x.get_class class_key)
      i ← image_dependency x vm
      ns ← networks_of x vm.namespace vm.spec.networks
      resolved (record { provider = p; class = c; image = i; networks = ns })

-- What reconcileVM does about an error: it waits longer for a Provider that it takes to be missing.
unfoldable pub dependencies_failed : MachineEnv → Machine → DependencyError → Handled
dependencies_failed x vm e =
    if e.is_missing || has_part e.text "not found"
    then write_and_requeue 30
        (with_condition x "Ready" condition_false "WaitingForDependencies"
          (sprintf ("Provider " ∷ vm.spec.provider_ref.name ∷ " not found" ∷ [])) vm)
        []
    else write_and_requeue 5
        (with_condition x "Ready" condition_false "WaitingForDependencies" e.text vm) []
