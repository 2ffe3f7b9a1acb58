-- ===== src/Machine/Reconcile/Laws.antt =====
-- internal/controller/virtualmachine_controller.go: what getDependencies resolves, and what reconcileVM says
-- of a class that is missing.
use virtrigaud.Prelude.{
  ◌≡◌, ap, sym, String, List, [], ◌∷◌, Option, none, some, map, sprintf, arith, inl, inr,
}
use virtrigaud.K8s.Conditions.{condition_false}
use virtrigaud.Migration.Machines.{found, missing, fetch_failed, provider_key}
use virtrigaud.Machine.Types.{Machine, NetworkRef, NetworkConfig}
use virtrigaud.Machine.Reconcile.{reconcile_vm, observe_generation}
use virtrigaud.Machine.Env.{MachineEnv, Host, with_condition, write_and_requeue}
use virtrigaud.Machine.Request.Network.{attachments, attachment_of}
use virtrigaud.Machine.Request.Contract.{Attachment}
use virtrigaud.Machine.Dependencies.{
  Resolved-cases, resolved, get_dependencies, networks_of, dependencies_failed, network_dependency,
}

-- The attachment that the API server has for one reference, if it has one
unfoldable pub own_config : MachineEnv → String → NetworkRef → Option NetworkConfig
own_config x namespace r = elim r.network_ref [
  | none ↦ none
  | some ref ↦ elim (x.get_network (record { name = ref.name; namespace = namespace })) [
    | found n ↦ some n
    | missing ↦ none
    | fetch_failed err ↦ none
  ]
]

unfoldable pub own_attachment : MachineEnv → String → NetworkRef → Attachment
own_attachment x namespace r = attachment_of r (own_config x namespace r)

network_dependency-own :
    (x : MachineEnv) (namespace : String) (r : NetworkRef) (c : Option NetworkConfig)
    → network_dependency x namespace r.network_ref ≡ resolved c
    → own_config x namespace r ≡ c
unfolding network_dependency own_config
network_dependency-own x namespace r c e = ground arith

-- Each attachment of a request is made from its own reference and from what the API server has for it,
-- whatever references stand before it with or without an attachment: the lists stay aligned.
pub attachments-own :
    (x : MachineEnv) (namespace : String) (rs : List NetworkRef) (cs : List (Option NetworkConfig))
    → networks_of x namespace rs ≡ resolved cs
    → attachments rs cs ≡ map (own_attachment x namespace) rs
unfolding networks_of attachments own_attachment
attachments-own x namespace [] cs e = ground arith
attachments-own x namespace (r ∷ rs) cs e =
    elim (Resolved-cases (network_dependency x namespace r.network_ref)) [
      | inl (err, failure) ↦ ground arith
      | inr (c, own) ↦ elim (Resolved-cases (networks_of x namespace rs)) [
        | inl (err, failure) ↦ ground arith
        | inr (cs', rest) ↦
            let shape : resolved (c ∷ cs') ≡ resolved cs = ground arith in
            let same : c ∷ cs' ≡ cs = cc in
            rw (sym same, network_dependency-own x namespace r c own)
              (ap (λ as'. attachment_of r c ∷ as') (attachments-own x namespace rs cs' rest))
      ]
    ]

-- When the provider is found but the class is missing, the VM waits like for a missing provider, and its
-- Ready condition says that the provider is not found.
pub missing_class_blames_provider :
    (x : MachineEnv) (vm : Machine) (p : Host)
    → x.get_provider (provider_key vm.namespace vm.spec.provider_ref) ≡ found p
    → x.get_class (provider_key vm.namespace vm.spec.class_ref) ≡ missing
    → let vm' = observe_generation vm in
      reconcile_vm x vm
      ≡ write_and_requeue 30
          (with_condition x "Ready" condition_false "WaitingForDependencies"
            (sprintf ("Provider " ∷ vm.spec.provider_ref.name ∷ " not found" ∷ []))
            vm')
          []
unfolding reconcile_vm get_dependencies dependencies_failed
missing_class_blames_provider x vm p provider_found class_missing =
    rw (reconcile_vm, get_dependencies, provider_found, class_missing)
