-- ===== src/Migration/Mount.antt =====
-- internal/controller/vmmigration_controller.go: migrationProvidersMounted, providerMountReady,
-- volumesContainPVC and podConditionTrue. The deployments and the pods that the API server answers with
-- are arguments.
pub mod Laws
use virtrigaud.Prelude.{
  ℕ, Bool, true, false, ◌&&◌, ◌||◌, not, String, List, [], ◌∷◌, Option, none, some, str_eq, ltb,
  sprintf, decimal, if◌then◌else◌,
}
use virtrigaud.Migration.Types.{Provider, Answer, returned, refused}
use virtrigaud.Migration.Machines.{Fetched, found, missing, fetch_failed}

-- The parts of a Deployment and of a Pod that are looked at. A volume is the name of its claim, if it
-- is one of a PVC; a condition is its type and its status.
pub record Deployment : Type 0 where
  pub volumes : List (Option String)
  pub replicas : Option ℕ
  pub updated_replicas : ℕ
  pub ready_replicas : ℕ

pub record Pod : Type 0 where
  pub deletion_timestamp : Option ℕ
  pub volumes : List (Option String)
  pub phase : String
  pub conditions : List (String × String)

-- The answers to the Get of a deployment, by namespace and name, and to the List of a provider's pods
pub record Cluster : Type 0 where
  pub get_deployment : String → String → Fetched Deployment
  pub list_pods : Provider → Answer (List Pod)

is_claim : String → Option String → Bool
is_claim pvc none = false
is_claim pvc (some name) = str_eq name pvc

-- volumesContainPVC
unfoldable pub volumes_contain_pvc : List (Option String) → String → Bool
unfolding is_claim
volumes_contain_pvc [] pvc = false
volumes_contain_pvc (v ∷ vs) pvc =
    let rest = volumes_contain_pvc vs pvc in if is_claim pvc v then true else rest

-- podConditionTrue: the first condition of the type decides.
unfoldable pub pod_condition_true : List (String × String) → String → Bool
pod_condition_true [] type = false
pod_condition_true ((t, status) ∷ cs) type =
    let rest = pod_condition_true cs type in if str_eq t type then str_eq status "True" else rest

not_terminating : Option ℕ → Bool
not_terminating none = true
not_terminating (some at) = false

-- A pod that carries the PVC, runs and is ready, and is not on its way out
unfoldable pub serves : String → Pod → Bool
unfolding not_terminating
serves pvc pod =
    not_terminating pod.deletion_timestamp
    && volumes_contain_pvc pod.volumes pvc
    && str_eq pod.phase "Running"
    && pod_condition_true pod.conditions "Ready"

unfoldable pub any_serves : String → List Pod → Bool
any_serves pvc [] = false
any_serves pvc (pod ∷ pods) =
    let rest = any_serves pvc pods in if serves pvc pod then true else rest

abbrev pub deployment_name : Provider → String
deployment_name p = sprintf ("virtrigaud-provider-" ∷ p.namespace ∷ "-" ∷ p.name ∷ [])

abbrev pub replicas_of : Deployment → ℕ
replicas_of d = elim d.replicas [ none ↦ 1 | some n ↦ n ]

rollout_message : Deployment → String
rollout_message d = sprintf (
    "provider rollout in progress (updated "
    ∷ decimal d.updated_replicas
    ∷ "/"
    ∷ decimal (replicas_of d)
    ∷ ", ready "
    ∷ decimal d.ready_replicas
    ∷ "/"
    ∷ decimal (replicas_of d)
    ∷ ")"
    ∷ [])

-- The end of the check, on the pods
unfoldable pub pods_ready : Cluster → Provider → String → Answer (Bool × String)
pods_ready c p pvc = elim (c.list_pods p) [
  | refused err ↦ refused (sprintf ("list provider " ∷ p.name ∷ " pods: " ∷ err ∷ []))
  | returned pods ↦
      if any_serves pvc pods
      then returned (true, "")
      else returned (false, "no Ready pod with the migration PVC mounted yet")
]

-- providerMountReady
unfoldable pub provider_mount_ready : Cluster → Provider → String → Answer (Bool × String)
unfolding pods_ready rollout_message
provider_mount_ready c p pvc = elim (c.get_deployment p.namespace (deployment_name p)) [
  | missing ↦
      returned (false, sprintf ("provider deployment " ∷ deployment_name p ∷ " not found yet" ∷ []))
  | fetch_failed err ↦
      refused (sprintf ("get provider deployment " ∷ deployment_name p ∷ ": " ∷ err ∷ []))
  | found d ↦
      if not (volumes_contain_pvc d.volumes pvc)
      then returned (false, "deployment not yet updated with the migration PVC volume")
      else if ltb d.updated_replicas (replicas_of d) || ltb d.ready_replicas (replicas_of d)
      then returned (false, rollout_message d)
      else pods_ready c p pvc
]

-- migrationProvidersMounted
unfoldable pub migration_providers_mounted :
    Cluster → Provider → Provider → String → Answer (Bool × String)
unfolding provider_mount_ready
migration_providers_mounted c source target pvc = elim (provider_mount_ready c source pvc) [
  | refused err ↦ refused (sprintf ("source provider " ∷ source.name ∷ ": " ∷ err ∷ []))
  | returned (false, reason) ↦ returned (false, sprintf ("source: " ∷ reason ∷ []))
  | returned (true, reason) ↦ (elim (provider_mount_ready c target pvc) [
    | refused err ↦ refused (sprintf ("target provider " ∷ target.name ∷ ": " ∷ err ∷ []))
    | returned (false, reason') ↦ returned (false, sprintf ("target: " ∷ reason' ∷ []))
    | returned (true, reason') ↦ returned (true, "")
  ])
]
