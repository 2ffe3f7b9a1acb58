-- ===== src/Migration/Mount/Laws.antt =====
-- What it means in vmmigration_controller.go that the providers have mounted the migration's PVC.
use virtrigaud.Prelude.{◌≡◌, ◌≤◌, true, false, inl, inr, String, List, [], ◌∷◌, arith, Bool-cases}
use virtrigaud.Migration.Types.{Provider, Answer-cases, returned}
use virtrigaud.Migration.Machines.{Fetched-cases, found}
use virtrigaud.Migration.Mount.{
  Cluster, Deployment, Pod, volumes_contain_pvc, serves, any_serves, deployment_name, replicas_of,
  pods_ready, provider_mount_ready, migration_providers_mounted,
}

-- One of the pods
pub data IsPod (pod : Pod) : List Pod → Type 0 where
  first : {pods : List Pod} → IsPod pod (pod ∷ pods)
  later : {other : Pod} {pods : List Pod} → IsPod pod pods → IsPod pod (other ∷ pods)

-- The provider's Deployment carries the PVC and is rolled out, and some pod of the provider serves it.
pub record IsRolledOut (c : Cluster) (p : Provider) (pvc : String) : Type 0 where
  pub deployment : Deployment
  pub pods : List Pod
  pub pod : Pod
  pub is_deployed : c.get_deployment p.namespace (deployment_name p) ≡ found deployment
  pub carries : volumes_contain_pvc deployment.volumes pvc ≡ true
  pub updated : replicas_of deployment ≤ deployment.updated_replicas
  pub is_ready : replicas_of deployment ≤ deployment.ready_replicas
  pub are_listed : c.list_pods p ≡ returned pods
  pub is_listed : IsPod pod pods
  pub is_serving : serves pvc pod ≡ true

serving_pod :
    (pvc : String) (pods : List Pod)
    → any_serves pvc pods ≡ true
    → (pod : Pod) × IsPod pod pods × (serves pvc pod ≡ true)
unfolding any_serves
serving_pod pvc [] h = ground arith
serving_pod pvc (pod ∷ pods) h = elim (Bool-cases (serves pvc pod)) [
  | inl s ↦ (pod, first, s)
  | inr s ↦
      (let (other, listed, t) = serving_pod pvc pods (ground arith) in (other, later listed, t))
]

mounted-IsRolledOut :
    (c : Cluster) (p : Provider) (pvc reason : String)
    → provider_mount_ready c p pvc ≡ returned (true, reason)
    → IsRolledOut c p pvc
unfolding provider_mount_ready pods_ready
mounted-IsRolledOut c p pvc reason h =
    elim (Fetched-cases (c.get_deployment p.namespace (deployment_name p))) [
      | inr (inl e) ↦ ground arith
      | inr (inr (err, e)) ↦ ground arith
      | inl (d, e) ↦ (elim (Answer-cases (c.list_pods p)) [
        | inl (err, f) ↦ ground arith
        | inr (pods, f) ↦
            let (pod, listed, serving) = serving_pod pvc pods (ground arith) in
            record {
              deployment = d;
              pods = pods;
              pod = pod;
              is_deployed = e;
              carries = ground arith;
              updated = ground arith;
              is_ready = ground arith;
              are_listed = f;
              is_listed = listed;
              is_serving = serving;
            }
      ])
    ]

-- When the controller finds the PVC mounted, each of the two providers has a Deployment that carries
-- it and is rolled out to all its replicas, and a pod that carries it, is running and ready and is not
-- terminating.
pub both-IsRolledOut :
    (c : Cluster) (source target : Provider) (pvc reason : String)
    → migration_providers_mounted c source target pvc ≡ returned (true, reason)
    → IsRolledOut c source pvc × IsRolledOut c target pvc
unfolding migration_providers_mounted
both-IsRolledOut c source target pvc reason h =
    elim (Answer-cases (provider_mount_ready c source pvc)) [
      | inl (err, e) ↦ ground arith
      | inr ((false, r), e) ↦ ground arith
      | inr ((true, r), e) ↦ (elim (Answer-cases (provider_mount_ready c target pvc)) [
        | inl (err, f) ↦ ground arith
        | inr ((false, s), f) ↦ ground arith
        | inr ((true, s), f) ↦
            (mounted-IsRolledOut c source pvc r e, mounted-IsRolledOut c target pvc s f)
      ])
    ]
