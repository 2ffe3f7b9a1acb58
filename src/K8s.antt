-- ===== src/K8s.antt =====
-- internal/k8s and internal/util/k8s: helpers on Kubernetes objects.
pub mod Conditions
