-- ===== src/Adapter.antt =====
-- execution/adapter/eks_adapter.go: from runs to Kubernetes jobs and back.
pub mod Kubernetes
pub mod Resources
pub mod Requirements
pub mod Jobs
pub mod Environ
pub mod Affinity
pub mod JobSpec
