-- ===== src/Engine.antt =====
-- The package execution/engine: how runs are launched on a cluster and how their jobs are read.
pub mod Eks
