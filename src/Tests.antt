-- ===== src/Tests.antt =====
-- Runs of the modelled code on concrete clusters, and the theorems at such inputs.
mod Samples
mod Naming
mod Failover
mod Rollout
mod Cluster
mod Rotation
mod Handover
mod Sentinel
mod Labels
mod Acl
mod Scaling
mod Reconcile
mod TlsReload
mod Shards
