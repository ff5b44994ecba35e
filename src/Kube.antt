-- ===== src/Kube.antt =====
-- The Kubernetes lock of kube/: its configuration and start, the lock over several leases, and the
-- callbacks of the leader elector.
pub mod ResourceLock
pub mod Multi
pub mod Config
pub mod Elector
mod Examples
pub mod ConfigExamples
