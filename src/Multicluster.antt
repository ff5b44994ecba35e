-- ===== src/Multicluster.antt =====
-- multicluster/: the runtime manager that is led by the raft lock.
pub mod Config
pub mod Node
pub mod Routine
pub mod Manager
pub mod Restart
pub mod Clusters
pub mod Kubeconfigs
pub mod Program
pub mod Logger
mod Examples
mod RestartExamples
mod KubeconfigExamples
mod ProgramExamples
