-- ===== src/Bootstrap.antt =====
-- multicluster/bootstrap: certificates, kubeconfigs and secrets for a set of clusters, and the
-- command-line flags that describe them.
pub mod X509
pub mod Certificates
pub mod Kubernetes
pub mod Secrets
pub mod Flags
pub mod Clusters
mod Examples
mod ClusterExamples
mod SuccessExamples
mod FlagExamples
