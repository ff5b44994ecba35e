-- ===== src/Raft.antt =====
-- The raft lock of raft/: its configuration, the loop over the raft node's `Ready` values, the ticker
-- beside it, and the transport between the nodes.
pub mod Config
pub mod Leadership
pub mod Sending
pub mod Ticker
pub mod Transport
pub mod Run
pub mod Loop
pub mod Group
pub mod Shutdown
mod Examples
pub mod LoopExamples
mod GroupExamples
mod ShutdownExamples
mod TransportExamples
