-- ===== src/Peer.antt =====
-- The peer link: internal/peerlink (configuration, messages, metrics, queues, connections).
pub mod Config
pub mod Messages
pub mod Metrics
pub mod Lifecycle
pub mod Retry
pub mod Channel
pub mod Link
