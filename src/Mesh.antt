-- ===== src/Mesh.antt =====
-- internal/meshnode: the node that clients publish and subscribe at.
pub mod Interest
pub mod Publish
pub mod Subscriptions
pub mod Subscribe
pub mod Lifecycle
