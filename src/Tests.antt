-- ===== src/Tests.antt =====
-- Samples: the code's definitions on concrete inputs.
mod EventLog
mod Pebble
mod Http
mod Streams
mod Access
mod Client
mod Lifecycle
mod Routing
mod Peer
mod Mesh
mod Subscribe
