-- ===== src/EventLog.antt =====
-- The event log: pkg/eventlog (the event and the interface) and internal/eventlog (the in-memory
-- log, the keys of the Pebble log and the Pebble log).
pub mod Event
pub mod Contract
pub mod Memory
pub mod Keys
pub mod Store
pub mod Storage
pub mod Pebble
