-- ===== src/Routing.antt =====
-- The routing table: pkg/routingtable (subscribers) and internal/routingtable (patterns, the table).
pub mod Pattern
pub mod Table
