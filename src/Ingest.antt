-- ===== src/Ingest.antt =====
-- The agent-facing HTTP surface, ingest/.
pub mod Paths
pub mod Sink
pub mod Validate
pub mod Handler
pub mod LogSink
pub mod Slots
pub mod Tests
