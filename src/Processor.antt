-- ===== src/Processor.antt =====
-- The sinks that change a payload and pass it on, internal/processor.
pub mod Action
pub mod Environment
pub mod Namespace
pub mod Redaction
pub mod Tests
