-- ===== src/Sink.antt =====
-- The message sinks, internal/sink.
pub mod Buffered
pub mod Query
pub mod Retry
pub mod Store
pub mod Legacy
mod Tests
