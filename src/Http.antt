-- ===== src/Http.antt =====
-- The HTTP interface, internal/httpapi.
pub mod Filters
pub mod Hub
pub mod Limits
pub mod Origins
mod Tests
