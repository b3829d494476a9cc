-- ===== src/Ytlive.antt =====
-- The YouTube receiver, internal/ytlive.
pub mod Emotes
pub mod Balanced
pub mod Continuation
pub mod Poll
pub mod Run
pub mod Resolver
pub mod Page
pub mod Messages
mod Tests
