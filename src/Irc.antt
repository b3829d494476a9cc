-- ===== src/Irc.antt =====
-- The Twitch receiver, internal/twitchirc.
pub mod Tags
pub mod Badges
pub mod Line
pub mod Drops
pub mod Session
pub mod Retry
mod Tests
