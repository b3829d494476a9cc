-- ===== src/Harvester.antt =====
-- The wiring of the receivers: internal/harvester and the parts of cmd/harvester/main.go that keep the
-- Twitch token.
pub mod Updates
pub mod Reload
mod Tests
