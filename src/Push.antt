-- ===== src/Push.antt =====
-- internal/push: announcements of new releases.
pub mod Broker
pub mod Trigger
pub mod Client
