-- ===== src/Hub.antt =====
-- internal/hub/hub.go: the object cache and the request multiplexer in front of the origin.
pub mod Lru
pub mod Load
pub mod Invalidate
pub mod Metrics
