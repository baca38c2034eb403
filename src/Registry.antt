-- ===== src/Registry.antt =====
-- internal/registry: the watcher that publishes what appears in a registry.
pub mod Watcher
pub mod Publish
pub mod Client
