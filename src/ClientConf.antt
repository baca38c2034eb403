-- ===== src/ClientConf.antt =====
-- internal/clientconf: the client's configuration, and the actions that it allows.
pub mod Config
pub mod Runner
