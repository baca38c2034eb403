-- ===== src/Admin.antt =====
-- internal/admin: the event log, and the rendering of results.
pub mod EventLog
pub mod Csv
pub mod Server
