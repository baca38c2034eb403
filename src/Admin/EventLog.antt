-- ===== src/Admin/EventLog.antt =====
-- `EventLog` of internal/admin/admin.go: the file of events at `path` and the generation before it at
-- `path.1`, with the faults of the calls on them. Times and JSON are parameters.
pub mod State
pub mod Read
pub mod Write
pub mod Held
pub mod Query
pub mod Keeps
pub mod Emits
pub mod Runs
pub mod Restart
pub mod Torn
pub mod Forgets
