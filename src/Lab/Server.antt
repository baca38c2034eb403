-- ===== src/Lab/Server.antt =====
-- internal/lab/server.go: the origin server with its injected faults. A path is the text of its bytes.
-- A handler runs as one step on the counters, which do not reach 2 ^ 63. The clock, the client's
-- connection, the files and JSON are the record `Env`.
pub mod State
pub mod Routes
pub mod Transfer
pub mod Handler
pub mod Paths
pub mod Bodies
pub mod Counters
