-- ===== src/ClientConf/Runner.antt =====
-- internal/clientconf/runner.go: what is done with a release after `Sync`. The docker command may answer
-- anything, by the commands before; YAML, regexp, JSON and `strings.TrimSpace` are arguments. The clock
-- gives each audit file a name of its own.
pub mod Base
pub mod Restart
pub mod Actions
pub mod Gate
