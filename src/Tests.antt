-- ===== src/Tests.antt =====
-- Concrete runs of the theorems, on small instances of the parameters.
pub mod Coding
pub mod Samples
pub mod Hub
pub mod Lab
pub mod Agent
pub mod Registry
pub mod Push
pub mod Notify
pub mod Server
pub mod Client
pub mod Sync
pub mod Loaded
pub mod Runner
pub mod Events
pub mod Receipts
pub mod Receiver
pub mod Socket
