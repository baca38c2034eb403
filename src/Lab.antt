-- ===== src/Lab.antt =====
-- internal/lab: the signed release format, the chunker, the publisher and the receiving agent.
pub mod Manifest
pub mod Verify
pub mod Chunker
pub mod Object
pub mod Storage
pub mod Agent
pub mod Publish
pub mod Server
pub mod Loaded
pub mod Receipts
