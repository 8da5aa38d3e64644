-- ===== src/Outbox.antt =====
-- src/sync/backends/jmap/outbox-runner.ts and what it rests on: the durable queue of local
-- mutations of one account. The children model one part each.
pub mod Vocabulary
pub mod Errors
pub mod Store
pub mod Recovery
pub mod Lanes
pub mod Runner
pub mod Await
pub mod Batch
pub mod Control
