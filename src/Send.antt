-- ===== src/Send.antt =====
-- src/sync/backends/jmap: the send of a message, from its checkpoint to its filing.
-- Checkpoint is send-checkpoint.ts, Outcome is outbox/send-outcome.ts, Reconcile is
-- send-reconcile.ts, Drafts is the removal loop of outbox/draft-apply.ts, and Run is
-- outbox/operations/send.ts, written in the small language of effects of Program.
pub mod Checkpoint
pub mod Outcome
pub mod Program
pub mod Reconcile
pub mod Drafts
pub mod Run
pub mod Once
