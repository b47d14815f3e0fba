-- ===== src/SessionStore.antt =====
-- core/session-store.ts: the durable store of thread and session records.
pub mod Record
pub mod File
pub mod State
pub mod Ops
pub mod Fallback
pub mod RoundTrip
pub mod Invariant
pub mod Commands
pub mod Drafts
pub mod Preserved
pub mod Opened
pub mod Restart
pub mod Durable
pub mod Reads
pub mod Generations
pub mod Quota
pub mod Fences
mod Tests
