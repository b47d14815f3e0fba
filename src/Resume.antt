-- ===== src/Resume.antt =====
-- core/reconciliation-engine.ts: the resumption of one record. A call is cut at its awaits; what an
-- await answers, and what others did to the host meanwhile, are given.
pub mod Host
pub mod Attempt
pub mod Record
pub mod Fences
pub mod Custody
pub mod Answered
mod Tests
