-- ===== src/TurnRender.antt =====
-- core/turn-render.ts: the timeline of a turn, made of the events of a session.
pub mod Items
pub mod Ops
pub mod Status
pub mod Answers
pub mod Kinds
pub mod Keeps
pub mod Quiet
pub mod Stream
pub mod Carry
mod Tests
