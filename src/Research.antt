-- ===== src/Research.antt =====
-- The research plane, internal/skill/research.
pub mod Plan
pub mod Scheduler
pub mod Replay
pub mod Map
