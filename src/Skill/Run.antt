-- ===== src/Skill/Run.antt =====
-- internal/skill/run/core.go: the budget of a run, its fixture, and whether its tool calls replay.
pub mod Budget
mod Spent
pub mod Hashes
pub mod Fixture
mod Samples
