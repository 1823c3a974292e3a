-- ===== src/Skill.antt =====
-- internal/skill: what happens to a skill between an evaluation and its promotion.
pub mod Ab
pub mod Eval
pub mod Gates
pub mod Judge
pub mod Promote
pub mod Run
mod Samples
