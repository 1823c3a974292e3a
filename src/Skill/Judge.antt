-- ===== src/Skill/Judge.antt =====
-- internal/skill/judge/judge.go: the score of a run by a rubric.
-- Floats are the parameter `Floats`. YAML, behind normalizeYAML, and SHA-256 over JSON are parameters.
pub mod Rubric
pub mod Metrics
pub mod Evaluate
mod Samples
