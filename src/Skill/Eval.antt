-- ===== src/Skill/Eval.antt =====
-- internal/skill/eval/eval.go: the evaluation of a skill at two refs, and their comparison.
pub mod Results
pub mod Compare
mod Samples
