-- ===== src/Database/Rows.antt =====
-- internal/store/store.go, `ensureSchema`: the tables, their keys and the references between them.
-- A database is the list of all its rows, in the order in which they were inserted, each under the
-- name of its table. IDs that SQLite counts are kept only for `evidence`, whose IDs are referred to.
use virmux.Prelude.{ℤ, String, Bool, true, false, Option, none, some, List, [], ◌∷◌}
use virmux.Database.Structs.{
  Run, ToolCall, Score, JudgeRun, EvalCase, Experiment, Comparison, Promotion, RefineRun,
  SuggestRun, CanaryRun, Evidence, RowEvidence,
}

-- What `FinishRun` writes; `status` is "running" and the rest is as by default before.
pub record Ending (Real : Type 0) : Type 0 where
  pub status : String
  pub ended_at : Option String
  pub boot_ms : ℤ
  pub resume_ms : ℤ
  pub trace_path : String
  pub snapshot_id : String
  pub cost_est : Real

-- The columns of `eval_runs`: those of `EvalRun` without `ScoreP90Base`, `ScoreP90Head` and
-- `ScoreP90Delta`.
pub record EvalRunRow (Real : Type 0) : Type 0 where
  pub id : String
  pub skill : String
  pub cohort : String
  pub base_ref : String
  pub head_ref : String
  pub provider : String
  pub fixtures_hash : String
  pub cfg_sha256 : String
  pub cfg_path : String
  pub results_sha256 : String
  pub results_path : String
  pub verdict_sha256 : String
  pub verdict_path : String
  pub score_p50_base : Real
  pub score_p50_head : Real
  pub fail_rate_base : Real
  pub fail_rate_head : Real
  pub cost_total_base : Real
  pub cost_total_head : Real
  pub score_p50_delta : Real
  pub fail_rate_delta : Real
  pub cost_delta : Real
  pub pass : Bool
  pub verdict_json : String
  pub created_at : String

pub data Row (Real : Type 0) : Type 0 where
  run_row : Run Real String → Ending Real → Row Real
  event_row : String → String → String → String → Row Real
  slack_event_row : String → String → String → Row Real
  artifact_row : String → String → String → ℤ → Row Real
  tool_call_row : ToolCall → Row Real
  score_row : Score Real String → Row Real
  judge_run_row : JudgeRun Real String → Row Real
  eval_run_row : EvalRunRow Real → Row Real
  eval_case_row : EvalCase Real String → Row Real
  promotion_row : Promotion (Option String) String → Row Real
  refine_run_row : RefineRun String → Row Real
  suggest_run_row : SuggestRun (Option String) String → Row Real
  experiment_row : Experiment (Option String) String → Row Real
  comparison_row : Comparison String → Row Real
  evidence_row : ℤ → Evidence Real String → Row Real
  row_evidence_row : RowEvidence → Row Real
  canary_run_row : CanaryRun (Option String) String → Row Real

-- The value of a key column; `null` is SQL's.
pub data Key : Type 0 where
  text : String → Key
  number : ℤ → Key
  null : Key

-- A reference: the table and the value, which may be NULL or not.
pub record Foreign : Type 0 where
  pub references : String
  pub key : Key
  pub not_null : Bool

abbrev pub null_text : Option String → Key
null_text none = null
null_text (some s) = text s

-- `FOREIGN KEY(..) REFERENCES t(id)` of a column that is NOT NULL
abbrev pub to : String → Key → Foreign
to t k = record { references = t; key = k; not_null = true }

-- and of one that is not.
abbrev pub to_null : String → Option String → Foreign
to_null t k = record { references = t; key = null_text k; not_null = false }

module _ {Real : Type 0} where
  abbrev pub table : Row Real → String
  table (run_row r o) = "runs"
  table (event_row r t k p) = "events"
  table (slack_event_row t e p) = "slack_events"
  table (artifact_row r p s b) = "artifacts"
  table (tool_call_row c) = "tool_calls"
  table (score_row r) = "scores"
  table (judge_run_row r) = "judge_runs"
  table (eval_run_row r) = "eval_runs"
  table (eval_case_row r) = "eval_cases"
  table (promotion_row r) = "promotions"
  table (refine_run_row r) = "refine_runs"
  table (suggest_run_row r) = "suggest_runs"
  table (experiment_row r) = "experiments"
  table (comparison_row r) = "comparisons"
  table (evidence_row n r) = "evidence"
  table (row_evidence_row r) = "row_evidence"
  table (canary_run_row r) = "canary_runs"

  -- The column `id`, or `null` where it is a count that nothing refers to.
  abbrev pub primary_key : Row Real → Key
  primary_key (run_row r o) = text r.id
  primary_key (eval_run_row r) = text r.id
  primary_key (promotion_row r) = text r.id
  primary_key (refine_run_row r) = text r.id
  primary_key (suggest_run_row r) = text r.id
  primary_key (experiment_row r) = text r.id
  primary_key (evidence_row n r) = number n
  primary_key (canary_run_row r) = text r.id
  primary_key _ = null

  abbrev pub foreign_keys : Row Real → List Foreign
  foreign_keys (run_row r o) = []
  foreign_keys (event_row r t k p) = to "runs" (text r) ∷ []
  foreign_keys (slack_event_row t e p) = []
  foreign_keys (artifact_row r p s b) = to "runs" (text r) ∷ []
  foreign_keys (tool_call_row c) = to "runs" (text c.run_id) ∷ []
  foreign_keys (score_row r) = to "runs" (text r.run_id) ∷ []
  foreign_keys (judge_run_row r) = to "runs" (text r.run_id) ∷ []
  foreign_keys (eval_run_row r) = []
  foreign_keys (eval_case_row r) = to "eval_runs" (text r.eval_run_id) ∷ []
  foreign_keys (promotion_row r) = to_null "eval_runs" r.eval_run_id ∷ []
  foreign_keys (refine_run_row r) = to "runs" (text r.run_id) ∷ []
  foreign_keys (suggest_run_row r) = to_null "eval_runs" r.eval_run_id ∷ []
  foreign_keys (experiment_row r) = to_null "eval_runs" r.eval_run_id ∷ []
  foreign_keys (comparison_row r) = to "experiments" (text r.experiment_id) ∷ []
  foreign_keys (evidence_row n r) = to "runs" (text r.run_id) ∷ []
  foreign_keys (row_evidence_row r) =
      to "runs" (text r.run_id) ∷ to "evidence" (number r.evidence_id) ∷ []
  foreign_keys (canary_run_row r) =
      to "eval_runs" (text r.eval_run_id) ∷ to "eval_runs" (null_text r.curated_eval_run_id) ∷ []
