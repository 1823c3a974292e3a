-- ===== src/Database/Structs.antt =====
-- internal/store/store.go: the structs that the methods take and give.
-- A row of a table is the same record at other parameters: a time is stored as a text, and where the
-- parameter `Ref` stands an empty text is stored as NULL. A bool is stored as 0 or 1. The IDs of
-- `Evidence` and `RowEvidence`, which the database chooses, are left out. Counts are numbers.
use virmux.Prelude.{ℤ, ℕ, String, Bool}

pub record Run (Real Time : Type 0) : Type 0 where
  pub id : String
  pub task : String
  pub label : String
  pub agent_id : String
  pub image_sha : String
  pub kernel_sha : String
  pub rootfs_sha : String
  pub snapshot_id : String
  pub cost_est : Real
  pub started_at : Time

pub record ToolCall : Type 0 where
  pub run_id : String
  pub seq : ℤ
  pub req_id : ℤ
  pub tool : String
  pub input_hash : String
  pub output_hash : String
  pub input_ref : String
  pub output_ref : String
  pub stdout_ref : String
  pub stderr_ref : String
  pub rc : ℤ
  pub dur_ms : ℤ
  pub bytes_in : ℤ
  pub bytes_out : ℤ
  pub error_code : String

pub record Score (Real Time : Type 0) : Type 0 where
  pub run_id : String
  pub skill : String
  pub score : Real
  pub pass : Bool
  pub critique : String
  pub judge_cfg_hash : String
  pub artifact_hash : String
  pub created_at : Time

pub record JudgeRun (Real Time : Type 0) : Type 0 where
  pub run_id : String
  pub skill : String
  pub rubric_hash : String
  pub judge_cfg_hash : String
  pub artifact_hash : String
  pub metrics_json : String
  pub critique : String
  pub score : Real
  pub pass : Bool
  pub created_at : Time
  pub model_id : String
  pub prompt_hash : String
  pub schema_ver : String
  pub mode : String
  pub judge_invalid_count : ℤ

pub record EvalRun (Real Time : Type 0) : Type 0 where
  pub id : String
  pub skill : String
  pub cohort : String
  pub base_ref : String
  pub head_ref : String
  pub provider : String
  pub fixtures_hash : String
  pub cfg_sha256 : String
  pub cfg_path : String
  pub results_sha256 : String
  pub results_path : String
  pub verdict_sha256 : String
  pub verdict_path : String
  pub score_p50_base : Real
  pub score_p50_head : Real
  pub score_p90_base : Real
  pub score_p90_head : Real
  pub fail_rate_base : Real
  pub fail_rate_head : Real
  pub cost_total_base : Real
  pub cost_total_head : Real
  pub score_p50_delta : Real
  pub score_p90_delta : Real
  pub fail_rate_delta : Real
  pub cost_delta : Real
  pub pass : Bool
  pub verdict_json : String
  pub created_at : Time

pub record EvalCase (Real Time : Type 0) : Type 0 where
  pub eval_run_id : String
  pub fixture_id : String
  pub base_score : Real
  pub head_score : Real
  pub base_pass : Bool
  pub head_pass : Bool
  pub base_cost : Real
  pub head_cost : Real
  pub created_at : Time

pub record Experiment (Ref Time : Type 0) : Type 0 where
  pub id : String
  pub eval_run_id : Ref
  pub skill : String
  pub cohort : String
  pub base_ref : String
  pub head_ref : String
  pub judge_mode : String
  pub created_at : Time

pub record Comparison (Time : Type 0) : Type 0 where
  pub experiment_id : String
  pub fixture_id : String
  pub winner : String
  pub rationale : String
  pub created_at : Time

pub record ExperimentReport (Real : Type 0) : Type 0 where
  pub experiment_id : String
  pub skill : String
  pub wins_a : ℕ
  pub wins_b : ℕ
  pub ties : ℕ
  pub win_rate : Real
  pub total : ℕ

pub record Promotion (Ref Time : Type 0) : Type 0 where
  pub id : String
  pub skill : String
  pub tag : String
  pub base_ref : String
  pub head_ref : String
  pub from_ref : String
  pub to_ref : String
  pub reason : String
  pub metrics_json : String
  pub commit_sha : String
  pub op : String
  pub eval_run_id : Ref
  pub verdict_sha256 : String
  pub actor : String
  pub created_at : Time

pub record RefineRun (Time : Type 0) : Type 0 where
  pub id : String
  pub run_id : String
  pub skill : String
  pub eval_run_id : String
  pub branch : String
  pub commit_sha : String
  pub patch_hash : String
  pub patch_path : String
  pub pr_body_path : String
  pub hunk_count : ℤ
  pub tools_edit : Bool
  pub created_at : Time

pub record SuggestRun (Ref Time : Type 0) : Type 0 where
  pub id : String
  pub skill : String
  pub eval_run_id : Ref
  pub motif_key : String
  pub branch : String
  pub commit_sha : String
  pub pr_body_hash : String
  pub pr_body_path : String
  pub run_ids_json : String
  pub created_at : Time

pub record CanaryRun (Ref Time : Type 0) : Type 0 where
  pub id : String
  pub skill : String
  pub eval_run_id : String
  pub curated_eval_run_id : Ref
  pub dset_path : String
  pub dset_sha256 : String
  pub dset_count : ℤ
  pub candidate_ref : String
  pub baseline_ref : String
  pub gate_verdict_json : String
  pub action : String
  pub action_ref : String
  pub caught_by_canary : Bool
  pub backlog_path : String
  pub summary_path : String
  pub created_at : Time

pub record Evidence (Real Time : Type 0) : Type 0 where
  pub run_id : String
  pub claim : String
  pub url : String
  pub quote_span : String
  pub ts : Time
  pub confidence : Real
  pub source_hash : String

pub record RowEvidence : Type 0 where
  pub run_id : String
  pub track_id : String
  pub row_idx : ℤ
  pub evidence_id : ℤ
