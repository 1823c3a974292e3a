-- ===== src/Database/Inserts.antt =====
-- internal/store/store.go: the methods that write a row under the time of the call.
use virmux.Prelude.{if◌then◌else◌, Result, String, List, str_eq}
use virmux.Database.Structs.{
  Score, JudgeRun, EvalRun, EvalCase, Experiment, Comparison, Promotion, RefineRun, SuggestRun,
  CanaryRun,
}
use virmux.Database.Rows.{
  Row, score_row, judge_run_row, eval_run_row, eval_case_row, promotion_row, refine_run_row,
  suggest_run_row, experiment_row, comparison_row, canary_run_row, EvalRunRow,
}
use virmux.Database.Engine.{DbError, Clock, null_string, insert_row, stamp}

module _ {Real Time : Type 0} (clock : Clock Time) (now : Time) where
  abbrev pub score_values : Score Real Time → Row Real
  score_values r = score_row (record {
    run_id = r.run_id;
    skill = r.skill;
    score = r.score;
    pass = r.pass;
    critique = r.critique;
    judge_cfg_hash = r.judge_cfg_hash;
    artifact_hash = r.artifact_hash;
    created_at = stamp clock now r.created_at;
  })

  unfoldable pub insert_score : Score Real Time → List (Row Real) → Result DbError (List (Row Real))
  unfolding insert_row
  insert_score r = insert_row (score_values r)

  abbrev pub judge_run_values : JudgeRun Real Time → Row Real
  judge_run_values r = judge_run_row (record {
    run_id = r.run_id;
    skill = r.skill;
    rubric_hash = r.rubric_hash;
    judge_cfg_hash = r.judge_cfg_hash;
    artifact_hash = r.artifact_hash;
    metrics_json = r.metrics_json;
    critique = r.critique;
    score = r.score;
    pass = r.pass;
    created_at = stamp clock now r.created_at;
    model_id = r.model_id;
    prompt_hash = r.prompt_hash;
    schema_ver = r.schema_ver;
    mode = if str_eq r.mode "" then "rules" else r.mode;
    judge_invalid_count = r.judge_invalid_count;
  })

  unfoldable pub insert_judge_run :
      JudgeRun Real Time → List (Row Real) → Result DbError (List (Row Real))
  unfolding insert_row
  insert_judge_run r = insert_row (judge_run_values r)

  abbrev pub eval_run_columns : EvalRun Real Time → EvalRunRow Real
  eval_run_columns r = record {
    id = r.id;
    skill = r.skill;
    cohort = r.cohort;
    base_ref = r.base_ref;
    head_ref = r.head_ref;
    provider = r.provider;
    fixtures_hash = r.fixtures_hash;
    cfg_sha256 = r.cfg_sha256;
    cfg_path = r.cfg_path;
    results_sha256 = r.results_sha256;
    results_path = r.results_path;
    verdict_sha256 = r.verdict_sha256;
    verdict_path = r.verdict_path;
    score_p50_base = r.score_p50_base;
    score_p50_head = r.score_p50_head;
    fail_rate_base = r.fail_rate_base;
    fail_rate_head = r.fail_rate_head;
    cost_total_base = r.cost_total_base;
    cost_total_head = r.cost_total_head;
    score_p50_delta = r.score_p50_delta;
    fail_rate_delta = r.fail_rate_delta;
    cost_delta = r.cost_delta;
    pass = r.pass;
    verdict_json = r.verdict_json;
    created_at = stamp clock now r.created_at;
  }

  unfoldable pub insert_eval_run :
      EvalRun Real Time → List (Row Real) → Result DbError (List (Row Real))
  unfolding insert_row
  insert_eval_run r = insert_row (eval_run_row (eval_run_columns r))

  abbrev pub eval_case_values : EvalCase Real Time → Row Real
  eval_case_values r = eval_case_row (record {
    eval_run_id = r.eval_run_id;
    fixture_id = r.fixture_id;
    base_score = r.base_score;
    head_score = r.head_score;
    base_pass = r.base_pass;
    head_pass = r.head_pass;
    base_cost = r.base_cost;
    head_cost = r.head_cost;
    created_at = stamp clock now r.created_at;
  })

  unfoldable pub insert_eval_case :
      EvalCase Real Time → List (Row Real) → Result DbError (List (Row Real))
  unfolding insert_row
  insert_eval_case r = insert_row (eval_case_values r)

  abbrev pub promotion_values : Promotion String Time → Row Real
  promotion_values r = promotion_row (record {
    id = r.id;
    skill = r.skill;
    tag = r.tag;
    base_ref = r.base_ref;
    head_ref = r.head_ref;
    from_ref = r.from_ref;
    to_ref = r.to_ref;
    reason = r.reason;
    metrics_json = r.metrics_json;
    commit_sha = r.commit_sha;
    op = if str_eq r.op "" then "promote" else r.op;
    eval_run_id = null_string r.eval_run_id;
    verdict_sha256 = r.verdict_sha256;
    actor = r.actor;
    created_at = stamp clock now r.created_at;
  })

  unfoldable pub insert_promotion :
      Promotion String Time → List (Row Real) → Result DbError (List (Row Real))
  unfolding insert_row
  insert_promotion r = insert_row (promotion_values r)

  abbrev pub refine_run_values : RefineRun Time → Row Real
  refine_run_values r = refine_run_row (record {
    id = r.id;
    run_id = r.run_id;
    skill = r.skill;
    eval_run_id = r.eval_run_id;
    branch = r.branch;
    commit_sha = r.commit_sha;
    patch_hash = r.patch_hash;
    patch_path = r.patch_path;
    pr_body_path = r.pr_body_path;
    hunk_count = r.hunk_count;
    tools_edit = r.tools_edit;
    created_at = stamp clock now r.created_at;
  })

  unfoldable pub insert_refine_run :
      RefineRun Time → List (Row Real) → Result DbError (List (Row Real))
  unfolding insert_row
  insert_refine_run r = insert_row (refine_run_values r)

  abbrev pub suggest_run_values : SuggestRun String Time → Row Real
  suggest_run_values r = suggest_run_row (record {
    id = r.id;
    skill = r.skill;
    eval_run_id = null_string r.eval_run_id;
    motif_key = r.motif_key;
    branch = r.branch;
    commit_sha = r.commit_sha;
    pr_body_hash = r.pr_body_hash;
    pr_body_path = r.pr_body_path;
    run_ids_json = r.run_ids_json;
    created_at = stamp clock now r.created_at;
  })

  unfoldable pub insert_suggest_run :
      SuggestRun String Time → List (Row Real) → Result DbError (List (Row Real))
  unfolding insert_row
  insert_suggest_run r = insert_row (suggest_run_values r)

  abbrev pub canary_run_values : CanaryRun String Time → Row Real
  canary_run_values r = canary_run_row (record {
    id = r.id;
    skill = r.skill;
    eval_run_id = r.eval_run_id;
    curated_eval_run_id = null_string r.curated_eval_run_id;
    dset_path = r.dset_path;
    dset_sha256 = r.dset_sha256;
    dset_count = r.dset_count;
    candidate_ref = r.candidate_ref;
    baseline_ref = r.baseline_ref;
    gate_verdict_json = r.gate_verdict_json;
    action = r.action;
    action_ref = r.action_ref;
    caught_by_canary = r.caught_by_canary;
    backlog_path = r.backlog_path;
    summary_path = r.summary_path;
    created_at = stamp clock now r.created_at;
  })

  unfoldable pub insert_canary_run :
      CanaryRun String Time → List (Row Real) → Result DbError (List (Row Real))
  unfolding insert_row
  insert_canary_run r = insert_row (canary_run_values r)

  abbrev pub experiment_values : Experiment String Time → Row Real
  experiment_values r = experiment_row (record {
    id = r.id;
    eval_run_id = null_string r.eval_run_id;
    skill = r.skill;
    cohort = r.cohort;
    base_ref = r.base_ref;
    head_ref = r.head_ref;
    judge_mode = r.judge_mode;
    created_at = stamp clock now r.created_at;
  })

  unfoldable pub insert_experiment :
      Experiment String Time → List (Row Real) → Result DbError (List (Row Real))
  unfolding insert_row
  insert_experiment r = insert_row (experiment_values r)

  abbrev pub comparison_values : Comparison Time → Row Real
  comparison_values r = comparison_row (record {
    experiment_id = r.experiment_id;
    fixture_id = r.fixture_id;
    winner = r.winner;
    rationale = r.rationale;
    created_at = stamp clock now r.created_at;
  })

  unfoldable pub insert_comparison :
      Comparison Time → List (Row Real) → Result DbError (List (Row Real))
  unfolding insert_row
  insert_comparison r = insert_row (comparison_values r)
