-- ===== src/Database/Samples.antt =====
-- internal/store: a database with one run, one evaluation and one experiment; times are texts.
use mathlib.Core.Option.{map as option_map}
use virmux.Prelude.{
  if◌then◌else◌, ok, err, length, pos, ℕ, String, ◌≡◌, refl, ◌≢◌, ◌↔◌, ◌⊎◌, true, false, none, some,
  List, [], ◌∷◌, str_eq,
}
use virmux.Database.Structs.{
  Run, EvalRun, CanaryRun, Evidence, Experiment, Comparison, ExperimentReport,
}
use virmux.Database.Rows.{Row, text, eval_run_row}
use virmux.Database.Engine.{Clock, null_given, no_parent, key_taken, has_key, insert_row, stamp}
use virmux.Database.Runs.{insert_evidence, start_run}
use virmux.Database.Inserts.{
  eval_run_columns, insert_eval_run, insert_canary_run, insert_experiment, insert_comparison,
}
use virmux.Database.Reads.{
  get_eval_run, latest_eval_run_by_skill, latest_passing_eval_run_by_skill, winners, find_skill,
  get_experiment_report,
}
use virmux.Database.Session.{
  Write, starting, an_eval_run, an_evidence, an_experiment, a_comparison, calls,
}
use virmux.Database.Refused.{insert_canary_run_iff}
use virmux.Database.Lookup.{get_eval_run-insert_eval_run}
use virmux.Database.Report.{Counts, get_experiment_report-Counts}

abbrev clock : Clock String
clock = record { is_zero = λ t. str_eq t ""; format = λ t. t; parse = λ t. t }

abbrev boot : Run ℕ String
boot = record {
  id = "run-1";
  task = "boot";
  label = "";
  agent_id = "default";
  image_sha = "sha256:1";
  kernel_sha = "";
  rootfs_sha = "";
  snapshot_id = "";
  cost_est = 0;
  started_at = "10:00:00";
}

abbrev evaluation : EvalRun ℕ String
evaluation = record {
  id = "eval-1";
  skill = "dd";
  cohort = "";
  base_ref = "main";
  head_ref = "next";
  provider = "promptfoo";
  fixtures_hash = "sha256:2";
  cfg_sha256 = "sha256:3";
  cfg_path = "";
  results_sha256 = "sha256:4";
  results_path = "";
  verdict_sha256 = "sha256:5";
  verdict_path = "";
  score_p50_base = 7;
  score_p50_head = 8;
  score_p90_base = 8;
  score_p90_head = 9;
  fail_rate_base = 0;
  fail_rate_head = 0;
  cost_total_base = 1;
  cost_total_head = 1;
  score_p50_delta = 1;
  score_p90_delta = 1;
  fail_rate_delta = 0;
  cost_delta = 0;
  pass = true;
  verdict_json = "{}";
  created_at = "";
}

abbrev canary : CanaryRun String String
canary = record {
  id = "canary-1";
  skill = "dd";
  eval_run_id = "eval-1";
  curated_eval_run_id = "eval-1";
  dset_path = "";
  dset_sha256 = "";
  dset_count = pos 3;
  candidate_ref = "next";
  baseline_ref = "main";
  gate_verdict_json = "{}";
  action = "promote";
  action_ref = "";
  caught_by_canary = false;
  backlog_path = "";
  summary_path = "";
  created_at = "";
}

abbrev claim : Evidence ℕ String
claim = record {
  run_id = "run-1";
  claim = "it boots";
  url = "http://localhost";
  quote_span = "";
  ts = "10:00:05";
  confidence = 1;
  source_hash = "sha256:6";
}

abbrev trial : Experiment String String
trial = record {
  id = "exp-1";
  eval_run_id = "eval-1";
  skill = "dd";
  cohort = "";
  base_ref = "main";
  head_ref = "next";
  judge_mode = "";
  created_at = "";
}

abbrev won : String → String → Comparison String
won fixture winner = record {
  experiment_id = "exp-1";
  fixture_id = fixture;
  winner = winner;
  rationale = "";
  created_at = "";
}

-- The second evaluation failed, and the third has the ID of the first one.
abbrev session : List (String × Write ℕ String)
session =
    ("10:00:00", starting boot)
    ∷ ("10:01:00", an_eval_run evaluation)
    ∷ ("10:02:00", an_eval_run (record evaluation { id = "eval-2"; pass = false }))
    ∷ ("10:03:00", an_eval_run (record evaluation { skill = "other" }))
    ∷ ("10:04:00", an_evidence claim)
    ∷ ("10:05:00", an_experiment trial)
    ∷ ("10:06:00", a_comparison (won "f1" "B"))
    ∷ ("10:06:00", a_comparison (won "f2" "tie"))
    ∷ ("10:06:00", a_comparison (won "f3" "B"))
    ∷ []

-- The seconds of these times.
abbrev seconds : String → ℕ
seconds t = if str_eq t "10:01:00" then 60 else 120

program : Unit {0}
unfolding calls insert_canary_run insert_evidence insert_eval_run start_run insert_experiment
    insert_comparison insert_row get_eval_run latest_eval_run_by_skill
    latest_passing_eval_run_by_skill get_experiment_report
program = tt

abbrev database : List (Row ℕ)
database = calls clock session []

eight_rows : length database ≡ 8
unfolding program
eight_rows = refl

no_curated_evaluation :
    insert_canary_run clock "10:07:00" (record canary { curated_eval_run_id = "" }) database
    ≡ err (null_given "eval_runs")
unfolding program
no_curated_evaluation = refl

unknown_run :
    insert_evidence clock (record claim { run_id = "run-2" }) database ≡ err (no_parent "runs")
unfolding program
unknown_run = refl

same_evaluation : insert_eval_run clock "10:07:00" evaluation database ≡ err (key_taken "eval_runs")
unfolding program
same_evaluation = refl

latest_fails :
    option_map (λ r. r.id) (latest_eval_run_by_skill clock 0 seconds "dd" database) ≡ some "eval-2"
unfolding program
latest_fails = refl

latest_passing :
    option_map (λ r. r.id) (latest_passing_eval_run_by_skill clock 0 seconds "dd" database)
    ≡ some "eval-1"
unfolding program
latest_passing = refl

report :
    option_map {B = ℕ × ℕ}
      (λ r. (r.wins_b, r.total))
      (get_experiment_report 0 (λ b n. b) "exp-1" database)
    ≡ some (2, 3)
unfolding program
report = refl

insert_canary_run_iff_example :
    ((after : List (Row ℕ)) × (insert_canary_run clock "10:07:00" canary database ≡ ok after)) ↔ (
      (canary.curated_eval_run_id ≢ "")
      × (has_key "eval_runs" (text "eval-1") database ≡ true)
      × (has_key "eval_runs" (text "eval-1") database ≡ true)
      × (has_key "canary_runs" (text "canary-1") database ≡ false))
insert_canary_run_iff_example = insert_canary_run_iff clock "10:07:00" canary database

abbrev stored : List (Row ℕ)
stored = eval_run_row (eval_run_columns clock "10:01:00" evaluation) ∷ []

inserted : insert_eval_run clock "10:01:00" evaluation [] ≡ ok stored
unfolding program
inserted = refl

get_eval_run-insert_eval_run_example :
    get_eval_run clock 0 "eval-1" (calls clock session stored)
    ≡ some (record evaluation {
      score_p90_base = 0;
      score_p90_head = 0;
      score_p90_delta = 0;
      created_at = clock.parse (stamp clock "10:01:00" "");
    })
get_eval_run-insert_eval_run_example =
    get_eval_run-insert_eval_run clock 0 "10:01:00" evaluation [] stored session inserted

get_experiment_report-Counts_example :
    ((find_skill "exp-1" database ≡ none)
      × (get_experiment_report 0 (λ b n. b) "exp-1" database ≡ none))
    ⊎ ((skill : String) × (find_skill "exp-1" database ≡ some skill)
        × (r : ExperimentReport ℕ) × (get_experiment_report 0 (λ b n. b) "exp-1" database ≡ some r)
        × Counts 0 (λ b n. b) "exp-1" skill (winners "exp-1" database) r)
get_experiment_report-Counts_example = get_experiment_report-Counts 0 (λ b n. b) "exp-1" database
