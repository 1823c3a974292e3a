-- ===== src/Database/Reads.antt =====
-- internal/store/store.go: the methods of `Store` that read.
-- `datetime`, which SQLite orders by, is a parameter: a time in whole seconds.
use mathlib.Core.Option.{map as option_map}
use virmux.Prelude.{
  ltb, ◌==◌, if◌then◌else◌, count, distinct, ℕ, ◌+◌, String, Bool, true, false, not, ◌&&◌, ◌||◌,
  Option, none, some, List, [], ◌∷◌, str_eq, text_leb,
}
use virmux.Database.Structs.{EvalRun, ExperimentReport}
use virmux.Database.Rows.{Row, eval_run_row, comparison_row, experiment_row, EvalRunRow}
use virmux.Database.Engine.{Clock}

module _ {Real Time : Type 0} (clock : Clock Time) (zero_real : Real) where
  -- `Scan` into a new `EvalRun`, and the parse of the time.
  abbrev pub scanned : EvalRunRow Real → EvalRun Real Time
  scanned r = record {
    id = r.id;
    skill = r.skill;
    cohort = r.cohort;
    base_ref = r.base_ref;
    head_ref = r.head_ref;
    provider = r.provider;
    fixtures_hash = r.fixtures_hash;
    cfg_sha256 = r.cfg_sha256;
    cfg_path = r.cfg_path;
    results_sha256 = r.results_sha256;
    results_path = r.results_path;
    verdict_sha256 = r.verdict_sha256;
    verdict_path = r.verdict_path;
    score_p50_base = r.score_p50_base;
    score_p50_head = r.score_p50_head;
    score_p90_base = zero_real;
    score_p90_head = zero_real;
    fail_rate_base = r.fail_rate_base;
    fail_rate_head = r.fail_rate_head;
    cost_total_base = r.cost_total_base;
    cost_total_head = r.cost_total_head;
    score_p50_delta = r.score_p50_delta;
    score_p90_delta = zero_real;
    fail_rate_delta = r.fail_rate_delta;
    cost_delta = r.cost_delta;
    pass = r.pass;
    verdict_json = r.verdict_json;
    created_at = clock.parse r.created_at;
  }

module _ {Real : Type 0} where
  -- SELECT .. FROM eval_runs WHERE id=?
  abbrev pub find_eval_run : String → List (Row Real) → Option (EvalRunRow Real)
  find_eval_run id [] = none
  find_eval_run id (eval_run_row r ∷ rows) =
      let rest = find_eval_run id rows in if str_eq r.id id then some r else rest
  find_eval_run id (_ ∷ rows) = find_eval_run id rows

  -- WHERE skill=?, with AND pass=1 if `passing`.
  abbrev pub is_wanted : Bool → String → EvalRunRow Real → Bool
  is_wanted passing skill r = str_eq r.skill skill && (not passing || r.pass)

  abbrev pub wanted : Bool → String → List (Row Real) → List (EvalRunRow Real)
  wanted passing skill [] = []
  wanted passing skill (eval_run_row r ∷ rows) =
      let rest = wanted passing skill rows in if is_wanted passing skill r then r ∷ rest else rest
  wanted passing skill (_ ∷ rows) = wanted passing skill rows

  -- SELECT winner FROM comparisons WHERE experiment_id=?
  abbrev pub winners : String → List (Row Real) → List String
  winners id [] = []
  winners id (comparison_row c ∷ rows) =
      let rest = winners id rows in if str_eq c.experiment_id id then c.winner ∷ rest else rest
  winners id (_ ∷ rows) = winners id rows

  abbrev pub find_skill : String → List (Row Real) → Option String
  find_skill id [] = none
  find_skill id (experiment_row e ∷ rows) =
      let rest = find_skill id rows in if str_eq e.id id then some e.skill else rest
  find_skill id (_ ∷ rows) = find_skill id rows

module _ {Real : Type 0} (datetime : String → ℕ) where
  -- ORDER BY datetime(created_at) DESC, id DESC: whether `r` stands before `s`, or is the same.
  unfoldable pub stands_before : EvalRunRow Real → EvalRunRow Real → Bool
  unfolding text_leb
  stands_before r s =
      ltb (datetime s.created_at) (datetime r.created_at)
      || (datetime s.created_at == datetime r.created_at) && text_leb s.id r.id

  -- The first row in that order, for LIMIT 1.
  unfoldable pub first_of : List (EvalRunRow Real) → Option (EvalRunRow Real)
  unfolding stands_before
  first_of [] = none
  first_of (r ∷ rs) = elim (first_of rs) [
    | none ↦ some r
    | some s ↦ some (if stands_before r s then r else s)
  ]

module _ {Real Time : Type 0} (clock : Clock Time) (zero_real : Real) where
  -- `none` is sql.ErrNoRows.
  unfoldable pub get_eval_run : String → List (Row Real) → Option (EvalRun Real Time)
  get_eval_run id db = option_map (scanned clock zero_real) (find_eval_run id db)

  module _ (datetime : String → ℕ) where
    unfoldable pub latest_eval_run_by_skill : String → List (Row Real) → Option (EvalRun Real Time)
    unfolding first_of
    latest_eval_run_by_skill skill db =
        option_map (scanned clock zero_real) (first_of datetime (wanted false skill db))

    unfoldable pub latest_passing_eval_run_by_skill :
        String → List (Row Real) → Option (EvalRun Real Time)
    unfolding first_of
    latest_passing_eval_run_by_skill skill db =
        option_map (scanned clock zero_real) (first_of datetime (wanted true skill db))

module _ {Real : Type 0} (zero_real : Real) (ratio : ℕ → ℕ → Real) where
  -- The switch on a group's winner.
  abbrev pub tally : String → ℕ → ExperimentReport Real → ExperimentReport Real
  tally winner n report =
      if str_eq winner "A"
      then record report { wins_a = n }
      else if str_eq winner "B"
      then record report { wins_b = n }
      else if str_eq winner "tie"
      then record report { ties = n }
      else report

  -- The loop over the groups of GROUP BY, each a winner with COUNT(*) of `all`.
  abbrev pub tally_groups :
      List String → List String → ExperimentReport Real → ExperimentReport Real
  tally_groups all [] report = report
  tally_groups all (w ∷ ws) report = tally_groups all ws (tally w (count (str_eq w) all) report)

  unfoldable pub totalled : ExperimentReport Real → ExperimentReport Real
  totalled r =
      let total : ℕ = r.wins_a + r.wins_b + r.ties in
      record r {
        total = total;
        win_rate = if ltb 0 total then ratio r.wins_b total else r.win_rate;
      }

  -- `none` is the error of an experiment that is not there.
  unfoldable pub get_experiment_report : String → List (Row Real) → Option (ExperimentReport Real)
  unfolding totalled
  get_experiment_report id db = elim (find_skill id db) [
    | none ↦ none
    | some skill ↦
        let all = winners id db in
        some (
          totalled (
            tally_groups all (distinct all) (record {
              experiment_id = id;
              skill = skill;
              wins_a = 0;
              wins_b = 0;
              ties = 0;
              win_rate = zero_real;
              total = 0;
            })))
  ]
