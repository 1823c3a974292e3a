-- ===== src/Skill/Ab.antt =====
-- internal/skill/absvc/service.go: what `Run` decides about two refs and stores, once both were
-- evaluated. The snapshots, the runs of promptfoo and the parse are Skill/Eval; the files that are
-- written beside, the trace and the run's own row are left out. `now` is the time of the call.
pub mod Reported
mod Samples
use virmux.Prelude.{
  ltb, if◌then◌else◌, Result, ok, err, ℕ, suc, String, Bool, not, ◌&&◌, ◌||◌, Option, none, some,
  List, [], ◌∷◌, str_eq, is_blank, trim,
}
use virmux.Database.Structs.{Experiment, Comparison, EvalCase}
use virmux.Database.Rows.{Row}
use virmux.Database.Engine.{DbError, Clock}
use virmux.Database.Inserts.{insert_experiment, insert_comparison, insert_eval_case}
use virmux.Skill.Eval.Results.{Arithmetic, CaseMetric, case_at, empty_case}

pub data AbInputError : Type 0 where
  skill_required refs_required refs_equal : AbInputError
  invalid_judge_mode : String → AbInputError

-- The judge mode that is used, if the input is accepted.
unfoldable pub check_input :
    (skill_name base_ref head_ref judge_mode : String) → Result AbInputError String
check_input skill_name base_ref head_ref judge_mode =
    if is_blank skill_name
    then err skill_required
    else if is_blank base_ref || is_blank head_ref
    then err refs_required
    else if str_eq base_ref head_ref
    then err refs_equal
    else if is_blank judge_mode || str_eq (trim judge_mode) "independent"
    then ok "independent"
    else if str_eq (trim judge_mode) "pairwise"
    then ok judge_mode
    else err (invalid_judge_mode judge_mode)

-- The variables winsA, winsB and ties.
pub record Wins : Type 0 where
  pub wins_a : ℕ
  pub wins_b : ℕ
  pub ties : ℕ

abbrev pub no_wins : Wins
no_wins = record { wins_a = 0; wins_b = 0; ties = 0 }

abbrev pub count_winner : String → Wins → Wins
count_winner winner w =
    if str_eq winner "A"
    then record w { wins_a = suc w.wins_a }
    else if str_eq winner "B"
    then record w { wins_b = suc w.wins_b }
    else record w { ties = suc w.ties }

-- The overall winner.
unfoldable pub winner_of : Wins → String
winner_of w = if ltb w.wins_a w.wins_b then "B" else if ltb w.wins_b w.wins_a then "A" else "tie"

-- `WinRate`, left at zero without fixtures.
unfoldable pub win_rate_of : {Real : Type 0} → (ℕ → ℕ → Real) → Real → Wins → ℕ → Real
win_rate_of ratio zero_real w fixtures =
    if ltb 0 fixtures then ratio w.wins_b fixtures else zero_real

module _ {Real : Type 0} (a : Arithmetic Real) (anti_tie : Bool) where
  -- The winner of a fixture and why.
  unfoldable pub judge_case : CaseMetric Real → CaseMetric Real → String × String
  judge_case base head =
      if a.below base.score head.score
      then ("B", "head score higher")
      else if a.below head.score base.score
      then ("A", "base score higher")
      else if head.pass && not base.pass
      then ("B", "head passed, base failed")
      else if base.pass && not head.pass
      then ("A", "base passed, head failed")
      else if not (head.pass && base.pass)
      then ("tie", "both hard-fail")
      else if anti_tie
      then ("B", "anti-tie favor head")
      else ("A", "tie-break favor base")

module _ {Real Time : Type 0} (a : Arithmetic Real) (clock : Clock Time) (now : Time)
    (base_cases head_cases : List (String × CaseMetric Real)) where
  abbrev pub base_case : String → CaseMetric Real
  base_case id = case_at (empty_case a "") id base_cases

  abbrev pub head_case : String → CaseMetric Real
  head_case id = case_at (empty_case a "") id head_cases

  -- The loop that stores a case for each fixture; what was stored before an error stays.
  unfoldable pub store_cases :
      String → List String → List (Row Real) → Option DbError × List (Row Real)
  unfolding insert_eval_case
  store_cases eval_id [] db = (none, db)
  store_cases eval_id (id ∷ ids) db =
      elim (insert_eval_case clock now
        (record {
          eval_run_id = eval_id;
          fixture_id = id;
          base_score = (base_case id).score;
          head_score = (head_case id).score;
          base_pass = (base_case id).pass;
          head_pass = (head_case id).pass;
          base_cost = (base_case id).cost;
          head_cost = (head_case id).cost;
          created_at = now;
        })
        db) [ err e ↦ (some e, db) | ok after ↦ store_cases eval_id ids after ]

  abbrev pub comparison_of : Bool → String → String → Comparison Time
  comparison_of anti_tie exp_id id =
      let judged = judge_case a anti_tie (base_case id) (head_case id) in
      record {
        experiment_id = exp_id;
        fixture_id = id;
        winner = judged.0;
        rationale = judged.1;
        created_at = now;
      }

  -- The loop over the fixtures in pairwise mode.
  unfoldable pub store_comparisons :
      Bool → String → List String → Wins → List (Row Real) → Result DbError Wins × List (Row Real)
  unfolding judge_case insert_comparison
  store_comparisons anti_tie exp_id [] w db = (ok w, db)
  store_comparisons anti_tie exp_id (id ∷ ids) w db =
      let c = comparison_of anti_tie exp_id id in
      elim (insert_comparison clock now c db) [
        | err e ↦ (err e, db)
        | ok after ↦ store_comparisons anti_tie exp_id ids (count_winner c.winner w) after
      ]

  -- Pairwise mode: the experiment, then its comparisons.
  unfoldable pub run_pairwise :
      Bool
      → Experiment String Time
      → List String
      → List (Row Real)
      → Result DbError Wins × List (Row Real)
  unfolding store_comparisons insert_experiment
  run_pairwise anti_tie e ids db = elim (insert_experiment clock now e db) [
    | err x ↦ (err x, db)
    | ok after ↦ store_comparisons anti_tie e.id ids no_wins after
  ]
