-- ===== src/Skill/Ab/Samples.antt =====
-- internal/skill/absvc/service.go: two fixtures compared, in pairwise mode.
use virmux.Prelude.{
  ltb, leb, ◌==◌, Result, ok, err, ℕ, ◌*◌, ◌/◌, String, ◌≡◌, refl, true, false, some, List, [], ◌∷◌,
  str_eq, is_blank, trim,
}
use virmux.Database.Structs.{Experiment}
use virmux.Database.Rows.{Row}
use virmux.Database.Engine.{DbError, Clock, no_parent, insert_row}
use virmux.Database.Inserts.{insert_experiment, insert_comparison, insert_eval_case}
use virmux.Database.Integrity.{IsSound}
use virmux.Skill.Eval.Results.{Arithmetic, CaseMetric}
use virmux.Skill.Ab.{
  check_input, refs_equal, Wins, winner_of, win_rate_of, judge_case, store_cases, store_comparisons,
  run_pairwise,
}
use virmux.Skill.Ab.Reported.{IsReported, run_pairwise-IsReported}

-- Scores in hundredths; the rest is not used.
abbrev hundredths : Arithmetic ℕ
hundredths = record {
  zero = 0;
  ninety = 0;
  hundred = 0;
  two = 0;
  add = λ x y. x;
  sub = λ x y. x;
  mul = λ x y. x;
  div = λ x y. x;
  of_nat = λ n. n;
  of_text = λ s. 0;
  is_zero = λ x. x == 0;
  at_most = leb;
  below = ltb;
  before = ltb;
  place = λ p n. (0, 0);
}

abbrev clock : Clock String
clock = record { is_zero = λ t. str_eq t ""; format = λ t. t; parse = λ t. t }

abbrev scored : String → ℕ → String × CaseMetric ℕ
scored id n = (id, record { fixture_id = id; score = n; pass = true; cost = 0 })

abbrev base : List (String × CaseMetric ℕ)
base = scored "f1" 70 ∷ scored "f2" 80 ∷ []

abbrev head : List (String × CaseMetric ℕ)
head = scored "f1" 90 ∷ scored "f2" 80 ∷ []

abbrev trial : Experiment String String
trial = record {
  id = "7-exp";
  eval_run_id = "";
  skill = "dd";
  cohort = "qa";
  base_ref = "main";
  head_ref = "next";
  judge_mode = "pairwise";
  created_at = "10:00:00";
}

abbrev ids : List String
ids = "f1" ∷ "f2" ∷ []

program : Unit {0}
unfolding run_pairwise store_comparisons store_cases judge_case insert_experiment insert_comparison
    insert_eval_case insert_row check_input winner_of win_rate_of trim is_blank
program = tt

abbrev counted : Wins
counted = record { wins_a = 1; wins_b = 1; ties = 0 }

abbrev percent : ℕ → ℕ → ℕ
percent x y = (x * 100) / y

abbrev outcome : Result DbError Wins × List (Row ℕ)
outcome = run_pairwise hundredths clock "10:00:00" base head false trial ids []

one_each : outcome.0 ≡ ok counted
unfolding program
one_each = refl

overall : winner_of counted ≡ "tie"
unfolding program
overall = refl

no_eval_run :
    (store_cases hundredths clock "10:00:00" base head "7-skillab" ids []).0
    ≡ some (no_parent "eval_runs")
unfolding program
no_eval_run = refl

-- The mode is trimmed for the check alone.
mode_with_blank : check_input "dd" "main" "next" " pairwise " ≡ ok " pairwise "
unfolding program
mode_with_blank = refl

same_ref : check_input "dd" "main" "main" "x" ≡ err refs_equal
unfolding program
same_ref = refl

empty-IsSound : IsSound {Real = ℕ} []
empty-IsSound = record {
  unique = tt;
  not_null = tt;
  referred = tt;
  numbered = λ n h. absurd (cc h);
}

run_pairwise-IsReported_example : IsReported 0 percent trial ids counted outcome.1
run_pairwise-IsReported_example =
    run_pairwise-IsReported hundredths clock "10:00:00" base head false 0 percent trial ids []
      counted empty-IsSound one_each
