-- ===== src/Skill/Eval/Samples.antt =====
-- internal/skill/eval: results of two cases, fixtures at two refs, and promptfoo by npx.
use virmux.Prelude.{
  ltb, leb, ◌==◌, if◌then◌else◌, Result, ok, err, ℕ, ◌+◌, ◌-◌, ◌*◌, ◌/◌, ◌%◌, String, ◌≡◌, refl,
  Bool, true, false, none, some, List, [], ◌∷◌, str_eq, is_blank, trim, text_leb,
}
use virmux.Skill.Eval.Results.{
  Json, object, field, no_fields, text, number, bool, null, Arithmetic, Metrics, results_missing,
  parse_promptfoo_results,
}
use virmux.Skill.Eval.Results.Counted.{Cases, IsCounted, parse_promptfoo_results-IsCounted}
use virmux.Skill.Eval.Compare.{
  AbThresholds, score_dropped, compare_ab, EvalFixture, base_missing, GitTree, Parsers,
  validate_frozen_fixture_set, load_skill_snapshot, Tool, given_tool, local_tool, npx_tool, Action,
  validate_config, run_eval, run_promptfoo,
}

-- Hundredths for the floats.
abbrev hundredths : Arithmetic ℕ
hundredths = record {
  zero = 0;
  ninety = 9000;
  hundred = 10000;
  two = 200;
  add = λ x y. x + y;
  sub = λ x y. x - y;
  mul = λ x y. (x * y) / 100;
  div = λ x y. (x * 100) / y;
  of_nat = λ n. n * 100;
  of_text = λ s. 0;
  is_zero = λ x. x == 0;
  at_most = leb;
  below = ltb;
  before = ltb;
  place = λ p n. ((p * (n - 1)) / 10000, ((p * (n - 1)) / 100) % 100);
}

-- The second row has no ID of its own, and the third is no object.
abbrev rows : List (Json ℕ)
rows =
    object (
      field "vars" (object (field "fixture_id" (text " b ") no_fields))
        (field "score" (number 80) (field "pass" (bool true) no_fields)))
    ∷ object (
        field "grading" (object (field "score" (number 40) no_fields))
          (field "success" (text "false") (field "cost" (number 5) no_fields)))
    ∷ null
    ∷ []

abbrev unmarshal : String → Result String (List (Json ℕ))
unmarshal raw = if str_eq raw "{}" then ok [] else ok rows

abbrev numbered : ℕ → String
numbered n = "case-00x"

program : Unit {0}
unfolding parse_promptfoo_results compare_ab validate_frozen_fixture_set load_skill_snapshot
    run_promptfoo trim is_blank text_leb
program = tt

abbrev metrics : Metrics ℕ
metrics = record {
  cases = 3;
  passes = 1;
  fails = 2;
  fail_rate = 66;
  score_p50 = 40;
  score_p90 = 72;
  cost_total = 5;
}

abbrev cases : Cases ℕ
cases =
    ("b", record { fixture_id = "b"; score = 80; pass = true; cost = 0 })
    ∷ ("c", record { fixture_id = "c"; score = 40; pass = false; cost = 5 })
    ∷ ("a", record { fixture_id = "a"; score = 0; pass = false; cost = 0 })
    ∷ []

abbrev ids : List String
ids = "a" ∷ "c" ∷ []

two_rows : parse_promptfoo_results hundredths numbered unmarshal "results" ids ≡ ok (metrics, cases)
unfolding program
two_rows = refl

no_rows : parse_promptfoo_results hundredths numbered unmarshal "{}" ids ≡ err results_missing
unfolding program
no_rows = refl

parse_promptfoo_results-IsCounted_example : IsCounted hundredths ids metrics cases
parse_promptfoo_results-IsCounted_example =
    parse_promptfoo_results-IsCounted hundredths numbered unmarshal "results" ids metrics cases
      two_rows

abbrev thresholds : AbThresholds ℕ
thresholds = record { min_score_delta = 10; max_fail_rate_delta = 5; max_cost_delta = some 2 }

dropped :
    (compare_ab hundredths metrics (record metrics { score_p50 = 45 }) thresholds).reason
    ≡ score_dropped 5 10
unfolding program
dropped = refl

abbrev case : String → EvalFixture
case id = record { id = id; path = id; raw = "{}" }

lost_case :
    validate_frozen_fixture_set (case "a" ∷ case "b" ∷ []) (case "b" ∷ []) ≡ some (base_missing "a")
unfolding program
lost_case = refl

abbrev tree : GitTree
tree = record {
  show = λ ref path. ok path;
  list = λ ref prefix. ok ("tests/b.json" ∷ "tests/README" ∷ " tests/a.json" ∷ "" ∷ []);
}

abbrev parsers : Parsers
parsers = record {
  split_frontmatter = λ bytes. ok "body";
  id_of = λ raw. ok "";
  base_without_ext = λ path. path;
}

snapshot :
    load_skill_snapshot tree parsers "SKILL.md" "tests" "main"
    ≡ ok (record {
      ref = "main";
      body = "body";
      fixtures =
          record { id = "tests/a.json"; path = "tests/a.json"; raw = "tests/a.json" }
          ∷ record { id = "tests/b.json"; path = "tests/b.json"; raw = "tests/b.json" }
          ∷ [];
    })
unfolding program
snapshot = refl

abbrev only_npx : Tool → Action → Bool
only_npx npx_tool action = true
only_npx local_tool action = false
only_npx (given_tool bin) action = false

by_npx : run_promptfoo only_npx true " " ≡ (
  (given_tool "promptfoo", validate_config)
      ∷ (local_tool, validate_config)
      ∷ (npx_tool, validate_config)
      ∷ (npx_tool, run_eval)
      ∷ [],
  none,
)
unfolding program
by_npx = refl
