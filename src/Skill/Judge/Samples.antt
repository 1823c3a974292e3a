-- ===== src/Skill/Judge/Samples.antt =====
-- internal/skill/judge: a rubric and a run, with hundredths for the floats.
use virmux.Prelude.{
  ltb, leb, Result, ok, ℤ, pos, negsuc, ℕ, ◌+◌, ◌*◌, ◌/◌, String, ◌≡◌, refl, ◌↔◌, Bool, true, false,
  Option, none, some, List, [], ◌∷◌, is_blank, trim, text_leb,
}
use virmux.Trace.{Entry as TraceEntry, validate_line}
use virmux.Skill.Judge.Rubric.{
  Floats, text, bool, float, YamlEntry, mapping, YamlValue, sequence, scalar, Rubric, load_rubric,
}
use virmux.Skill.Judge.Rubric.Valid.{IsValid, load_rubric-IsValid}
use virmux.Skill.Judge.Metrics.{RunFiles, Evidence, Paths, Metrics, JudgeError, collect_metrics}
use virmux.Skill.Judge.Metrics.Readable.{IsReadable, evaluate_iff}
use virmux.Skill.Judge.Evaluate.{Judgement, evaluate, judge}
use virmux.Skill.Judge.Evaluate.Judged.{IsJudged, evaluate-IsJudged}

abbrev of_int : ℤ → ℕ
of_int (pos n) = 100 * n
of_int (negsuc n) = 0

abbrev hundredths : Floats ℕ
hundredths = record {
  zero = 0;
  one = 100;
  half = 50;
  two = 200;
  weight_cap = 100;
  add = λ x y. x + y;
  mul = λ x y. (x * y) / 100;
  div = λ x y. (x * 100) / y;
  of_int = of_int;
  at_most = leb;
  below = ltb;
}

abbrev criterion : String → ℕ → Bool → YamlEntry ℕ
criterion id w must = mapping (("id", text id) ∷ ("w", float w) ∷ ("must", bool must) ∷ [])

abbrev yaml : List (String × YamlValue ℕ)
yaml =
    ("pass", scalar (float 60))
    ∷ (
      "criteria",
      sequence (
          criterion "format" 20 true
          ∷ criterion "completeness" 40 false
          ∷ criterion "actionability" 40 false
          ∷ []),
    )
    ∷ []

abbrev read : String → Result String String
read path = ok path

abbrev parse : String → Result String (Option (List (String × YamlValue ℕ)))
parse bytes = ok (some yaml)

program : Unit {0}
unfolding load_rubric evaluate collect_metrics judge validate_line trim is_blank text_leb
program = tt

abbrev rubric : Rubric ℕ
rubric = record {
  criteria =
      record { id = "format"; w = 20; must = true; threshold = 50 }
      ∷ record { id = "completeness"; w = 40; must = false; threshold = 50 }
      ∷ record { id = "actionability"; w = 40; must = false; threshold = 50 }
      ∷ [];
  pass = 60;
  override_default_check = false;
}

loads : load_rubric hundredths read parse "rubric.yaml" ≡ ok rubric
unfolding program
loads = refl

load_rubric-IsValid_example : IsValid hundredths rubric
load_rubric-IsValid_example = load_rubric-IsValid hundredths read parse "rubric.yaml" rubric loads

abbrev line : TraceEntry
line = record {
  ts = "10:00:00";
  run_id = "run-1";
  seq = pos 1;
  kind = "event";
  task = "dd";
  event = "start";
  tool = "";
  args_hash = "";
  output_hash = "";
  stdout_ref = "";
  stderr_ref = "";
  exit_code = none;
  dur_ms = none;
  bytes_in = none;
  bytes_out = none;
  payload = some (λ k. none);
}

-- The files of a run that made one artifact and called no tool.
abbrev files : RunFiles
files = record {
  trace = ok ("{}" ∷ [], none);
  walk = ok (("artifacts/a.md", "# a") ∷ []);
  is_regular = λ p. false;
}

abbrev paths : Paths
paths = record { join = λ d p. p; base = λ p. p }

abbrev judged_run : Evidence
judged_run = record {
  run_id = "run-1";
  skill = "dd";
  run_dir = "runs/run-1";
  run_status = " ok\n";
  expect_files = [];
  mode = "rules";
  model_id = "";
}

abbrev judged : Result JudgeError (Judgement ℕ)
judged =
    evaluate hundredths (λ x. "0.50") paths (λ s. s) (λ s. ok line) (λ r mode model. mode) files
      rubric "sha256:1" judged_run

abbrev judgement : Judgement ℕ
judgement = record {
  run_id = "run-1";
  skill = "dd";
  score = 60;
  pass = true;
  critique = "completeness below threshold 0.50" ∷ [];
  criterion =
      record { id = "format"; weight = 20; value = 100; pass = true; must = true; reason = "" }
      ∷ record {
        id = "completeness";
        weight = 40;
        value = 0;
        pass = false;
        must = false;
        reason = "completeness below threshold 0.50";
      }
      ∷ record {
        id = "actionability";
        weight = 40;
        value = 100;
        pass = true;
        must = false;
        reason = "";
      }
      ∷ [];
  rubric_hash = "sha256:1";
  judge_cfg_hash = "rules";
  artifact_hash = "artifacts/a.md:# a";
  model_id = "";
  mode = "rules";
}

judges : judged ≡ ok judgement
unfolding program
judges = refl

evaluate-IsJudged_example :
    (m : Metrics ℕ) × (artifact_hash : String) × (reasons : List String) × (collect_metrics
        hundredths paths
        (λ s. s)
        (λ s. ok line)
        files
        judged_run
      ≡ ok (m, artifact_hash, reasons))
    × IsJudged hundredths (λ x. "0.50") m rubric reasons judgement
evaluate-IsJudged_example =
    evaluate-IsJudged hundredths (λ x. "0.50") paths (λ s. s) (λ s. ok line) (λ r mode model. mode)
      files rubric "sha256:1" judged_run judgement judges

evaluate_iff_example : ((j : Judgement ℕ) × (judged ≡ ok j)) ↔ IsReadable (λ s. ok line) files
evaluate_iff_example =
    evaluate_iff hundredths (λ x. "0.50") paths (λ s. s) (λ s. ok line) (λ r mode model. mode) files
      rubric "sha256:1" judged_run
