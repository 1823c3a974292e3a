-- ===== src/Skill/Gates.antt =====
-- internal/skill/gates/gates.go: the gates that an A/B verdict must pass.
-- Floats are the parameter `Real`, with the test `> 0`, and JSON is the parameter `unmarshal`. A map
-- of gates is a list in the order in which it is ranged over. `Details` and the soft gates, which
-- decide nothing, are left out.
pub mod Passed
use virmux.Prelude.{
  if◌then◌else◌, Result, ok, err, String, Bool, not, ◌||◌, Option, none, some, List, [], ◌∷◌,
  str_eq,
}

-- internal/store: the fields of `EvalRun` that are read.
pub record EvalRun (Real : Type 0) : Type 0 where
  pub id : String
  pub skill : String
  pub base_ref : String
  pub head_ref : String
  pub fail_rate_delta : Real
  pub pass : Bool
  pub verdict_json : String
  pub verdict_sha256 : String

pub record VerdictDoc : Type 0 where
  pub pass : Bool
  pub verdict_pass : Bool
  pub hard : List (String × Bool)

pub data GateError : Type 0 where
  judge_invalid : String → GateError
  hard_gate_failed : String → GateError
  fail_rate_grew not_passed : GateError

-- The first hard gate that did not pass.
failed_gate : List (String × Bool) → Option String
failed_gate [] = none
failed_gate ((gate, pass) ∷ gates) = if pass then failed_gate gates else some gate

module _ {Real : Type 0} (is_positive : Real → Bool)
    (unmarshal : String → Result String VerdictDoc) where
  parse_verdict : String → Result String VerdictDoc
  parse_verdict raw = if str_eq raw "" then err "empty verdict json" else unmarshal raw

  -- The gates behind the parsed verdict.
  judge_doc : EvalRun Real → VerdictDoc → Option GateError
  unfolding failed_gate
  judge_doc run doc = elim (failed_gate doc.hard) [
    | some gate ↦ some (hard_gate_failed gate)
    | none ↦
        if is_positive run.fail_rate_delta
        then some fail_rate_grew
        else if not run.pass || not (doc.pass || doc.verdict_pass)
        then some not_passed
        else none
  ]

  -- `none` is a verdict that passes.
  unfoldable pub gate_eval : EvalRun Real → Option GateError
  unfolding parse_verdict judge_doc
  gate_eval run = elim (parse_verdict run.verdict_json) [
    | err e ↦ some (judge_invalid e)
    | ok doc ↦ judge_doc run doc
  ]
