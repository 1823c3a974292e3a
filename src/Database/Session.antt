-- ===== src/Database/Session.antt =====
-- internal/store/store.go: the writing methods of `Store` as one type, and any sequence of calls.
use virmux.Prelude.{Result, ok, err, ℤ, String, List, [], ◌∷◌}
use virmux.Database.Structs.{
  Run, ToolCall, Score, JudgeRun, EvalRun, EvalCase, Experiment, Comparison, Promotion, RefineRun,
  SuggestRun, CanaryRun, Evidence, RowEvidence,
}
use virmux.Database.Rows.{Ending, Row}
use virmux.Database.Engine.{DbError, Clock, finish_run}
use virmux.Database.Runs.{
  insert_artifact, insert_tool_call, insert_row_evidence, start_run, insert_evidence, insert_event,
  insert_slack_event,
}
use virmux.Database.Inserts.{
  insert_score, insert_judge_run, insert_eval_run, insert_eval_case, insert_promotion,
  insert_refine_run, insert_suggest_run, insert_canary_run, insert_experiment, insert_comparison,
}

pub data Write (Real Time : Type 0) : Type 0 where
  starting : Run Real Time → Write Real Time
  finishing : String → Ending Real → Write Real Time
  an_artifact : String → String → String → ℤ → Write Real Time
  an_event : String → String → String → Time → Write Real Time
  a_tool_call : ToolCall → Write Real Time
  a_slack_event : String → String → Time → Write Real Time
  a_score : Score Real Time → Write Real Time
  a_judge_run : JudgeRun Real Time → Write Real Time
  an_eval_run : EvalRun Real Time → Write Real Time
  an_eval_case : EvalCase Real Time → Write Real Time
  a_promotion : Promotion String Time → Write Real Time
  a_refine_run : RefineRun Time → Write Real Time
  a_suggest_run : SuggestRun String Time → Write Real Time
  a_canary_run : CanaryRun String Time → Write Real Time
  an_evidence : Evidence Real Time → Write Real Time
  a_row_evidence : RowEvidence → Write Real Time
  an_experiment : Experiment String Time → Write Real Time
  a_comparison : Comparison Time → Write Real Time

-- The ID that `InsertEvidence` gives.
abbrev pub without_id {ℓ} : {A : Type ℓ} → Result DbError (A × ℤ) → Result DbError A
without_id (ok (a, id)) = ok a
without_id (err e) = err e

module _ {Real Time : Type 0} (clock : Clock Time) where
  -- A call at the time `now`.
  unfoldable pub call : Time → Write Real Time → List (Row Real) → Result DbError (List (Row Real))
  unfolding start_run finish_run insert_artifact insert_event insert_tool_call insert_slack_event
      insert_score insert_judge_run insert_eval_run insert_eval_case insert_promotion
      insert_refine_run insert_suggest_run insert_canary_run insert_evidence insert_row_evidence
      insert_experiment insert_comparison
  call now (starting r) db = start_run clock r db
  call now (finishing id o) db = ok (finish_run id o db)
  call now (an_artifact run path sha256 size) db = insert_artifact run path sha256 size db
  call now (an_event run kind payload ts) db = insert_event clock run kind payload ts db
  call now (a_tool_call c) db = insert_tool_call c db
  call now (a_slack_event kind payload ts) db = insert_slack_event clock kind payload ts db
  call now (a_score r) db = insert_score clock now r db
  call now (a_judge_run r) db = insert_judge_run clock now r db
  call now (an_eval_run r) db = insert_eval_run clock now r db
  call now (an_eval_case r) db = insert_eval_case clock now r db
  call now (a_promotion r) db = insert_promotion clock now r db
  call now (a_refine_run r) db = insert_refine_run clock now r db
  call now (a_suggest_run r) db = insert_suggest_run clock now r db
  call now (a_canary_run r) db = insert_canary_run clock now r db
  call now (an_evidence r) db = without_id (insert_evidence clock r db)
  call now (a_row_evidence r) db = insert_row_evidence r db
  call now (an_experiment r) db = insert_experiment clock now r db
  call now (a_comparison r) db = insert_comparison clock now r db

  -- A call that is refused leaves the database as it was.
  unfoldable pub calls : List (Time × Write Real Time) → List (Row Real) → List (Row Real)
  unfolding call
  calls [] db = db
  calls ((now, w) ∷ ws) db = elim (call now w db) [
    | err e ↦ calls ws db
    | ok after ↦ calls ws after
  ]
