-- ===== src/Database/Lookup.antt =====
-- internal/store/store.go: an evaluation that was stored is read back, whatever is written behind it.
use mathlib.Core.Option.{map as option_map}
use virmux.Prelude.{
  ok, pos, suc, String, ◌≡◌, refl, sym, ap, ◌∙◌, ◌⊎◌, inl, inr, false, some, List, [], ◌∷◌, ◌++◌,
  arith, eq_iff, ok-injective, result_ind,
}
use virmux.Database.Structs.{EvalRun}
use virmux.Database.Rows.{
  Ending, Row, run_row, artifact_row, event_row, tool_call_row, slack_event_row, row_evidence_row,
  eval_run_row, evidence_row, EvalRunRow, text,
}
use virmux.Database.Engine.{Clock, insert_row, finish_run, has_key, stamp, evidence_count}
use virmux.Database.Runs.{
  evidence_columns, run_values, insert_artifact, insert_tool_call, insert_row_evidence, start_run,
  insert_evidence, insert_event, insert_slack_event,
}
use virmux.Database.Inserts.{
  score_values, judge_run_values, eval_run_columns, eval_case_values, promotion_values,
  refine_run_values, suggest_run_values, canary_run_values, experiment_values, comparison_values,
  insert_score, insert_judge_run, insert_eval_run, insert_eval_case, insert_promotion,
  insert_refine_run, insert_suggest_run, insert_canary_run, insert_experiment, insert_comparison,
}
use virmux.Database.Session.{
  Write, starting, finishing, an_artifact, an_event, a_tool_call, a_slack_event, a_score,
  a_judge_run, an_eval_run, an_eval_case, a_promotion, a_refine_run, a_suggest_run, a_canary_run,
  an_evidence, a_row_evidence, an_experiment, a_comparison, call, calls,
}
use virmux.Database.Reads.{find_eval_run, get_eval_run, scanned}
use virmux.Database.Integrity.{insert_row-IsInserted}
use virmux.Database.Sound.{without_id-with_id}

module _ {Real : Type 0} where
  -- A call that is not refused appends a row or ends a run.
  pub Written : List (Row Real) → List (Row Real) → Type 0
  Written db after =
      ((row : Row Real) × (after ≡ db ++ row ∷ []))
      ⊎ ((id : String) × (o : Ending Real) × (after ≡ finish_run id o db))

  appended :
      (row : Row Real) (db after : List (Row Real))
      → insert_row row db ≡ ok after
      → Written db after
  unfolding Written
  appended row db after h = inl (row, (insert_row-IsInserted row db after h).appended)

module _ {Real Time : Type 0} (clock : Clock Time) where
  call_cases :
      (now : Time) (w : Write Real Time) (db after : List (Row Real))
      → call clock now w db ≡ ok after
      → Written db after
  unfolding Written call start_run insert_artifact insert_event insert_tool_call insert_slack_event
      insert_score insert_judge_run insert_eval_run insert_eval_case insert_promotion
      insert_refine_run insert_suggest_run insert_canary_run insert_evidence insert_row_evidence
      insert_experiment insert_comparison
  call_cases now (starting r) db after h = appended (run_values clock r) db after h
  call_cases now (an_artifact run path sha256 size) db after h =
      appended (artifact_row run path sha256 size) db after h
  call_cases now (an_event run kind payload ts) db after h =
      appended (event_row run (clock.format ts) kind payload) db after h
  call_cases now (a_tool_call c) db after h = appended (tool_call_row c) db after h
  call_cases now (a_slack_event kind payload ts) db after h =
      appended (slack_event_row (clock.format ts) kind payload) db after h
  call_cases now (a_score r) db after h = appended (score_values clock now r) db after h
  call_cases now (a_judge_run r) db after h = appended (judge_run_values clock now r) db after h
  call_cases now (an_eval_run r) db after h =
      appended (eval_run_row (eval_run_columns clock now r)) db after h
  call_cases now (an_eval_case r) db after h = appended (eval_case_values clock now r) db after h
  call_cases now (a_promotion r) db after h = appended (promotion_values clock now r) db after h
  call_cases now (a_refine_run r) db after h = appended (refine_run_values clock now r) db after h
  call_cases now (a_suggest_run r) db after h = appended (suggest_run_values clock now r) db after h
  call_cases now (a_canary_run r) db after h = appended (canary_run_values clock now r) db after h
  call_cases now (a_row_evidence r) db after h = appended (row_evidence_row r) db after h
  call_cases now (an_experiment r) db after h = appended (experiment_values clock now r) db after h
  call_cases now (a_comparison r) db after h = appended (comparison_values clock now r) db after h
  call_cases now (an_evidence r) db after h =
      let id = pos (suc (evidence_count db)) in
      let row = evidence_row id (evidence_columns clock r) in
      appended row db after (sym (without_id-with_id id (insert_row row db)) ∙ h)
  call_cases now (finishing id o) db after h = inr (id, o, ok-injective (sym h))

module _ {Real : Type 0} (id : String) where
  find_eval_run-append :
      (e : EvalRunRow Real) (db rows : List (Row Real))
      → find_eval_run id db ≡ some e
      → find_eval_run id (db ++ rows) ≡ some e
  find_eval_run-append e [] rows h = absurd (cc h)
  find_eval_run-append e (eval_run_row r ∷ db) rows h =
      ground (arith, find_eval_run-append e db rows)
  find_eval_run-append e (_ ∷ db) rows h = find_eval_run-append e db rows h

  find_eval_run-finish_run :
      (run : String) (o : Ending Real) (db : List (Row Real))
      → find_eval_run id (finish_run run o db) ≡ find_eval_run id db
  unfolding finish_run
  find_eval_run-finish_run run o [] = refl
  find_eval_run-finish_run run o (eval_run_row r ∷ db) =
      ground (arith, find_eval_run-finish_run run o db)
  find_eval_run-finish_run run o (run_row r p ∷ db) =
      ground (arith, find_eval_run-finish_run run o db)
  find_eval_run-finish_run run o (_ ∷ db) = find_eval_run-finish_run run o db

  find_eval_run_kept :
      (e : EvalRunRow Real) (db after : List (Row Real))
      → Written db after
      → find_eval_run id db ≡ some e
      → find_eval_run id after ≡ some e
  unfolding Written
  find_eval_run_kept e db after (inl (row, q)) h = rw q (find_eval_run-append e db (row ∷ []) h)
  find_eval_run_kept e db after (inr (run, o, q)) h = rw q (find_eval_run-finish_run run o db ∙ h)

  -- What a row that was appended gives, where no row had the ID.
  find_eval_run-appended :
      (e : EvalRunRow Real) (db : List (Row Real))
      → e.id ≡ id
      → has_key "eval_runs" (text id) db ≡ false
      → find_eval_run id (db ++ eval_run_row e ∷ []) ≡ some e
  find_eval_run-appended e [] same h = ground (arith, eq_iff e.id id)
  find_eval_run-appended e (eval_run_row r ∷ db) same h =
      ground (arith, find_eval_run-appended e db same)
  find_eval_run-appended e (_ ∷ db) same h = find_eval_run-appended e db same h

module _ {Real Time : Type 0} (clock : Clock Time) where
  find_eval_run-calls :
      (id : String) (e : EvalRunRow Real) (ws : List (Time × Write Real Time))
      (db : List (Row Real))
      → find_eval_run id db ≡ some e
      → find_eval_run id (calls clock ws db) ≡ some e
  unfolding calls
  find_eval_run-calls id e [] db h = h
  find_eval_run-calls id e ((now, w) ∷ ws) db h =
      result_ind (λ rows. find_eval_run id rows ≡ some e) (call clock now w db)
        (λ x q. find_eval_run-calls id e ws db h)
        (λ after q.
          find_eval_run-calls id e ws after
            (find_eval_run_kept id e db after (call_cases clock now w db after q) h))

  -- `GetEvalRun` gives back what `InsertEvalRun` stored, after any further calls: the evaluation
  -- with its time as stored and parsed, and its three P90 scores, which have no column, at zero.
  pub get_eval_run-insert_eval_run :
      (zero_real : Real) (now : Time) (r : EvalRun Real Time) (db after : List (Row Real))
      (ws : List (Time × Write Real Time))
      → insert_eval_run clock now r db ≡ ok after
      → get_eval_run clock zero_real r.id (calls clock ws after)
        ≡ some (record r {
          score_p90_base = zero_real;
          score_p90_head = zero_real;
          score_p90_delta = zero_real;
          created_at = clock.parse (stamp clock now r.created_at);
        })
  unfolding insert_eval_run get_eval_run
  get_eval_run-insert_eval_run zero_real now r db after ws h =
      let e = eval_run_columns clock now r in
      let i = insert_row-IsInserted (eval_run_row e) db after h in
      let found : find_eval_run r.id after ≡ some e =
        rw i.appended (find_eval_run-appended r.id e db refl i.fresh) in
      ap (option_map (scanned clock zero_real)) (find_eval_run-calls r.id e ws after found)
