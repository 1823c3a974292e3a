-- ===== src/Database/Sound.antt =====
-- internal/store/store.go: every method keeps the database sound.
use virmux.Prelude.{
  ==_iff, Result, ok, err, All, ℤ, pos, suc, String, ◌≡◌, refl, sym, ◌∙◌, subst, none, List, [],
  ◌∷◌, arith, ok-injective, result_ind,
}
use virmux.Database.Rows.{
  Ending, Row, foreign_keys, table, primary_key, Foreign, Key, text, number, null, evidence_row,
  artifact_row, event_row, tool_call_row, slack_event_row, row_evidence_row, eval_run_row,
}
use virmux.Database.Engine.{
  DbError, Clock, null_column, missing_parent, is_there, evidence_count, finish_run, insert_row,
}
use virmux.Database.Structs.{Evidence}
use virmux.Database.Runs.{
  with_id, evidence_columns, run_values, insert_artifact, insert_tool_call, insert_row_evidence,
  start_run, insert_evidence, insert_event, insert_slack_event,
}
use virmux.Database.Inserts.{
  score_values, judge_run_values, eval_run_columns, eval_case_values, promotion_values,
  refine_run_values, suggest_run_values, canary_run_values, experiment_values, comparison_values,
  insert_score, insert_judge_run, insert_eval_run, insert_eval_case, insert_promotion,
  insert_refine_run, insert_suggest_run, insert_canary_run, insert_experiment, insert_comparison,
}
use virmux.Database.Session.{
  Write, starting, finishing, an_artifact, an_event, a_tool_call, a_slack_event, a_score,
  a_judge_run, an_eval_run, an_eval_case, a_promotion, a_refine_run, a_suggest_run, a_canary_run,
  an_evidence, a_row_evidence, an_experiment, a_comparison, call, calls, without_id,
}
use virmux.Database.Integrity.{
  IsUnique, IsSound, insert_row-IsSound, insert_row_keeps, finish_row-table, has_key-finish_run,
}

pub without_id-with_id {ℓ} :
    {A : Type ℓ} (id : ℤ) (x : Result DbError A) → without_id (with_id id x) ≡ x
without_id-with_id id (ok rows) = refl
without_id-with_id id (err e) = refl

module _ {Real : Type 0} (id : String) (o : Ending Real) where
  evidence_count-finish_run :
      (db : List (Row Real)) → evidence_count (finish_run id o db) ≡ evidence_count db
  unfolding finish_run
  evidence_count-finish_run [] = refl
  evidence_count-finish_run (x ∷ xs) =
      let same = finish_row-table id o x in ground (arith, same, evidence_count-finish_run xs)

  IsUnique-finish_run : (db : List (Row Real)) → IsUnique db → IsUnique (finish_run id o db)
  unfolding finish_run
  IsUnique-finish_run [] u = tt
  IsUnique-finish_run (x ∷ xs) u =
      let same = finish_row-table id o x in
      (
        ground (arith, same, u.0, has_key-finish_run id o (table x) (primary_key x) xs),
        IsUnique-finish_run xs u.1,
      )

  missing_parent-finish_run :
      (db : List (Row Real)) (fs : List Foreign)
      → missing_parent (finish_run id o db) fs ≡ missing_parent db fs
  missing_parent-finish_run db [] = refl
  missing_parent-finish_run db (f ∷ fs) =
      ground (arith, there f.references f.key, missing_parent-finish_run db fs)
    where
      there : (t : String) (k : Key) → is_there t k (finish_run id o db) ≡ is_there t k db
      there t null = refl
      there t (text s) = has_key-finish_run id o t (text s) db
      there t (number n) = has_key-finish_run id o t (number n) db

  -- A property of the references of each row.
  All-finish_run :
      (P Q : List Foreign → Type 0)
      → ((fs : List Foreign) → P fs → Q fs)
      → (db : List (Row Real)) → All (λ row. P (foreign_keys row)) db
      → All (λ row. Q (foreign_keys row)) (finish_run id o db)
  unfolding finish_run
  All-finish_run P Q imp [] h = tt
  All-finish_run P Q imp (x ∷ xs) h = (
    subst Q (sym (finish_row-table id o x).2) (imp (foreign_keys x) h.0),
    All-finish_run P Q imp xs h.1,
  )

  finish_run-IsSound : (db : List (Row Real)) → IsSound db → IsSound (finish_run id o db)
  finish_run-IsSound db s = record {
    unique = IsUnique-finish_run db s.unique;
    not_null =
        All-finish_run (λ fs. null_column fs ≡ none) (λ fs. null_column fs ≡ none) (λ fs q. q) db
          s.not_null;
    referred =
        All-finish_run (λ fs. missing_parent db fs ≡ none)
          (λ fs. missing_parent (finish_run id o db) fs ≡ none)
          (λ fs q. missing_parent-finish_run db fs ∙ q) db s.referred;
    numbered = λ n q. ground (
      arith,
      q,
      s.numbered n,
      has_key-finish_run id o "evidence" (number (pos n)) db,
      evidence_count-finish_run db,
    );
  }

module _ {Real Time : Type 0} (clock : Clock Time) where
  insert_evidence-IsSound :
      (now : Time) (r : Evidence Real Time) (db after : List (Row Real))
      → IsSound db
      → call clock now (an_evidence r) db ≡ ok after
      → IsSound after
  unfolding call insert_evidence
  insert_evidence-IsSound now r db after s h =
      let id = pos (suc (evidence_count db)) in
      let row = evidence_row id (evidence_columns clock r) in
      insert_row-IsSound row db after (λ n e. ground (arith, e, ==_iff n)) s
        (sym (without_id-with_id id (insert_row row db)) ∙ h)

  pub call-IsSound :
      (now : Time) (w : Write Real Time) (db after : List (Row Real))
      → IsSound db
      → call clock now w db ≡ ok after
      → IsSound after
  unfolding call start_run insert_artifact insert_event insert_tool_call insert_slack_event
      insert_score insert_judge_run insert_eval_run insert_eval_case insert_promotion
      insert_refine_run insert_suggest_run insert_canary_run insert_evidence insert_row_evidence
      insert_experiment insert_comparison
  call-IsSound now (starting r) db after s h = insert_row_keeps (run_values clock r) refl s h
  call-IsSound now (finishing id o) db after s h =
      subst IsSound (ok-injective h) (finish_run-IsSound id o db s)
  call-IsSound now (an_artifact run path sha256 size) db after s h =
      insert_row_keeps (artifact_row run path sha256 size) refl s h
  call-IsSound now (an_event run kind payload ts) db after s h =
      insert_row_keeps (event_row run (clock.format ts) kind payload) refl s h
  call-IsSound now (a_tool_call c) db after s h = insert_row_keeps (tool_call_row c) refl s h
  call-IsSound now (a_slack_event kind payload ts) db after s h =
      insert_row_keeps (slack_event_row (clock.format ts) kind payload) refl s h
  call-IsSound now (a_score r) db after s h = insert_row_keeps (score_values clock now r) refl s h
  call-IsSound now (a_judge_run r) db after s h =
      insert_row_keeps (judge_run_values clock now r) refl s h
  call-IsSound now (an_eval_run r) db after s h =
      insert_row_keeps (eval_run_row (eval_run_columns clock now r)) refl s h
  call-IsSound now (an_eval_case r) db after s h =
      insert_row_keeps (eval_case_values clock now r) refl s h
  call-IsSound now (a_promotion r) db after s h =
      insert_row_keeps (promotion_values clock now r) refl s h
  call-IsSound now (a_refine_run r) db after s h =
      insert_row_keeps (refine_run_values clock now r) refl s h
  call-IsSound now (a_suggest_run r) db after s h =
      insert_row_keeps (suggest_run_values clock now r) refl s h
  call-IsSound now (a_canary_run r) db after s h =
      insert_row_keeps (canary_run_values clock now r) refl s h
  call-IsSound now (an_evidence r) db after s h = insert_evidence-IsSound now r db after s h
  call-IsSound now (a_row_evidence r) db after s h = insert_row_keeps (row_evidence_row r) refl s h
  call-IsSound now (an_experiment r) db after s h =
      insert_row_keeps (experiment_values clock now r) refl s h
  call-IsSound now (a_comparison r) db after s h =
      insert_row_keeps (comparison_values clock now r) refl s h

  -- The invariant: from an empty database, whatever methods are called.
  pub calls-IsSound :
      (ws : List (Time × Write Real Time)) (db : List (Row Real))
      → IsSound db
      → IsSound (calls clock ws db)
  unfolding calls
  calls-IsSound [] db s = s
  calls-IsSound ((now, w) ∷ ws) db s =
      result_ind IsSound (call clock now w db) (λ e q. calls-IsSound ws db s)
        (λ after q. calls-IsSound ws after (call-IsSound now w db after s q))
