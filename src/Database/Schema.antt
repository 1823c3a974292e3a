-- ===== src/Database/Schema.antt =====
-- internal/store/store.go: the database after any calls, by what the tables hold.
pub mod Whole
use virmux.Prelude.{
  All, ℤ, elem, IsDistinct, String, ◌≡◌, Bool, true, false, ◌||◌, Option, none, some, List, [], ◌∷◌,
  int_eq,
}
use virmux.Database.Structs.{CanaryRun}
use virmux.Database.Rows.{
  Row, run_row, event_row, slack_event_row, artifact_row, tool_call_row, score_row, judge_run_row,
  eval_run_row, eval_case_row, promotion_row, refine_run_row, suggest_run_row, experiment_row,
  comparison_row, evidence_row, row_evidence_row, canary_run_row, text, number, table, primary_key,
  foreign_keys, null_text, to, to_null,
}
use virmux.Database.Engine.{Clock, is_at, has_key, missing_parent, null_column}
use virmux.Database.Session.{Write, calls}
use virmux.Database.Integrity.{IsUnique, IsSound}
use virmux.Database.Sound.{calls-IsSound}

module _ {Real : Type 0} where
  abbrev pub run_of : Row Real → Option String
  run_of (run_row r o) = some r.id
  run_of _ = none

  abbrev pub eval_run_of : Row Real → Option String
  eval_run_of (eval_run_row r) = some r.id
  eval_run_of _ = none

  abbrev pub experiment_of : Row Real → Option String
  experiment_of (experiment_row r) = some r.id
  experiment_of _ = none

  abbrev pub promotion_of : Row Real → Option String
  promotion_of (promotion_row r) = some r.id
  promotion_of _ = none

  abbrev pub refine_run_of : Row Real → Option String
  refine_run_of (refine_run_row r) = some r.id
  refine_run_of _ = none

  abbrev pub suggest_run_of : Row Real → Option String
  suggest_run_of (suggest_run_row r) = some r.id
  suggest_run_of _ = none

  abbrev pub canary_run_of : Row Real → Option String
  canary_run_of (canary_run_row r) = some r.id
  canary_run_of _ = none

  -- The IDs of the rows that `f` gives one for.
  abbrev pub ids : (Row Real → Option String) → List (Row Real) → List String
  ids f [] = []
  ids f (row ∷ rows) = let rest = ids f rows in elim (f row) [ none ↦ rest | some id ↦ id ∷ rest ]

  abbrev pub has_evidence : ℤ → List (Row Real) → Bool
  has_evidence n [] = false
  has_evidence n (evidence_row id r ∷ rows) = int_eq id n || has_evidence n rows
  has_evidence n (_ ∷ rows) = has_evidence n rows

  abbrev pub EvidenceOnce : List (Row Real) → Type 0
  EvidenceOnce [] = Unit
  EvidenceOnce (evidence_row id r ∷ rows) = (has_evidence id rows ≡ false) × EvidenceOnce rows
  EvidenceOnce (_ ∷ rows) = EvidenceOnce rows

  module _ (db : List (Row Real)) where
    abbrev pub HasRun : String → Type 0
    HasRun id = elem id (ids run_of db) ≡ true

    abbrev pub HasEvalRun : String → Type 0
    HasEvalRun id = elem id (ids eval_run_of db) ≡ true

    abbrev pub HasEvalRunIfGiven : Option String → Type 0
    HasEvalRunIfGiven none = Unit
    HasEvalRunIfGiven (some id) = HasEvalRun id

    -- What a row refers to is there.
    abbrev pub Refers : Row Real → Type 0
    Refers (run_row r o) = Unit
    Refers (event_row run ts kind payload) = HasRun run
    Refers (slack_event_row ts kind payload) = Unit
    Refers (artifact_row run path sha256 size) = HasRun run
    Refers (tool_call_row c) = HasRun c.run_id
    Refers (score_row r) = HasRun r.run_id
    Refers (judge_run_row r) = HasRun r.run_id
    Refers (eval_run_row r) = Unit
    Refers (eval_case_row r) = HasEvalRun r.eval_run_id
    Refers (promotion_row r) = HasEvalRunIfGiven r.eval_run_id
    Refers (refine_run_row r) = HasRun r.run_id
    Refers (suggest_run_row r) = HasEvalRunIfGiven r.eval_run_id
    Refers (experiment_row r) = HasEvalRunIfGiven r.eval_run_id
    Refers (comparison_row r) = elem r.experiment_id (ids experiment_of db) ≡ true
    Refers (evidence_row id r) = HasRun r.run_id
    Refers (row_evidence_row r) = HasRun r.run_id × (has_evidence r.evidence_id db ≡ true)
    Refers (canary_run_row r) =
        HasEvalRun r.eval_run_id
        × ((id : String) × (r.curated_eval_run_id ≡ some id) × HasEvalRun id)

  -- In each table that has a key no ID stands twice, and all references are met.
  pub record IsWhole (db : List (Row Real)) : Type 0 where
    pub runs : IsDistinct (ids run_of db)
    pub eval_runs : IsDistinct (ids eval_run_of db)
    pub experiments : IsDistinct (ids experiment_of db)
    pub promotions : IsDistinct (ids promotion_of db)
    pub refine_runs : IsDistinct (ids refine_run_of db)
    pub suggest_runs : IsDistinct (ids suggest_run_of db)
    pub canary_runs : IsDistinct (ids canary_run_of db)
    pub evidence : EvidenceOnce db
    pub references : All (Refers db) db
