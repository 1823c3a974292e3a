-- ===== src/Skill/Judge/Evaluate.antt =====
-- internal/skill/judge/judge.go, `Evaluate`: a run's score, criterion by criterion.
-- `cfg_hash` is SHA-256 of the configuration in JSON and `decimals` the format %.2f.
pub mod Judged
use Prim.Native.String.{◌++◌ as concat}
use virmux.Prelude.{
  if◌then◌else◌, Result, ok, zero, String, Bool, true, not, ◌&&◌, List, [], ◌∷◌, ◌++◌, str_eq,
  text_leb, ◌>>=◌, sort_texts, dedupe_sorted,
}
use virmux.Trace.{Entry as TraceEntry}
use virmux.Skill.Judge.Rubric.{Floats, Criterion, Rubric}
use virmux.Skill.Judge.Metrics.{RunFiles, Evidence, Paths, Metrics, JudgeError, collect_metrics}

pub record CriterionScore (Real : Type 0) : Type 0 where
  pub id : String
  pub weight : Real
  pub value : Real
  pub pass : Bool
  pub must : Bool
  pub reason : String

pub record Judgement (Real : Type 0) : Type 0 where
  pub run_id : String
  pub skill : String
  pub score : Real
  pub pass : Bool
  pub critique : List String
  pub criterion : List (CriterionScore Real)
  pub rubric_hash : String
  pub judge_cfg_hash : String
  pub artifact_hash : String
  pub model_id : String
  pub mode : String

abbrev pub insert_criterion :
    {Real : Type 0} → Criterion Real → List (Criterion Real) → List (Criterion Real)
insert_criterion c [] = c ∷ []
insert_criterion c (d ∷ ds) =
    let rest = insert_criterion c ds in if text_leb c.id d.id then c ∷ d ∷ ds else d ∷ rest

abbrev pub sort_criteria : {Real : Type 0} → List (Criterion Real) → List (Criterion Real)
sort_criteria [] = []
sort_criteria (c ∷ cs) = insert_criterion c (sort_criteria cs)

abbrev pub canonical_rubric : {Real : Type 0} → Rubric Real → Rubric Real
canonical_rubric r = record r { criteria = sort_criteria r.criteria }

abbrev pub dedupe : List String → List String
dedupe ss = dedupe_sorted (sort_texts ss)

module _ {Real : Type 0} (f : Floats Real) (decimals : Real → String) where
  -- metric[id], which is 0 for an ID that is no metric.
  abbrev pub metric : Metrics Real → String → Real
  metric m id =
      if str_eq id "format"
      then m.format
      else if str_eq id "completeness"
      then m.completeness
      else if str_eq id "actionability"
      then m.actionability
      else f.zero

  abbrev pub passes : Metrics Real → Criterion Real → Bool
  passes m c = f.at_most c.threshold (metric m c.id)

  abbrev pub reason_of : Criterion Real → String
  reason_of c = concat c.id (concat " below threshold " (decimals c.threshold))

  -- The state of the loop.
  record Progress : Type 0 where
    score : Real
    must_ok : Bool
    critique : List String
    criterion : List (CriterionScore Real)

  judge_criterion : Metrics Real → Criterion Real → Progress → Progress
  judge_criterion m c p =
      let pass = passes m c in
      record {
        score = f.add p.score (f.mul c.w (metric m c.id));
        must_ok = p.must_ok && not (c.must && not pass);
        critique = p.critique ++ (if pass then [] else reason_of c ∷ []);
        criterion =
            p.criterion
            ++ record {
              id = c.id;
              weight = c.w;
              value = metric m c.id;
              pass = pass;
              must = c.must;
              reason = if pass then "" else reason_of c;
            }
              ∷ [];
      }

  judge_criteria : Metrics Real → List (Criterion Real) → Progress → Progress
  unfolding judge_criterion
  judge_criteria m [] p = p
  judge_criteria m (c ∷ cs) p = judge_criteria m cs (judge_criterion m c p)

  -- `Evaluate` behind `collectMetrics`.
  unfoldable pub judge :
      (Rubric Real → String → String → String)
      → Rubric Real
      → String
      → Evidence
      → Metrics Real
      → String
      → List String
      → Judgement Real
  unfolding judge_criteria
  judge cfg_hash r rubric_hash ev m artifact_hash reasons =
      let p =
        judge_criteria m r.criteria
          (record { score = f.zero; must_ok = true; critique = reasons; criterion = [] }) in
      record {
        run_id = ev.run_id;
        skill = ev.skill;
        score = p.score;
        pass = f.at_most r.pass p.score && p.must_ok;
        critique = dedupe (sort_texts p.critique);
        criterion = p.criterion;
        rubric_hash = rubric_hash;
        judge_cfg_hash = cfg_hash (canonical_rubric r) ev.mode ev.model_id;
        artifact_hash = artifact_hash;
        model_id = ev.model_id;
        mode = ev.mode;
      }

  unfoldable pub evaluate :
      Paths
      → (String → String)
      → (String → Result String TraceEntry)
      → (Rubric Real → String → String → String)
      → RunFiles
      → Rubric Real
      → String
      → Evidence
      → Result JudgeError (Judgement Real)
  unfolding judge collect_metrics
  evaluate paths sha256 unmarshal cfg_hash files r rubric_hash ev =
      collect_metrics f paths sha256 unmarshal files ev >>= λ (m, artifact_hash, reasons).
      ok (judge cfg_hash r rubric_hash ev m artifact_hash reasons)
