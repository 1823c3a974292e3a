-- ===== src/Skill/Judge/Evaluate/Judged.antt =====
-- internal/skill/judge/judge.go, `Evaluate`: what a judgement says.
use virmux.Prelude.{
  if◌then◌else◌, Result, ok, All, elem, IsDistinct, String, ◌≡◌, refl, ◌∙◌, subst, ◌↔◌, inl, inr,
  true, ◌||◌, List, [], ◌∷◌, ◌++◌, arith, Result-cases, sort_texts, IsSorted, sort_texts-IsSorted,
  elem-sort_texts, elem-dedupe_sorted, dedupe_sorted-IsSorted, dedupe_sorted-IsDistinct,
}
use virmux.Skill.Judge.Rubric.{Floats, Criterion, Rubric}
use virmux.Skill.Judge.Metrics.{RunFiles, Evidence, Paths, Metrics, collect_metrics}
use virmux.Trace.{Entry as TraceEntry}
use virmux.Skill.Judge.Evaluate.{
  Judgement, dedupe, metric, passes, reason_of, Progress, judge_criterion, judge_criteria, judge,
  evaluate,
}

module _ {Real : Type 0} (f : Floats Real) (decimals : Real → String) (m : Metrics Real) where
  -- The reasons of the criteria below their thresholds.
  abbrev pub complaints : List (Criterion Real) → List String
  complaints [] = []
  complaints (c ∷ cs) =
      let rest = complaints cs in
      if passes f decimals m c then rest else reason_of f decimals c ∷ rest

  abbrev pub weighted : Real → List (Criterion Real) → Real
  weighted sum [] = sum
  weighted sum (c ∷ cs) = weighted (f.add sum (f.mul c.w (metric f decimals m c.id))) cs

  -- Every criterion that must pass does.
  abbrev pub MustsPass : List (Criterion Real) → Type 0
  MustsPass = All (λ c. c.must ≡ true → passes f decimals m c ≡ true)

  elem-append : (x : String) (xs ys : List String) → elem x (xs ++ ys) ≡ (elem x xs || elem x ys)
  elem-append x [] ys = refl
  elem-append x (y ∷ xs) ys = ground (arith, elem-append x xs ys)

  elem-critique :
      (x : String) (cs : List (Criterion Real)) (p : Progress f decimals)
      → elem x (judge_criteria f decimals m cs p).critique
        ≡ (elem x p.critique || elem x (complaints cs))
  unfolding judge_criteria judge_criterion
  elem-critique x [] p = ground arith
  elem-critique x (c ∷ cs) p = ground (
    arith,
    elem-critique x cs (judge_criterion f decimals m c p),
    elem-append x p.critique (if passes f decimals m c then [] else reason_of f decimals c ∷ []),
  )

  musts :
      (cs : List (Criterion Real)) (p : Progress f decimals)
      → ((judge_criteria f decimals m cs p).must_ok ≡ true) ↔ ((p.must_ok ≡ true) × MustsPass cs)
  unfolding judge_criteria judge_criterion
  musts [] p = (λ h. (h, tt), λ h. h.0)
  musts (c ∷ cs) p = ground (arith, musts cs (judge_criterion f decimals m c p))

  scored :
      (cs : List (Criterion Real)) (p : Progress f decimals)
      → (judge_criteria f decimals m cs p).score ≡ weighted p.score cs
  unfolding judge_criteria judge_criterion
  scored [] p = refl
  scored (c ∷ cs) p = scored cs (judge_criterion f decimals m c p)

  -- What a judgement promises, of a rubric and the complaints about the run.
  pub record IsJudged (r : Rubric Real) (reasons : List String) (j : Judgement Real) : Type 0 where
    pub score_lem : j.score ≡ weighted f.zero r.criteria
    pub pass_iff : (j.pass ≡ true) ↔ ((f.at_most r.pass j.score ≡ true) × MustsPass r.criteria)
    pub sorted : IsSorted j.critique
    pub each_once : IsDistinct j.critique
    pub complete :
        (x : String) → elem x j.critique ≡ (elem x reasons || elem x (complaints r.criteria))

  dedupe_lem : (x : String) (ss : List String) → elem x (dedupe (sort_texts ss)) ≡ elem x ss
  dedupe_lem x ss =
      elem-dedupe_sorted x (sort_texts (sort_texts ss))
      ∙ elem-sort_texts x (sort_texts ss)
      ∙ elem-sort_texts x ss

  judge-IsJudged :
      (cfg_hash : Rubric Real → String → String → String) (r : Rubric Real) (rubric_hash : String)
      (ev : Evidence) (artifact_hash : String) (reasons : List String)
      → IsJudged r reasons (judge f decimals cfg_hash r rubric_hash ev m artifact_hash reasons)
  unfolding judge
  judge-IsJudged cfg_hash r rubric_hash ev artifact_hash reasons =
      let p : Progress f decimals = record {
        score = f.zero;
        must_ok = true;
        critique = reasons;
        criterion = [];
      } in
      let all = (judge_criteria f decimals m r.criteria p).critique in
      record {
        score_lem = scored r.criteria p;
        pass_iff = ground (arith, musts r.criteria p);
        sorted =
            dedupe_sorted-IsSorted (sort_texts (sort_texts all))
              (sort_texts-IsSorted (sort_texts all));
        each_once =
            dedupe_sorted-IsDistinct (sort_texts (sort_texts all))
              (sort_texts-IsSorted (sort_texts all));
        complete = λ x. dedupe_lem x all ∙ elem-critique x r.criteria p;
      }

module _ {Real : Type 0} (f : Floats Real) (decimals : Real → String) (paths : Paths)
    (sha256 : String → String) (unmarshal : String → Result String TraceEntry)
    (cfg_hash : Rubric Real → String → String → String) where
  -- A judgement that `Evaluate` gives is of the metrics that it collected: its score is the sum of
  -- the weighted values, it passes exactly if that reaches the pass mark and every criterion that
  -- must pass does, and its critique is sorted, has no line twice, and has the complaints about the
  -- run and about each criterion below its threshold, and no others.
  pub evaluate-IsJudged :
      (files : RunFiles) (r : Rubric Real) (rubric_hash : String) (ev : Evidence)
      (j : Judgement Real)
      → evaluate f decimals paths sha256 unmarshal cfg_hash files r rubric_hash ev ≡ ok j
      → (m : Metrics Real) × (artifact_hash : String) × (reasons : List String) × (collect_metrics f
            paths sha256 unmarshal files ev
          ≡ ok (m, artifact_hash, reasons))
        × IsJudged f decimals m r reasons j
  unfolding evaluate
  evaluate-IsJudged files r rubric_hash ev j h =
      elim (Result-cases (collect_metrics f paths sha256 unmarshal files ev)) [
        | inr (e, q) ↦ absurd (ground (arith, h, q))
        | inl ((m, artifact_hash, reasons), q) ↦
            let same : judge f decimals cfg_hash r rubric_hash ev m artifact_hash reasons ≡ j =
              ground (arith, h, q) in
            (
              m,
              artifact_hash,
              reasons,
              q,
              subst (IsJudged f decimals m r reasons) same
                  (judge-IsJudged f decimals m cfg_hash r rubric_hash ev artifact_hash reasons),
            )
      ]
