-- ===== src/Skill/Eval/Results/Counted.antt =====
-- internal/skill/eval/eval.go, `ParsePromptfooResults`: what the metrics count.
use virmux.Prelude.{
  if◌then◌else◌, bit, Result, ok, length, elem, IsDistinct, count, count_same, count-le-length, ℕ,
  suc, ◌+◌, String, ◌≡◌, refl, ◌∙◌, subst, inl, inr, true, ◌||◌, List, [], ◌∷◌, arith, str_eq,
  eq_iff, eq_refl, Result-cases, ok-injective, sort_texts, count-sort_texts, length-sort_texts,
}
use virmux.Skill.Eval.Results.{
  Json, object, text, number, bool, array, null, Arithmetic, CaseMetric, Metrics, set, case_ids,
  metric_of, row_id, add_row, add_rows, empty_case, add_missing, passed, metrics_of,
  parse_promptfoo_results,
}

abbrev pub Cases : Type 0 → Type 0
Cases Real = List (String × CaseMetric Real)

module _ {Real : Type 0} where
  -- The cases that pass.
  abbrev pub passing : Cases Real → ℕ
  passing [] = 0
  passing ((id, c) ∷ rest) = bit c.pass + passing rest

  elem-case_ids-set :
      (x id : String) (c : CaseMetric Real) (m : Cases Real)
      → elem x (case_ids (set id c m)) ≡ (elem x (case_ids m) || str_eq id x)
  elem-case_ids-set x id c [] = ground arith
  elem-case_ids-set x id c ((j, d) ∷ rest) =
      ground (arith, elem-case_ids-set x id c rest, eq_iff j id)

  case_ids-set-IsDistinct :
      (id : String) (c : CaseMetric Real) (m : Cases Real)
      → IsDistinct (case_ids m)
      → IsDistinct (case_ids (set id c m))
  case_ids-set-IsDistinct id c [] d = (refl, tt)
  case_ids-set-IsDistinct id c ((j, b) ∷ rest) d = ground (
    arith,
    d,
    elem-case_ids-set j id c rest,
    case_ids-set-IsDistinct id c rest,
    eq_iff j id,
    eq_iff id j,
  )

  length-case_ids : (m : Cases Real) → length (case_ids m) ≡ length m
  length-case_ids [] = refl
  length-case_ids ((id, c) ∷ rest) = omega (arith, length-case_ids rest)

module _ {Real : Type 0} (a : Arithmetic Real) where
  add_row-IsDistinct :
      (numbered : ℕ → String) (i : ℕ) (ids : List String) (v : Json Real) (m : Cases Real)
      → IsDistinct (case_ids m)
      → IsDistinct (case_ids (add_row a numbered i ids v m))
  unfolding add_row
  add_row-IsDistinct numbered i ids (object fs) m d =
      let id = row_id a numbered i ids (object fs) in
      case_ids-set-IsDistinct id (metric_of a id (object fs)) m d
  add_row-IsDistinct numbered i ids (text s) m d = d
  add_row-IsDistinct numbered i ids (number x) m d = d
  add_row-IsDistinct numbered i ids (bool b) m d = d
  add_row-IsDistinct numbered i ids array m d = d
  add_row-IsDistinct numbered i ids null m d = d

  add_rows-IsDistinct :
      (numbered : ℕ → String) (i : ℕ) (ids : List String) (vs : List (Json Real)) (m : Cases Real)
      → IsDistinct (case_ids m)
      → IsDistinct (case_ids (add_rows a numbered i ids vs m))
  unfolding add_rows
  add_rows-IsDistinct numbered i ids [] m d = d
  add_rows-IsDistinct numbered i ids (v ∷ vs) m d =
      add_rows-IsDistinct numbered (suc i) ids vs (add_row a numbered i ids v m)
        (add_row-IsDistinct numbered i ids v m d)

  -- A key is there behind the loop over the fixtures if it was, or is one of them.
  abbrev step : String → Cases Real → Cases Real
  step id m = if elem id (case_ids m) then m else set id (empty_case a id) m

  step_keeps :
      (x id : String) (m : Cases Real)
      → (elem x (case_ids m) || str_eq id x) ≡ true
      → elem x (case_ids (step id m)) ≡ true
  step_keeps x id m h = ground (arith, h, elem-case_ids-set x id (empty_case a id) m, eq_iff id x)

  step-IsDistinct :
      (id : String) (m : Cases Real) → IsDistinct (case_ids m) → IsDistinct (case_ids (step id m))
  step-IsDistinct id m d = ground (arith, d, case_ids-set-IsDistinct id (empty_case a id) m)

  add_missing_keeps :
      (x : String) (ids : List String) (m : Cases Real)
      → (elem x (case_ids m) || elem x ids) ≡ true
      → elem x (case_ids (add_missing a ids m)) ≡ true
  unfolding add_missing
  add_missing_keeps x [] m h = ground (arith, h)
  add_missing_keeps x (id ∷ ids) m h =
      add_missing_keeps x ids (step id m) (ground (arith, h, step_keeps x id m))

  add_missing-IsDistinct :
      (ids : List String) (m : Cases Real)
      → IsDistinct (case_ids m)
      → IsDistinct (case_ids (add_missing a ids m))
  unfolding add_missing
  add_missing-IsDistinct [] m d = d
  add_missing-IsDistinct (id ∷ ids) m d =
      add_missing-IsDistinct ids (step id m) (step-IsDistinct id m d)

  count-passed :
      (m : Cases Real) → IsDistinct (case_ids m) → count (passed a m) (case_ids m) ≡ passing m
  count-passed [] d = refl
  count-passed ((j, c) ∷ rest) d = ground (
    arith,
    eq_refl j,
    count_same (passed a rest) (passed a ((j, c) ∷ rest)) j (λ x h. rw (h, passed) refl)
        (case_ids rest) d.0,
    count-passed rest d.1,
  )

  -- What the metrics say of the cases.
  pub record IsCounted (fixture_ids : List String) (r : Metrics Real) (m : Cases Real)
      : Type 0 where
    pub each_once : IsDistinct (case_ids m)
    pub complete : (id : String) → elem id fixture_ids ≡ true → elem id (case_ids m) ≡ true
    pub all_cases : r.cases ≡ length m
    pub all_passes : r.passes ≡ passing m
    pub rest_fails : r.passes + r.fails ≡ r.cases

  metrics_of-IsCounted :
      (ids : List String) (m : Cases Real)
      → IsDistinct (case_ids m)
      → ((id : String) → elem id ids ≡ true → elem id (case_ids m) ≡ true)
      → IsCounted ids (metrics_of a m) m
  unfolding metrics_of
  metrics_of-IsCounted ids m d complete =
      let sorted = sort_texts (case_ids m) in
      record {
        each_once = d;
        complete = complete;
        all_cases = length-sort_texts (case_ids m) ∙ length-case_ids m;
        all_passes = count-sort_texts (passed a m) (case_ids m) ∙ count-passed m d;
        rest_fails = omega (arith, count-le-length (passed a m) sorted);
      }

  -- `ParsePromptfooResults` gives metrics in which each ID is a case once, every fixture is one, the
  -- passes are the cases that passed, and the fails are all the others.
  pub parse_promptfoo_results-IsCounted :
      (numbered : ℕ → String) (unmarshal : String → Result String (List (Json Real))) (raw : String)
      (fixture_ids : List String) (r : Metrics Real) (m : Cases Real)
      → parse_promptfoo_results a numbered unmarshal raw fixture_ids ≡ ok (r, m)
      → IsCounted fixture_ids r m
  unfolding parse_promptfoo_results
  parse_promptfoo_results-IsCounted numbered unmarshal raw ids r m h =
      elim (Result-cases (unmarshal raw)) [
        | inr (e, q) ↦ absurd (ground (arith, h, q))
        | inl ([], q) ↦ absurd (ground (arith, h, q))
        | inl (v ∷ vs, q) ↦
            let rows = add_rows a numbered 0 ids (v ∷ vs) [] in
            let all = add_missing a ids rows in
            subst (λ p. IsCounted ids p.0 p.1) (ok-injective (rw (q, parse_promptfoo_results) at h))
              (metrics_of-IsCounted ids all
                (add_missing-IsDistinct ids rows
                  (add_rows-IsDistinct numbered 0 ids (v ∷ vs) [] tt))
                (λ id there. add_missing_keeps id ids rows (ground (arith, there))))
      ]
