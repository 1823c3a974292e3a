-- ===== src/Skill/Eval/Results.antt =====
-- internal/skill/eval/eval.go, `ParsePromptfooResults`: the metrics of a run of promptfoo.
-- A float64 is the parameter `Arithmetic`, and JSON the parameter `unmarshal`, which gives the list
-- under "results", empty where there is none. Of a JSON value is kept what the code tells apart.
pub mod Counted
use virmux.Prelude.{
  ltb, ◌==◌, if◌then◌else◌, Result, ok, err, length, get_elem?, is_zero, elem, count, ℕ, zero, suc,
  ◌+◌, ◌-◌, ◌/◌, ◌%◌, String, Bool, false, not, none, some, List, [], ◌∷◌, str_eq, trim, sort_texts,
}

mutual
  pub data Json (Real : Type 0) : Type 0 where
    object : Fields Real → Json Real
    text : String → Json Real
    number : Real → Json Real
    bool : Bool → Json Real
    array null : Json Real

  pub data Fields (Real : Type 0) : Type 0 where
    no_fields : Fields Real
    field : String → Json Real → Fields Real → Fields Real

-- `before` is the order of sort.Float64s, `of_text` strconv.ParseFloat, and `place p n` the index
-- int(p / 100 * (n - 1)) with what is left of it.
pub record Arithmetic (Real : Type 0) : Type 0 where
  pub zero : Real
  pub ninety : Real
  pub hundred : Real
  pub two : Real
  pub add : Real → Real → Real
  pub sub : Real → Real → Real
  pub mul : Real → Real → Real
  pub div : Real → Real → Real
  pub of_nat : ℕ → Real
  pub of_text : String → Real
  pub is_zero : Real → Bool
  pub at_most : Real → Real → Bool
  pub below : Real → Real → Bool
  pub before : Real → Real → Bool
  pub place : Real → ℕ → ℕ × Real

pub record CaseMetric (Real : Type 0) : Type 0 where
  pub fixture_id : String
  pub score : Real
  pub pass : Bool
  pub cost : Real

pub record Metrics (Real : Type 0) : Type 0 where
  pub cases : ℕ
  pub passes : ℕ
  pub fails : ℕ
  pub fail_rate : Real
  pub score_p50 : Real
  pub score_p90 : Real
  pub cost_total : Real

pub data EvalError : Type 0 where
  parse_failed : String → EvalError
  results_missing : EvalError

module _ {Real : Type 0} where
  -- next[p], null for what is not there.
  get_field : String → Fields Real → Json Real
  get_field k no_fields = null
  get_field k (field j v rest) = let found = get_field k rest in if str_eq j k then v else found

  descend : String → Json Real → Json Real
  unfolding get_field
  descend p (object fs) = get_field p fs
  descend p _ = null

  -- `lookup`
  at_path : List String → Json Real → Json Real
  unfolding descend
  at_path [] v = v
  at_path (p ∷ ps) v = at_path ps (descend p v)

  -- The trimmed text of a string, empty for any other value.
  text_of : Json Real → String
  text_of (text s) = trim s
  text_of _ = ""

  first_text : List (List String) → Json Real → String
  unfolding at_path text_of
  first_text [] v = ""
  first_text (p ∷ ps) v =
      let rest = first_text ps v in
      if str_eq (text_of (at_path p v)) "" then rest else text_of (at_path p v)

  case_id_from_result : Json Real → String
  unfolding first_text
  case_id_from_result = first_text (
      ("metadata" ∷ "fixture_id" ∷ [])
      ∷ ("vars" ∷ "fixture_id" ∷ [])
      ∷ ("testCase" ∷ "vars" ∷ "fixture_id" ∷ [])
      ∷ ("testCase" ∷ "metadata" ∷ "fixture_id" ∷ [])
      ∷ [])

  or_else : Json Real → Json Real → Json Real
  or_else null v = v
  or_else v w = v

  -- firstNonNil over the values at some paths.
  first_non_nil : List (List String) → Json Real → Json Real
  unfolding at_path or_else
  first_non_nil [] v = null
  first_non_nil (p ∷ ps) v = or_else (at_path p v) (first_non_nil ps v)

  -- m[id] = c
  abbrev pub set :
      String → CaseMetric Real → List (String × CaseMetric Real) → List (String × CaseMetric Real)
  set id c [] = (id, c) ∷ []
  set id c ((j, d) ∷ rest) =
      let more = set id c rest in if str_eq j id then (j, c) ∷ rest else (j, d) ∷ more

  abbrev pub case_ids : List (String × CaseMetric Real) → List String
  case_ids [] = []
  case_ids ((id, c) ∷ rest) = id ∷ case_ids rest

  -- m[id] of a key that is there.
  abbrev pub case_at : CaseMetric Real → String → List (String × CaseMetric Real) → CaseMetric Real
  case_at default id [] = default
  case_at default id ((j, c) ∷ rest) =
      let found = case_at default id rest in if str_eq j id then c else found

module _ {Real : Type 0} (a : Arithmetic Real) where
  float_from_any : Json Real → Real
  float_from_any (number x) = x
  float_from_any (text s) = a.of_text (trim s)
  float_from_any _ = a.zero

  -- strconv.ParseBool of a text.
  bool_from_any : Json Real → Bool
  bool_from_any (bool b) = b
  bool_from_any (text s) = elem (trim s) ("1" ∷ "t" ∷ "T" ∷ "TRUE" ∷ "true" ∷ "True" ∷ [])
  bool_from_any (number x) = not (a.is_zero x)
  bool_from_any _ = false

  metric_of : String → Json Real → CaseMetric Real
  unfolding first_non_nil float_from_any bool_from_any
  metric_of id v = record {
    fixture_id = id;
    score = float_from_any (
        first_non_nil
          (("score" ∷ []) ∷ ("grading" ∷ "score" ∷ []) ∷ ("metrics" ∷ "score" ∷ []) ∷ []) v);
    pass = bool_from_any (first_non_nil (("pass" ∷ []) ∷ ("success" ∷ []) ∷ []) v);
    cost = float_from_any (
        first_non_nil
          (("cost" ∷ []) ∷ ("metrics" ∷ "cost" ∷ []) ∷ ("tokenUsage" ∷ "total" ∷ []) ∷ []) v);
  }

  -- The ID of the row at place `i`; `numbered` prints case-001 and so on.
  row_id : (ℕ → String) → ℕ → List String → Json Real → String
  unfolding case_id_from_result
  row_id numbered i fixture_ids v =
      let own : String = case_id_from_result v in
      if not (str_eq own "") then own else elim (get_elem? fixture_ids i) [
        | none ↦ numbered (suc i)
        | some id ↦ if str_eq id "" then numbered (suc i) else id
      ]

  add_row :
      (ℕ → String)
      → ℕ
      → List String
      → Json Real
      → List (String × CaseMetric Real)
      → List (String × CaseMetric Real)
  unfolding row_id metric_of
  add_row numbered i fixture_ids (object fs) m =
      let id = row_id numbered i fixture_ids (object fs) in set id (metric_of id (object fs)) m
  add_row numbered i fixture_ids _ m = m

  add_rows :
      (ℕ → String)
      → ℕ
      → List String
      → List (Json Real)
      → List (String × CaseMetric Real)
      → List (String × CaseMetric Real)
  unfolding add_row
  add_rows numbered i fixture_ids [] m = m
  add_rows numbered i fixture_ids (v ∷ vs) m =
      add_rows numbered (suc i) fixture_ids vs (add_row numbered i fixture_ids v m)

  abbrev pub empty_case : String → CaseMetric Real
  empty_case id = record { fixture_id = id; score = a.zero; pass = false; cost = a.zero }

  add_missing : List String → List (String × CaseMetric Real) → List (String × CaseMetric Real)
  add_missing [] m = m
  add_missing (id ∷ ids) m =
      add_missing ids (if elem id (case_ids m) then m else set id (empty_case id) m)

  insert_float : Real → List Real → List Real
  insert_float x [] = x ∷ []
  insert_float x (y ∷ ys) =
      let rest = insert_float x ys in if a.before y x then y ∷ rest else x ∷ y ∷ ys

  -- sort.Float64s
  sort_floats : List Real → List Real
  unfolding insert_float
  sort_floats [] = []
  sort_floats (x ∷ xs) = insert_float x (sort_floats xs)

  nth : List Real → ℕ → Real
  nth xs i = elim (get_elem? xs i) [ none ↦ a.zero | some x ↦ x ]

  median : List Real → Real
  unfolding sort_floats nth
  median [] = a.zero
  median (x ∷ xs) =
      let cp = sort_floats (x ∷ xs) in
      let mid : ℕ = length cp / 2 in
      if length cp % 2 == 1 then nth cp mid else a.div (a.add (nth cp (mid - 1)) (nth cp mid)) a.two

  percentile : List Real → Real → Real
  unfolding sort_floats nth
  percentile [] p = a.zero
  percentile (x ∷ xs) p =
      let cp = sort_floats (x ∷ xs) in
      if a.at_most p a.zero
      then nth cp 0
      else if a.at_most a.hundred p
      then nth cp (length cp - 1)
      else let (i, fraction) = a.place p (length cp) in
        if ltb (i + 1) (length cp)
        then a.add (nth cp i) (a.mul fraction (a.sub (nth cp (i + 1)) (nth cp i)))
        else nth cp i

  abbrev pub score_list : List (String × CaseMetric Real) → List String → List Real
  score_list m [] = []
  score_list m (id ∷ ids) = (case_at (empty_case id) id m).score ∷ score_list m ids

  abbrev pub cost_sum : List (String × CaseMetric Real) → Real → List String → Real
  cost_sum m sum [] = sum
  cost_sum m sum (id ∷ ids) = cost_sum m (a.add sum (case_at (empty_case id) id m).cost) ids

  abbrev pub passed : List (String × CaseMetric Real) → String → Bool
  passed m id = (case_at (empty_case id) id m).pass

  -- The metrics of the cases, in the order of their IDs.
  metrics_of : List (String × CaseMetric Real) → Metrics Real
  unfolding median percentile
  metrics_of m =
      let ids = sort_texts (case_ids m) in
      let total : ℕ = length ids in
      let passes : ℕ = count (passed m) ids in
      let fails : ℕ = total - passes in
      record {
        cases = total;
        passes = passes;
        fails = fails;
        fail_rate = if ltb 0 total then a.div (a.of_nat fails) (a.of_nat total) else a.zero;
        score_p50 = median (score_list m ids);
        score_p90 = percentile (score_list m ids) a.ninety;
        cost_total = cost_sum m a.zero ids;
      }

  unfoldable pub parse_promptfoo_results :
      (ℕ → String)
      → (String → Result String (List (Json Real)))
      → String
      → List String
      → Result EvalError (Metrics Real × List (String × CaseMetric Real))
  unfolding add_rows add_missing metrics_of
  parse_promptfoo_results numbered unmarshal raw fixture_ids = elim (unmarshal raw) [
    | err e ↦ err (parse_failed e)
    | ok [] ↦ err results_missing
    | ok (v ∷ vs) ↦
        let m = add_missing fixture_ids (add_rows numbered 0 fixture_ids (v ∷ vs) []) in
        ok (metrics_of m, m)
  ]
