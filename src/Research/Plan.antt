-- ===== src/Research/Plan.antt =====
-- internal/skill/research/planner.go: the plan and its validation.
-- `PlanBudget.usd`, a float that no code computes with, is kept in cents. `yaml.UnmarshalStrict`
-- is the parameter `unmarshal`, and `yaml.Marshal` with SHA-256 the parameter `digest`.
pub mod Valid
pub mod Compile
mod Samples
use virmux.Prelude.{
  ltb, if◌then◌else◌, Result, ok, err, length, ℤ, ℕ, String, Bool, not, ◌&&◌, ◌||◌, Option, none,
  some, List, [], ◌∷◌, str_eq, is_nil,
}

pub record PlanBudget : Type 0 where
  pub usd : ℕ
  pub mins : ℤ

pub record Track : Type 0 where
  pub id : String
  pub q : String
  pub kind : String
  pub targets : List String
  pub attrs : List String
  pub rows : List String
  pub budget : PlanBudget
  pub stop_rule : String
  pub deps : List String
  pub deterministic : Option Bool

pub record ReduceConfig : Type 0 where
  pub outputs : List String
  pub rubric : List String

pub record Plan : Type 0 where
  pub plan_id : String
  pub goal : String
  pub assumptions : List String
  pub unknowns : List String
  pub dims_didnt_ask : List String
  pub tracks : List Track
  pub reduce : ReduceConfig
  pub revision : ℤ

-- The messages behind FailurePlanSchema, each with what it prints.
pub data PlanError : Type 0 where
  goal_is_empty no_tracks dims_mandatory dims_too_few outputs_required : PlanError
  track_id_required track_q_required track_kind_unknown : PlanError
  wide_without_targets : String → PlanError
  wide_without_stop_rule : String → PlanError
  yaml_error : String → PlanError

validate_wide : Track → Option PlanError
validate_wide t =
    if is_nil t.targets || is_nil t.attrs
    then some (wide_without_targets t.id)
    else if str_eq t.stop_rule ""
    then some (wide_without_stop_rule t.id)
    else none

validate_track : Track → Option PlanError
unfolding validate_wide
validate_track t =
    if str_eq t.id ""
    then some track_id_required
    else if str_eq t.q ""
    then some track_q_required
    else if not (str_eq t.kind "deep") && not (str_eq t.kind "wide")
    then some track_kind_unknown
    else if str_eq t.kind "wide"
    then validate_wide t
    else none

validate_tracks : List Track → Option PlanError
validate_tracks [] = none
validate_tracks (t ∷ ts) = elim (validate_track t) [ none ↦ validate_tracks ts | some e ↦ some e ]

-- `nil` is `none`.
unfoldable pub validate : Plan → Option PlanError
unfolding validate_track validate_tracks
validate p =
    if str_eq p.goal ""
    then some goal_is_empty
    else if is_nil p.tracks
    then some no_tracks
    else if is_nil p.dims_didnt_ask
    then some dims_mandatory
    else if ltb (length p.dims_didnt_ask) 4
    then some dims_too_few
    else if is_nil p.reduce.outputs
    then some outputs_required
    else validate_tracks p.tracks

unfoldable pub parse_plan : {D : Type 0} → (D → Result String Plan) → D → Result PlanError Plan
parse_plan unmarshal text = elim (unmarshal text) [
  | err e ↦ err (yaml_error e)
  | ok p ↦ elim (validate p) [ none ↦ ok p | some e ↦ err e ]
]

-- The plan ID is cleared before the plan is marshalled.
unfoldable pub hash : (Plan → String) → Plan → String
hash digest p = digest (record p { plan_id = "" })
