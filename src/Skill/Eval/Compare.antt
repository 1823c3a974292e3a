-- ===== src/Skill/Eval/Compare.antt =====
-- internal/skill/eval/eval.go: `CompareAB`, the frozen set of fixtures, a skill's snapshot at a ref,
-- and the runs of promptfoo.
-- Git and commands are parameters, and so are frontmatter, JSON and filepath. A formatted reason is a
-- constructor. A missing executor, which is the default one, is left out.
pub mod Gated
use Prim.Native.String.{len, slice}
use virmux.Prelude.{
  if◌then◌else◌, Result, ok, err, elem, distinct, ◌-◌, String, Bool, true, false, not, ◌||◌, Option,
  none, some, List, [], ◌∷◌, map, str_eq, is_nil, is_blank, trim, text_leb, ◌>>=◌, sort_texts, ◌>>◌,
}
use virmux.Skill.Eval.Results.{Arithmetic, Metrics}

pub record AbThresholds (Real : Type 0) : Type 0 where
  pub min_score_delta : Real
  pub max_fail_rate_delta : Real
  pub max_cost_delta : Option Real

pub data AbReason (Real : Type 0) : Type 0 where
  fine : AbReason Real
  score_dropped fail_rate_rose cost_rose : Real → Real → AbReason Real

pub record AbVerdict (Real : Type 0) : Type 0 where
  pub pass : Bool
  pub reason : AbReason Real
  pub score_delta : Real
  pub fail_rate_delta : Real
  pub cost_delta : Real

module _ {Real : Type 0} (a : Arithmetic Real) where
  -- Whether the cost is above its limit, if there is one.
  abbrev pub cost_exceeded : Option Real → Real → Option Real
  cost_exceeded none d = none
  cost_exceeded (some most) d = if a.below most d then some most else none

  unfoldable pub compare_ab : Metrics Real → Metrics Real → AbThresholds Real → AbVerdict Real
  compare_ab base head th =
      let v : AbVerdict Real = record {
        pass = true;
        reason = fine;
        score_delta = a.sub head.score_p50 base.score_p50;
        fail_rate_delta = a.sub head.fail_rate base.fail_rate;
        cost_delta = a.sub head.cost_total base.cost_total;
      } in
      if a.below v.score_delta th.min_score_delta
      then record v { pass = false; reason = score_dropped v.score_delta th.min_score_delta }
      else if a.below th.max_fail_rate_delta v.fail_rate_delta
      then record v {
        pass = false;
        reason = fail_rate_rose v.fail_rate_delta th.max_fail_rate_delta;
      }
      else elim (cost_exceeded th.max_cost_delta v.cost_delta) [
        | some most ↦ record v { pass = false; reason = cost_rose v.cost_delta most }
        | none ↦ v
      ]

pub record EvalFixture : Type 0 where
  pub id : String
  pub path : String
  pub raw : String

pub record SkillSnapshot : Type 0 where
  pub ref : String
  pub body : String
  pub fixtures : List EvalFixture

pub data SnapshotError : Type 0 where
  git_failed : String → SnapshotError
  bad_frontmatter : String → SnapshotError
  no_fixtures : SnapshotError
  bad_fixture : String → SnapshotError
  fixture_without_id : String → SnapshotError
  base_missing : String → SnapshotError

abbrev pub fixture_ids : List EvalFixture → List String
fixture_ids = map (λ f. f.id)

-- The first ID, as ranged over, that the base has not.
missing_id : List String → List String → Option String
missing_id base [] = none
missing_id base (id ∷ ids) =
    let rest = missing_id base ids in if elem id base then rest else some id

-- `FixturesByID` makes a map of each list: its case_ids are the IDs, each once.
unfoldable pub validate_frozen_fixture_set :
    List EvalFixture → List EvalFixture → Option SnapshotError
unfolding missing_id
validate_frozen_fixture_set head base =
    elim (missing_id (distinct (fixture_ids base)) (distinct (fixture_ids head))) [
      | none ↦ none
      | some id ↦ some (base_missing id)
    ]

-- What git has at a ref: a file, and the paths below a folder, line by line.
pub record GitTree : Type 0 where
  pub show : String → String → Result String String
  pub list : String → String → Result String (List String)

-- `split_frontmatter` gives the body; `id_of` the text under "id", empty where there is none.
pub record Parsers : Type 0 where
  pub split_frontmatter : String → Result String String
  pub id_of : String → Result String String
  pub base_without_ext : String → String

-- strings.HasSuffix
abbrev ends_with : String → String → Bool
ends_with s t = str_eq (slice s (len s - len t) (len s)) t

json_paths : List String → List String
json_paths [] = []
json_paths (line ∷ lines) =
    let rest = json_paths lines in
    let path : String = trim line in
    if str_eq path "" || not (ends_with path ".json") then rest else path ∷ rest

abbrev pub git : {A : Type 0} → Result String A → Result SnapshotError A
git (ok a) = ok a
git (err e) = err (git_failed e)

git_list_json_files : GitTree → String → String → Result SnapshotError (List String)
unfolding json_paths
git_list_json_files tree ref prefix =
    git (tree.list ref prefix) >>= λ lines. ok (sort_texts (json_paths lines))

fixture_id : Parsers → String → String → Result SnapshotError String
fixture_id p raw path = elim (p.id_of raw) [
  | err e ↦ err (bad_fixture path)
  | ok id ↦
      if not (is_blank id)
      then ok (trim id)
      else if is_blank (p.base_without_ext path)
      then err (fixture_without_id path)
      else ok (p.base_without_ext path)
]

load_fixtures : GitTree → Parsers → String → List String → Result SnapshotError (List EvalFixture)
unfolding fixture_id
load_fixtures tree p ref [] = ok []
load_fixtures tree p ref (path ∷ paths) = git (tree.show ref path) >>= λ raw.
    fixture_id p raw path >>= λ id. load_fixtures tree p ref paths >>= λ rest.
    ok (record { id = id; path = path; raw = raw } ∷ rest)

abbrev insert_fixture : EvalFixture → List EvalFixture → List EvalFixture
insert_fixture f [] = f ∷ []
insert_fixture f (g ∷ gs) =
    let rest = insert_fixture f gs in if text_leb f.id g.id then f ∷ g ∷ gs else g ∷ rest

-- sort.Slice by ID
abbrev pub sort_fixtures : List EvalFixture → List EvalFixture
sort_fixtures [] = []
sort_fixtures (f ∷ fs) = insert_fixture f (sort_fixtures fs)

unfoldable pub load_skill_snapshot :
    GitTree → Parsers → (skill_path tests_prefix ref : String) → Result SnapshotError SkillSnapshot
unfolding git_list_json_files load_fixtures
load_skill_snapshot tree p skill_path tests_prefix ref = do
  bytes ← git (tree.show ref skill_path)
  body ← (elim (p.split_frontmatter bytes) [ err e ↦ err (bad_frontmatter e) | ok b ↦ ok b ])
  paths ← git_list_json_files tree ref tests_prefix
  (if is_nil paths
      then err no_fixtures
      else load_fixtures tree p ref paths >>= λ fs.
          ok (record { ref = ref; body = body; fixtures = sort_fixtures fs }))

-- A command that is run: with which promptfoo, and what for.
pub data Tool : Type 0 where
  given_tool : String → Tool
  local_tool npx_tool : Tool

pub data Action : Type 0 where
  validate_config run_eval : Action

pub data PromptfooError : Type 0 where
  eval_failed npx_validate_failed npx_eval_failed : PromptfooError

-- What is run, in order, and how it ended; `succeeds` is the executor, `has_local` os.Stat.
unfoldable pub run_promptfoo :
    (Tool → Action → Bool) → Bool → String → List (Tool × Action) × Option PromptfooError
run_promptfoo succeeds has_local bin =
    let tool : Tool = given_tool (if is_blank bin then "promptfoo" else bin) in
    let npx : List (Tool × Action) × Option PromptfooError =
      if not (succeeds npx_tool validate_config)
      then ((npx_tool, validate_config) ∷ [], some npx_validate_failed)
      else (
        (npx_tool, validate_config) ∷ (npx_tool, run_eval) ∷ [],
        if succeeds npx_tool run_eval then none else some npx_eval_failed,
      ) in
    if succeeds tool validate_config
    then (
      (tool, validate_config) ∷ (tool, run_eval) ∷ [],
      if succeeds tool run_eval then none else some eval_failed,
    )
    else if not has_local
    then ((tool, validate_config) ∷ npx.0, npx.1)
    else if not (succeeds local_tool validate_config)
    then ((tool, validate_config) ∷ (local_tool, validate_config) ∷ npx.0, npx.1)
    else if succeeds local_tool run_eval
    then (
      (tool, validate_config) ∷ (local_tool, validate_config) ∷ (local_tool, run_eval) ∷ [],
      none,
    )
    else (
      (tool, validate_config) ∷ (local_tool, validate_config) ∷ (local_tool, run_eval) ∷ npx.0,
      npx.1,
    )
