-- ===== src/Skill/Judge/Rubric.antt =====
-- internal/skill/judge/judge.go, `LoadRubric`: a rubric from its YAML.
-- Of a YAML value is kept what the code tells apart; a map is a list in the order in which it is
-- ranged over. The rubric's hash is left to `Evaluate`'s caller.
pub mod Valid
use virmux.Prelude.{
  if◌then◌else◌, Result, ok, err, ℤ, elem, zero, String, Bool, false, not, ◌||◌, Option, none, some,
  List, [], ◌∷◌, ◌++◌, map, str_eq, trim, ◌>>=◌, require, ◌>>◌,
}

-- float64, as far as the judge computes; `at_most` is <= and `below` is <.
pub record Floats (Real : Type 0) : Type 0 where
  pub zero : Real
  pub one : Real
  pub half : Real
  pub two : Real
  pub weight_cap : Real
  pub add : Real → Real → Real
  pub mul : Real → Real → Real
  pub div : Real → Real → Real
  pub of_int : ℤ → Real
  pub at_most : Real → Real → Bool
  pub below : Real → Real → Bool

pub data YamlScalar (Real : Type 0) : Type 0 where
  text : String → YamlScalar Real
  float : Real → YamlScalar Real
  int : ℤ → YamlScalar Real
  bool : Bool → YamlScalar Real
  other_scalar : YamlScalar Real

pub data YamlEntry (Real : Type 0) : Type 0 where
  mapping : List (String × YamlScalar Real) → YamlEntry Real
  not_mapping : YamlEntry Real

pub data YamlValue (Real : Type 0) : Type 0 where
  sequence : List (YamlEntry Real) → YamlValue Real
  scalar : YamlScalar Real → YamlValue Real

pub record Criterion (Real : Type 0) : Type 0 where
  pub id : String
  pub w : Real
  pub must : Bool
  pub threshold : Real

pub record Rubric (Real : Type 0) : Type 0 where
  pub criteria : List (Criterion Real)
  pub pass : Real
  pub override_default_check : Bool

pub data RubricError : Type 0 where
  read_failed parse_failed : String → RubricError
  not_a_mapping : RubricError
  unknown_key : String → RubricError
  criteria_required criteria_empty pass_out_of_range override_not_bool : RubricError
  entry_not_mapping : RubricError
  unknown_criterion_key : String → RubricError
  id_required : RubricError
  duplicate_id weight_out_of_range must_not_bool threshold_out_of_range : String → RubricError
  weights_exceed_one : RubricError
  missing_default : String → RubricError

abbrev pub default_criterion_ids : List String
default_criterion_ids = "actionability" ∷ "completeness" ∷ "format" ∷ []

-- m[k]
abbrev pub lookup {ℓ} : {V : Type ℓ} → String → List (String × V) → Option V
lookup k [] = none
lookup k ((j, v) ∷ rest) = let found = lookup k rest in if str_eq j k then some v else found

-- The first key that is not among the known ones.
abbrev pub unknown {ℓ} : {V : Type ℓ} → List String → List (String × V) → Option String
unknown known [] = none
unknown known ((k, v) ∷ rest) =
    let more = unknown known rest in if elem k known then more else some k

abbrev pub refuse : Option String → (String → RubricError) → Result RubricError (Unit {0})
refuse none e = ok tt
refuse (some k) e = err (e k)

-- The first of `ids` that is not among `seen`.
abbrev pub first_missing : List String → List String → Option String
first_missing seen [] = none
first_missing seen (id ∷ ids) =
    let more = first_missing seen ids in if elem id seen then more else some id

module _ {Real : Type 0} (f : Floats Real) where
  float64_from_any : Option (YamlScalar Real) → Real
  float64_from_any (some (float x)) = x
  float64_from_any (some (int n)) = f.of_int n
  float64_from_any _ = f.zero

  string_from_any : Option (YamlScalar Real) → String
  string_from_any (some (text s)) = s
  string_from_any _ = ""

  -- `v.(bool)`, if there is a value.
  pub bool_or : RubricError → Option (YamlScalar Real) → Result RubricError Bool
  bool_or e none = ok false
  bool_or e (some (bool b)) = ok b
  bool_or e (some _) = err e

  threshold_of : Option (YamlScalar Real) → Real
  unfolding float64_from_any
  threshold_of none = f.half
  threshold_of (some v) = float64_from_any (some v)

  -- An entry of the list, where `seen` are the IDs of those before.
  pub load_criterion : List String → YamlEntry Real → Result RubricError (Criterion Real)
  unfolding float64_from_any string_from_any bool_or threshold_of
  load_criterion seen not_mapping = err entry_not_mapping
  load_criterion seen (mapping cm) = do
    refuse (unknown ("id" ∷ "w" ∷ "must" ∷ "threshold" ∷ []) cm) unknown_criterion_key
    let id = trim (string_from_any (lookup "id" cm))
    require (not (str_eq id "")) id_required
    require (not (elem id seen)) (duplicate_id id)
    let w = float64_from_any (lookup "w" cm)
    require (not (f.at_most w f.zero || f.below f.one w)) (weight_out_of_range id)
    must ← bool_or (must_not_bool id) (lookup "must" cm)
    let threshold = threshold_of (lookup "threshold" cm)
    require (not (f.below threshold f.zero || f.below f.one threshold)) (threshold_out_of_range id)
    ok (record { id = id; w = w; must = must; threshold = threshold })

  -- The loop over the entries, behind `done`, whose weights sum up to `sum`.
  pub load_criteria :
      List (Criterion Real)
      → Real
      → List (YamlEntry Real)
      → Result RubricError (List (Criterion Real) × Real)
  unfolding load_criterion
  load_criteria done sum [] = ok (done, sum)
  load_criteria done sum (entry ∷ entries) = load_criterion (map (λ c. c.id) done) entry >>= λ c.
      load_criteria (done ++ c ∷ []) (f.add sum c.w) entries

  pub criteria_list : Option (YamlValue Real) → Result RubricError (List (YamlEntry Real))
  criteria_list none = err criteria_required
  criteria_list (some (sequence (entry ∷ entries))) = ok (entry ∷ entries)
  criteria_list (some _) = err criteria_empty

  as_scalar : Option (YamlValue Real) → Option (YamlScalar Real)
  as_scalar none = none
  as_scalar (some (scalar s)) = some s
  as_scalar (some (sequence _)) = some other_scalar

  pub default_missing : Bool → List (Criterion Real) → Option String
  default_missing override criteria =
      if override then none else first_missing (map (λ c. c.id) criteria) default_criterion_ids

  -- `LoadRubric` behind the parse.
  pub rubric_of : List (String × YamlValue Real) → Result RubricError (Rubric Real)
  unfolding float64_from_any bool_or load_criteria criteria_list as_scalar default_missing
  rubric_of m = do
    refuse (unknown ("criteria" ∷ "pass" ∷ "override_default_check" ∷ []) m) unknown_key
    entries ← criteria_list (lookup "criteria" m)
    let pass = float64_from_any (as_scalar (lookup "pass" m))
    require (not (f.at_most pass f.zero || f.below f.one pass)) pass_out_of_range
    override ← bool_or override_not_bool (as_scalar (lookup "override_default_check" m))
    loaded ← load_criteria [] f.zero entries
    require (not (f.below f.weight_cap loaded.1)) weights_exceed_one
    refuse (default_missing override loaded.0) missing_default
    ok (record { criteria = loaded.0; pass = pass; override_default_check = override })

  -- `read` opens the file; `parse` gives no map where the YAML is none.
  unfoldable pub load_rubric :
      (read : String → Result String String)
      (parse : String → Result String (Option (List (String × YamlValue Real))))
      → String
      → Result RubricError (Rubric Real)
  unfolding rubric_of
  load_rubric read parse path = elim (read path) [
    | err e ↦ err (read_failed e)
    | ok bytes ↦ elim (parse bytes) [
      | err e ↦ err (parse_failed e)
      | ok none ↦ err not_a_mapping
      | ok (some m) ↦ rubric_of m
    ]
  ]
