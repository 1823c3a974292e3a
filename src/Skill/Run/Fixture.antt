-- ===== src/Skill/Run/Fixture.antt =====
-- internal/skill/run/core.go: `LoadFixture` and `ResolveFixturePath`.
-- JSON, the file system and filepath are parameters. A value of `args` is the parameter `Value`, of
-- which `from_text` makes one of a text; the input and the expectation, which are only passed on, are
-- left out.
pub mod Runnable
use virmux.Prelude.{
  if◌then◌else◌, Result, ok, err, elem, String, Bool, true, false, not, ◌&&◌, Option, none, some,
  List, [], ◌∷◌, ◌++◌, str_eq, is_blank, trim,
}
use virmux.Skill.Judge.Rubric.{lookup}

pub record Fixture (Value : Type 0) : Type 0 where
  pub id : String
  pub tool : String
  pub cmd : String
  pub args : Option (List (String × Value))
  pub deterministic : Bool

pub data FixtureError : Type 0 where
  read_failed parse_failed : String → FixtureError
  id_required cmd_required : FixtureError

module _ {Value : Type 0} (from_text : String → Value) where
  abbrev pub given_args : Option (List (String × Value)) → List (String × Value)
  given_args none = []
  given_args (some args) = args

  abbrev pub is_some : Option Value → Bool
  is_some none = false
  is_some (some v) = true

  -- `args["cmd"] = cmd` where the tool is the shell, there is a command and no such argument.
  abbrev pub with_cmd : Bool → String → List (String × Value) → List (String × Value)
  with_cmd shell cmd args =
      if shell && not (is_blank cmd) && not (is_some (lookup "cmd" args))
      then ("cmd", from_text cmd) ∷ args
      else args

  abbrev pub tool_of : Fixture Value → String
  tool_of f = if str_eq f.tool "" then "shell.exec" else f.tool

  abbrev pub args_of : Fixture Value → List (String × Value)
  args_of f = with_cmd (str_eq (tool_of f) "shell.exec") f.cmd (given_args f.args)

  -- `LoadFixture` behind the parse.
  fixture_of : Fixture Value → Result FixtureError (Fixture Value)
  fixture_of f =
      if is_blank f.id
      then err id_required
      else if str_eq (tool_of f) "shell.exec" && not (is_some (lookup "cmd" (args_of f)))
      then err cmd_required
      else ok (record f { tool = tool_of f; args = some (args_of f) })

  unfoldable pub load_fixture :
      (String → Result String String)
      → (String → Result String (Fixture Value))
      → String
      → Result FixtureError (Fixture Value)
  unfolding fixture_of
  load_fixture read unmarshal path = elim (read path) [
    | err e ↦ err (read_failed e)
    | ok bytes ↦ elim (unmarshal bytes) [ err e ↦ err (parse_failed e) | ok f ↦ fixture_of f ]
  ]

-- filepath, and whether os.Stat finds something that is no directory.
pub record FileSystem : Type 0 where
  pub is_abs : String → Bool
  pub clean : String → String
  pub join : String → String → String
  pub is_file : String → Bool

-- The closure `add`, behind Clean.
abbrev pub add_candidate : List String → String → List String
add_candidate candidates p = if elem p candidates then candidates else candidates ++ p ∷ []

abbrev pub last_of : List String → String
last_of [] = ""
last_of (p ∷ []) = p
last_of (p ∷ q ∷ ps) = last_of (q ∷ ps)

module _ (fs : FileSystem) where
  abbrev pub first_file : List String → Option String
  first_file [] = none
  first_file (p ∷ ps) = let rest = first_file ps in if fs.is_file p then some p else rest

  abbrev pub pick : List String → String
  pick ps = elim (first_file ps) [ some p ↦ p | none ↦ last_of ps ]

  unfoldable pub resolve_fixture_path : String → String → String
  resolve_fixture_path skill_dir fixture_arg =
      let raw : String = trim fixture_arg in
      if str_eq raw ""
      then raw
      else if fs.is_abs raw
      then fs.clean raw
      else pick (
          add_candidate
            (add_candidate (add_candidate [] (fs.clean raw)) (fs.clean (fs.join skill_dir raw)))
            (fs.clean (fs.join (fs.join skill_dir "tests") raw)))
