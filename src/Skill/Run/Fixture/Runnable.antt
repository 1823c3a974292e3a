-- ===== src/Skill/Run/Fixture/Runnable.antt =====
-- internal/skill/run/core.go: the fixtures that are let through, and where they are looked for.
use virmux.Prelude.{
  if◌then◌else◌, Result, ok, err, elem, String, ◌≡◌, refl, subst, inl, inr, Bool, true, false, not,
  ◌&&◌, ◌||◌, some, List, [], ◌∷◌, arith, str_eq, eq_iff, eq_refl, if_ind, Result-cases,
  ok-injective, is_blank, trim,
}
use virmux.Skill.Judge.Rubric.{lookup}
use virmux.Skill.Run.Fixture.{
  Fixture, id_required, cmd_required, given_args, is_some, with_cmd, tool_of, args_of, fixture_of,
  load_fixture, FileSystem, add_candidate, pick, resolve_fixture_path,
}

module _ {Value : Type 0} (from_text : String → Value) where
  -- A fixture that a run can be made of, from the one that was parsed.
  pub record IsRunnable (parsed f : Fixture Value) : Type 0 where
    pub id_given : is_blank f.id ≡ false
    pub tool_given : str_eq f.tool "" ≡ false
    pub args : List (String × Value)
    pub args_given : f.args ≡ some args
    pub has_cmd : str_eq f.tool "shell.exec" ≡ true → is_some from_text (lookup "cmd" args) ≡ true
    pub same_id : f.id ≡ parsed.id
    pub default_tool : str_eq parsed.tool "" ≡ true → f.tool ≡ "shell.exec"
    pub same_tool : str_eq parsed.tool "" ≡ false → f.tool ≡ parsed.tool
    -- The command of the fixture is the argument of a shell that was given none.
    pub cmd_used :
        str_eq f.tool "shell.exec" ≡ true
        → is_some from_text (lookup "cmd" (given_args from_text parsed.args)) ≡ false
        → lookup "cmd" args ≡ some (from_text parsed.cmd)
    -- No argument that was given is changed.
    pub keeps_args :
        (k : String)
        → is_some from_text (lookup k (given_args from_text parsed.args)) ≡ true
        → lookup k args ≡ lookup k (given_args from_text parsed.args)

  with_cmd-keeps :
      (shell : Bool) (cmd k : String) (args : List (String × Value))
      → is_some from_text (lookup k args) ≡ true
      → lookup k (with_cmd from_text shell cmd args) ≡ lookup k args
  with_cmd-keeps shell cmd k args h = ground (arith, h, eq_iff "cmd" k)

  -- What is made of a fixture that is let through.
  made_of :
      (parsed f : Fixture Value) (blank shell has : Bool)
      → (if blank
          then err id_required
          else if shell && not has
          then err cmd_required
          else ok (record parsed {
            tool = tool_of from_text parsed;
            args = some (args_of from_text parsed);
          }))
        ≡ ok f
      → (blank ≡ false)
        × ((shell && not has) ≡ false)
        × (record parsed { tool = tool_of from_text parsed; args = some (args_of from_text parsed) }
            ≡ f)
  made_of parsed f true shell has h = absurd (cc h)
  made_of parsed f false true true h = (refl, refl, ok-injective h)
  made_of parsed f false true false h = absurd (cc h)
  made_of parsed f false false has h = (refl, refl, ok-injective h)

  tool_of_given : (parsed : Fixture Value) → str_eq (tool_of from_text parsed) "" ≡ false
  tool_of_given parsed =
      if_ind (λ t. str_eq t "" ≡ false) (str_eq parsed.tool "") (λ h. refl) (λ h. h)

  fixture_of-IsRunnable :
      (parsed f : Fixture Value) → fixture_of from_text parsed ≡ ok f → IsRunnable parsed f
  unfolding fixture_of
  fixture_of-IsRunnable parsed f h =
      let args = args_of from_text parsed in
      let shell = str_eq (tool_of from_text parsed) "shell.exec" in
      let (id_given, runs, same) =
        made_of parsed f (is_blank parsed.id) shell (is_some from_text (lookup "cmd" args)) h in
      subst (IsRunnable parsed) same (record {
        id_given = id_given;
        tool_given = tool_of_given parsed;
        args = args;
        args_given = refl;
        has_cmd = λ e. ground (arith, e, runs);
        cmd_used = λ e g. ground (arith, e, g, runs);
        same_id = refl;
        default_tool = λ e. rw e refl;
        same_tool = λ e. rw e refl;
        keeps_args = λ k g. with_cmd-keeps shell parsed.cmd k (given_args from_text parsed.args) g;
      })

  -- `LoadFixture` gives a fixture only with an ID and a tool, the shell where none was named; a shell
  -- fixture has the argument cmd, the fixture's command where it was not given; and the ID, a tool and arguments that were given stay as they were.
  pub load_fixture-IsRunnable :
      (read : String → Result String String) (unmarshal : String → Result String (Fixture Value))
      (path : String) (f : Fixture Value)
      → load_fixture from_text read unmarshal path ≡ ok f
      → (bytes : String) × (parsed : Fixture Value) × (read path ≡ ok bytes)
        × (unmarshal bytes ≡ ok parsed)
        × IsRunnable parsed f
  unfolding load_fixture
  load_fixture-IsRunnable read unmarshal path f h = elim (Result-cases (read path)) [
    | inr (e, q) ↦ absurd (ground (arith, h, q))
    | inl (bytes, q) ↦ elim (Result-cases (unmarshal bytes)) [
      | inr (e, p) ↦ absurd (ground (arith, h, q, p))
      | inl (parsed, p) ↦
          (bytes, parsed, q, p, fixture_of-IsRunnable parsed f (ground (arith, h, q, p)))
    ]
  ]

module _ (fs : FileSystem) where
  pick_three :
      (a b c : String)
      → let p = pick fs (add_candidate (add_candidate (add_candidate [] a) b) c) in
        (elem p (a ∷ b ∷ c ∷ []) ≡ true)
        × (fs.is_file p ≡ (fs.is_file a || fs.is_file b || fs.is_file c))
  pick_three a b c =
      ground (arith, eq_iff a b, eq_iff a c, eq_iff b c, eq_refl a, eq_refl b, eq_refl c)

  -- `ResolveFixturePath` of an argument that is not blank and not absolute gives one of three paths,
  -- the argument as it is, below the skill's folder, and below its tests, and it gives a file if any
  -- of them is one.
  pub resolve_fixture_path_lem :
      (skill_dir fixture_arg : String)
      → str_eq (trim fixture_arg) "" ≡ false
      → fs.is_abs (trim fixture_arg) ≡ false
      → let raw = trim fixture_arg in
        let here = fs.clean raw in
        let below = fs.clean (fs.join skill_dir raw) in
        let tests = fs.clean (fs.join (fs.join skill_dir "tests") raw) in
        let path = resolve_fixture_path fs skill_dir fixture_arg in
        (elem path (here ∷ below ∷ tests ∷ []) ≡ true)
        × (fs.is_file path ≡ (fs.is_file here || fs.is_file below || fs.is_file tests))
  unfolding resolve_fixture_path
  resolve_fixture_path_lem skill_dir fixture_arg given relative =
      let raw = trim fixture_arg in
      rw (given, resolve_fixture_path)
        (rw (relative, resolve_fixture_path)
          (pick_three (fs.clean raw) (fs.clean (fs.join skill_dir raw))
            (fs.clean (fs.join (fs.join skill_dir "tests") raw))))
