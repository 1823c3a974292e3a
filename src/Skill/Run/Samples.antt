-- ===== src/Skill/Run/Samples.antt =====
-- internal/skill/run: a budget of two calls, two runs that recorded one call each, and a fixture.
use Prim.Native.String.{◌++◌ as concat}
use virmux.Prelude.{
  if◌then◌else◌, Result, ok, err, pos, String, ◌≡◌, refl, ◌↔◌, true, false, none, some, List, [],
  ◌∷◌, arith, str_eq, is_blank, trim, text_leb,
}
use virmux.Skill.Run.Budget.{
  Budget, seconds_exceeded, new_budget_tracker, before_tool_call, check_elapsed, count_token,
}
use virmux.Skill.Run.Spent.{
  Request, tool_call, tokens, ask_all, pay_all, Agrees, new_budget_tracker-Agrees,
}
use virmux.Skill.Run.Fixture.{Fixture, cmd_required, load_fixture, FileSystem, resolve_fixture_path}
use virmux.Skill.Run.Fixture.Runnable.{IsRunnable, load_fixture-IsRunnable}
use virmux.Skill.Run.Hashes.{
  ToolHashRow, TraceLine, ReplayReport, against_required, count_mismatch_file, Recorded,
  verify_replay_hashes, compare_replay_hashes, is_deterministic_fixture, load_trace_tool_hashes,
  load_tool_io_hashes, load_artifact_hashes_from_inventory,
}
use virmux.Skill.Run.Hashes.Agreed.{IsVerified, verify_replay_hashes_iff}
use virmux.Skill.Run.Hashes.Compared.{IsSameRun, compare_replay_hashes_iff}

program : Unit {0}
unfolding before_tool_call count_token new_budget_tracker check_elapsed verify_replay_hashes
    compare_replay_hashes is_deterministic_fixture load_trace_tool_hashes load_tool_io_hashes
    load_artifact_hashes_from_inventory load_fixture resolve_fixture_path trim is_blank text_leb
program = tt

abbrev budget : Budget
budget = record { tool_calls = pos 2; seconds = pos 5; tokens = pos 100 }

abbrev requests : List Request
requests =
    tool_call ∷ tokens (pos 90) ∷ tool_call ∷ tokens (pos 20) ∷ tool_call ∷ tokens (pos 10) ∷ []

-- The third call and the second tokens are too much.
answers :
    (ask_all requests (new_budget_tracker budget (pos 0))).1
    ≡ true ∷ true ∷ true ∷ false ∷ false ∷ true ∷ []
unfolding program
answers = refl

-- After five seconds and one nanosecond.
too_late :
    check_elapsed (new_budget_tracker budget (pos 0)) (pos 5000000001)
    ≡ some (seconds_exceeded (pos 5))
unfolding program
too_late = refl

-- 2^63 - 1 tokens behind one wrap around, and are granted.
wrapped_tokens :
    (ask_all
      (tokens (pos 1) ∷ tokens (pos 9223372036854775807) ∷ [])
      (new_budget_tracker budget (pos 0))).1
    ≡ true ∷ true ∷ []
unfolding program
wrapped_tokens = refl

new_budget_tracker-Agrees_example :
    Agrees 2 100
      (ask_all requests (new_budget_tracker budget (pos 0)))
      (pay_all 2 100 requests (record { calls_spent = 0; tokens_spent = 0 }))
new_budget_tracker-Agrees_example =
    new_budget_tracker-Agrees budget (pos 0) 2 100 requests refl refl (omega arith)
      (omega arith, (omega arith, (omega arith, (omega arith, (omega arith, (omega arith, tt))))))

abbrev row : ToolHashRow
row = record {
  seq = pos 1;
  tool = "fs.read";
  input_hash = "#req";
  output_hash = "#res";
  error_code = "";
}

abbrev traced : TraceLine
traced = record {
  kind = "tool";
  tool = "fs.read";
  args_hash = "#req";
  output_hash = " #res";
  seq = pos 7;
  tool_seq = some (pos 1);
  payload_output_hash = "";
}

abbrev recorded : Recorded
recorded = record {
  trace = λ run_id. ok ("{}" ∷ [], none);
  parse_line = λ line. ok traced;
  tool_files =
      λ run_id. ok (record { name = "1.req.json"; request = ok "req"; response = ok "res" } ∷ []);
  parse_request = λ bytes. ok (pos 1, "fs.read");
  sha256 = λ bytes. concat "#" bytes;
  db_rows = λ run_id. if str_eq run_id "run-3" then ok [] else ok (row ∷ []);
  meta = λ run_id. none;
  artifacts = λ run_id. ok (record { rel = "a.md"; sha = "meta:1"; bytes = err "gone" } ∷ []);
}

abbrev report : String → String → ReplayReport
report run_id against = record {
  run_id = run_id;
  against_run_id = against;
  tool_calls = 1;
  verified = true;
  exempt = false;
  mismatch = none;
  rows = row ∷ [];
}

verifies : verify_replay_hashes recorded "run-1" ≡ ok (report "run-1" "")
unfolding program
verifies = refl

lost_row : verify_replay_hashes recorded "run-3" ≡ err (count_mismatch_file 0 1)
unfolding program
lost_row = refl

compares : compare_replay_hashes recorded "run-1" "run-2" ≡ ok (report "run-1" "run-2")
unfolding program
compares = refl

no_other_run : compare_replay_hashes recorded "run-1" " " ≡ err against_required
unfolding program
no_other_run = refl

verify_replay_hashes_iff_example :
    ((r : ReplayReport) × (verify_replay_hashes recorded "run-1" ≡ ok r))
    ↔ IsVerified recorded "run-1"
verify_replay_hashes_iff_example = verify_replay_hashes_iff recorded "run-1"

compare_replay_hashes_iff_example :
    ((r : ReplayReport) × (compare_replay_hashes recorded "run-1" "run-2" ≡ ok r)
      × (r.verified ≡ true))
    ↔ IsSameRun recorded "run-1" "run-2"
compare_replay_hashes_iff_example = compare_replay_hashes_iff recorded "run-1" "run-2"

abbrev parsed_fixture : Fixture String
parsed_fixture = record {
  id = "case-1";
  tool = "";
  cmd = "make";
  args = none;
  deterministic = true;
}

abbrev shell_fixture : Fixture String
shell_fixture = record {
  id = "case-1";
  tool = "shell.exec";
  cmd = "make";
  args = some (("cmd", "make") ∷ []);
  deterministic = true;
}

fixture_loads :
    load_fixture (λ s. s) (λ p. ok p) (λ b. ok parsed_fixture) "case-1.json" ≡ ok shell_fixture
unfolding program
fixture_loads = refl

no_command :
    load_fixture (λ s. s) (λ p. ok p) (λ b. ok (record parsed_fixture { cmd = "" })) "case-1.json"
    ≡ err cmd_required
unfolding program
no_command = refl

load_fixture-IsRunnable_example :
    (bytes : String) × (parsed : Fixture String) × (◌≡◌ {A = Result String String}
      (ok "case-1.json")
      (ok bytes))
    × (◌≡◌ {A = Result String (Fixture String)} (ok parsed_fixture) (ok parsed))
    × IsRunnable (λ s. s) parsed shell_fixture
load_fixture-IsRunnable_example =
    load_fixture-IsRunnable (λ s. s) (λ p. ok p) (λ b. ok parsed_fixture) "case-1.json"
      shell_fixture fixture_loads

-- The fixture is below the skill's tests.
abbrev folders : FileSystem
folders = record {
  is_abs = λ p. false;
  clean = λ p. p;
  join = λ d p. concat d (concat "/" p);
  is_file = λ p. str_eq p "skills/dd/tests/case-1.json";
}

fixture_found :
    resolve_fixture_path folders "skills/dd" "case-1.json" ≡ "skills/dd/tests/case-1.json"
unfolding program
fixture_found = refl
