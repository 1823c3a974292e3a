-- ===== src/Skill/Run/Hashes.antt =====
-- internal/skill/run/core.go: whether the recorded tool calls of runs agree.
-- A run's directory, the database's answers, JSON, SHA-256 and paths are the record `Recorded`: what
-- each of them gives for a run. Formatted mismatches are constructors that hold what is printed.
pub mod Agreed
pub mod Compared
use Prim.Native.String.{◌++◌ as concat}
use text.Mathlib.Text.{starts_with}
use virmux.Prelude.{
  ◌==◌, if◌then◌else◌, Result, ok, err, length, ℤ, ℕ, String, Bool, true, false, not, ◌&&◌, ◌||◌,
  Option, none, some, List, [], ◌∷◌, str_eq, int_eq, is_blank, trim, ◌>>=◌, sort_texts, ◌>>◌,
}

pub record ToolHashRow : Type 0 where
  pub seq : ℤ
  pub tool : String
  pub input_hash : String
  pub output_hash : String
  pub error_code : String

-- A line of the trace, as far as it is read; `tool_seq` is the payload's number, if it is one that
-- is above 0, and `payload_output_hash` its trimmed text.
pub record TraceLine : Type 0 where
  pub kind : String
  pub tool : String
  pub args_hash : String
  pub output_hash : String
  pub seq : ℤ
  pub tool_seq : Option ℤ
  pub payload_output_hash : String

pub data ReplayError : Type 0 where
  against_required : ReplayError
  failed : String → ReplayError
  parse_trace_failed : String → ReplayError
  scan_trace_failed : String → ReplayError
  read_request_failed read_response_failed parse_request_failed : String → ReplayError
  count_mismatch_file count_mismatch_trace : ℕ → ℕ → ReplayError
  file_mismatch trace_mismatch : ToolHashRow → ToolHashRow → ReplayError
  read_artifact_failed : String → ReplayError

pub data Mismatch : Type 0 where
  call_counts artifact_counts : ℕ → ℕ → Mismatch
  first_divergence : ToolHashRow → ToolHashRow → Mismatch
  artifact_divergence : String → String → Mismatch

pub record ReplayReport : Type 0 where
  pub run_id : String
  pub against_run_id : String
  pub tool_calls : ℕ
  pub verified : Bool
  pub exempt : Bool
  pub mismatch : Option Mismatch
  pub rows : List ToolHashRow

-- A file toolio/*.req.json with its response: their bytes behind TrimSuffix.
pub record ToolFile : Type 0 where
  pub name : String
  pub request : Result String String
  pub response : Result String String

-- A row of the table `artifacts`, with its resolved path and the bytes there.
pub record ArtifactRow : Type 0 where
  pub rel : String
  pub sha : String
  pub bytes : Result String String

pub record Recorded : Type 0 where
  pub trace : String → Result String (List String × Option String)
  pub parse_line : String → Result String TraceLine
  pub tool_files : String → Result String (List ToolFile)
  pub parse_request : String → Result String (ℤ × String)
  pub sha256 : String → String
  pub db_rows : String → Result String (List ToolHashRow)
  pub meta : String → Option (Result String (Option Bool))
  pub artifacts : String → Result String (List ArtifactRow)

abbrev pub lift : {A : Type 0} → Result String A → Result ReplayError A
lift (ok a) = ok a
lift (err e) = err (failed e)

first_non_blank : String → String → String
first_non_blank s t = if str_eq (trim s) "" then trim t else trim s

-- `toolSeqFromTrace`
tool_seq_from_trace : TraceLine → ℤ
tool_seq_from_trace e = elim e.tool_seq [ some n ↦ n | none ↦ e.seq ]

trace_row : TraceLine → ToolHashRow
unfolding first_non_blank tool_seq_from_trace
trace_row e = record {
  seq = tool_seq_from_trace e;
  tool = e.tool;
  input_hash = e.args_hash;
  output_hash = first_non_blank e.output_hash e.payload_output_hash;
  error_code = "";
}

-- The rows whose seq, tool and hashes are the same.
abbrev pub same_hashes : ToolHashRow → ToolHashRow → Bool
same_hashes a b =
    int_eq a.seq b.seq
    && str_eq a.tool b.tool
    && str_eq a.input_hash b.input_hash
    && str_eq a.output_hash b.output_hash

abbrev pub same_row : ToolHashRow → ToolHashRow → Bool
same_row a b = same_hashes a b && str_eq a.error_code b.error_code

-- The loop over the database's rows, with the files' and the trace's at the same places.
check_rows : List ToolHashRow → List ToolHashRow → List ToolHashRow → Option ReplayError
check_rows (d ∷ ds) (f ∷ fs) (t ∷ ts) =
    let rest = check_rows ds fs ts in
    if not (same_hashes d f)
    then some (file_mismatch d f)
    else if not (same_hashes t d)
    then some (trace_mismatch t d)
    else rest
check_rows _ _ _ = none

-- The first rows that differ.
first_difference : List ToolHashRow → List ToolHashRow → Option Mismatch
first_difference (a ∷ xs) (b ∷ ys) =
    let rest = first_difference xs ys in if same_row a b then rest else some (first_divergence a b)
first_difference _ _ = none

first_artifact_difference : List String → List String → Option Mismatch
first_artifact_difference (a ∷ xs) (b ∷ ys) =
    let rest = first_artifact_difference xs ys in
    if str_eq a b then rest else some (artifact_divergence a b)
first_artifact_difference _ _ = none

module _ (w : Recorded) where
  trace_rows : List String → Result ReplayError (List ToolHashRow)
  unfolding trace_row
  trace_rows [] = ok []
  trace_rows (line ∷ lines) = elim (w.parse_line line) [
    | err e ↦ err (parse_trace_failed e)
    | ok e ↦
        trace_rows lines >>= λ rows. ok (if str_eq e.kind "tool" then trace_row e ∷ rows else rows)
  ]

  unfoldable pub load_trace_tool_hashes : String → Result ReplayError (List ToolHashRow)
  unfolding trace_rows
  load_trace_tool_hashes run_id = do
    (lines, ended) ← lift (w.trace run_id)
    rows ← trace_rows lines
    elim ended [ none ↦ ok rows | some e ↦ err (scan_trace_failed e) ]

  tool_row : ToolFile → Result ReplayError ToolHashRow
  tool_row file = elim file.request [
    | err e ↦ err (read_request_failed file.name)
    | ok req ↦ elim file.response [
      | err e ↦ err (read_response_failed file.name)
      | ok res ↦ elim (w.parse_request req) [
        | err e ↦ err (parse_request_failed file.name)
        | ok (req_id, tool) ↦ ok (record {
          seq = req_id;
          tool = tool;
          input_hash = w.sha256 req;
          output_hash = w.sha256 res;
          error_code = "";
        })
      ]
    ]
  ]

  tool_rows : List ToolFile → Result ReplayError (List ToolHashRow)
  unfolding tool_row
  tool_rows [] = ok []
  tool_rows (file ∷ files) = tool_row file >>= λ row. tool_rows files >>= λ rows. ok (row ∷ rows)

  unfoldable pub load_tool_io_hashes : String → Result ReplayError (List ToolHashRow)
  unfolding tool_rows
  load_tool_io_hashes run_id = lift (w.tool_files run_id) >>= tool_rows

  -- `VerifyReplayHashes` behind the three loads.
  compare_counts :
      String
      → List ToolHashRow
      → List ToolHashRow
      → List ToolHashRow
      → Result ReplayError ReplayReport
  unfolding check_rows
  compare_counts run_id ts fs ds =
      if not (length ds == length fs)
      then err (count_mismatch_file (length ds) (length fs))
      else if not (length ds == length ts)
      then err (count_mismatch_trace (length ds) (length ts))
      else elim (check_rows ds fs ts) [
        | some e ↦ err e
        | none ↦ ok (record {
          run_id = run_id;
          against_run_id = "";
          tool_calls = length ds;
          verified = true;
          exempt = false;
          mismatch = none;
          rows = ds;
        })
      ]

  unfoldable pub verify_replay_hashes : String → Result ReplayError ReplayReport
  unfolding compare_counts load_trace_tool_hashes load_tool_io_hashes
  verify_replay_hashes run_id = do
    ts ← load_trace_tool_hashes run_id
    fs ← load_tool_io_hashes run_id
    ds ← lift (w.db_rows run_id)
    compare_counts run_id ts fs ds

  -- A run without skill-run.json, or whose file does not say, counts as deterministic.
  unfoldable pub is_deterministic_fixture : String → Result ReplayError Bool
  is_deterministic_fixture run_id = elim (w.meta run_id) [
    | none ↦ ok true
    | some (err e) ↦ err (failed e)
    | some (ok none) ↦ ok true
    | some (ok (some b)) ↦ ok b
  ]

  artifact_line : ArtifactRow → Result ReplayError String
  artifact_line a =
      if starts_with (trim a.sha) "meta:"
      then ok (concat a.rel (concat ":" (trim a.sha)))
      else elim a.bytes [
        | err e ↦ err (read_artifact_failed a.rel)
        | ok bytes ↦ ok (concat a.rel (concat ":" (w.sha256 bytes)))
      ]

  artifact_lines : List ArtifactRow → Result ReplayError (List String)
  unfolding artifact_line
  artifact_lines [] = ok []
  artifact_lines (a ∷ xs) =
      artifact_line a >>= λ line. artifact_lines xs >>= λ lines. ok (line ∷ lines)

  unfoldable pub load_artifact_hashes_from_inventory : String → Result ReplayError (List String)
  unfolding artifact_lines
  load_artifact_hashes_from_inventory run_id =
      lift (w.artifacts run_id) >>= artifact_lines >>= λ lines. ok (sort_texts lines)

  -- The report that says that nothing differs, and the same with a difference.
  matching : String → String → List ToolHashRow → ReplayReport
  matching run_id against rows = record {
    run_id = run_id;
    against_run_id = against;
    tool_calls = length rows;
    verified = true;
    exempt = false;
    mismatch = none;
    rows = rows;
  }

  differing : ReplayReport → Mismatch → ReplayReport
  differing out m = record out { verified = false; mismatch = some m }

  compare_artifacts : ReplayReport → List String → List String → ReplayReport
  unfolding first_artifact_difference differing
  compare_artifacts out xs ys =
      if not (length xs == length ys)
      then differing out (artifact_counts (length xs) (length ys))
      else elim (first_artifact_difference xs ys) [ some m ↦ differing out m | none ↦ out ]

  -- `CompareReplayHashes` behind the two verifications.
  compare_runs :
      String → String → List ToolHashRow → List ToolHashRow → Result ReplayError ReplayReport
  unfolding matching differing first_difference load_artifact_hashes_from_inventory
      compare_artifacts
  compare_runs run_id against xs ys =
      let out = matching run_id against xs in
      if not (length xs == length ys)
      then ok (differing out (call_counts (length xs) (length ys)))
      else elim (first_difference xs ys) [
        | some m ↦ ok (differing out m)
        | none ↦ do
          base ← load_artifact_hashes_from_inventory run_id
          other ← load_artifact_hashes_from_inventory against
          ok (compare_artifacts out base other)
      ]

  exempted : String → String → ReplayReport
  exempted run_id against = record {
    run_id = run_id;
    against_run_id = against;
    tool_calls = 0;
    verified = false;
    exempt = true;
    mismatch = none;
    rows = [];
  }

  unfoldable pub compare_replay_hashes : String → String → Result ReplayError ReplayReport
  unfolding compare_runs exempted verify_replay_hashes is_deterministic_fixture
  compare_replay_hashes run_id against = if is_blank against then err against_required else do
    base_det ← is_deterministic_fixture run_id
    other_det ← is_deterministic_fixture against
    if not base_det || not other_det then ok (exempted run_id against) else (do
      base ← verify_replay_hashes run_id
      other ← verify_replay_hashes against
      compare_runs run_id against base.rows other.rows)
