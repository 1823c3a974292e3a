-- ===== src/Skill/Judge/Metrics.antt =====
-- internal/skill/judge/judge.go, `collectMetrics`: what a run's trace and files are worth.
-- A run's directory is the record `RunFiles`: the lines of its trace and what ended them, its regular
-- files under artifacts and toolio in the order of the walk, and which paths are regular files.
pub mod Readable
use Prim.Native.String.{◌++◌ as concat}
use virmux.Prelude.{
  ltb, ◌==◌, if◌then◌else◌, bit, Result, ok, err, length, pos, elem, ℕ, zero, ◌+◌, String, Bool,
  false, not, ◌&&◌, ◌||◌, Option, none, some, List, [], ◌∷◌, ◌++◌, str_eq, is_nil, is_blank, trim,
  ◌>>=◌, sort_texts, ◌>>◌,
}
use virmux.Trace.{LineError, invalid_json, validate_line}
use virmux.Trace.{Entry as TraceEntry}
use virmux.Skill.Judge.Rubric.{Floats}

pub record RunFiles : Type 0 where
  pub trace : Result String (List String × Option String)
  pub walk : Result String (List (String × String))
  pub is_regular : String → Bool

-- The run to be judged; `join` and `base` are those of filepath.
pub record Evidence : Type 0 where
  pub run_id : String
  pub skill : String
  pub run_dir : String
  pub run_status : String
  pub expect_files : List String
  pub mode : String
  pub model_id : String

pub record Paths : Type 0 where
  pub join : String → String → String
  pub base : String → String

pub record Metrics (Real : Type 0) : Type 0 where
  pub format : Real
  pub completeness : Real
  pub actionability : Real

pub data JudgeError : Type 0 where
  open_failed : String → JudgeError
  invalid_line : LineError → JudgeError
  scan_failed walk_failed : String → JudgeError

-- strings.EqualFold(strings.TrimSpace(s), "ok"): the k may be the Kelvin sign.
abbrev is_ok_status : String → Bool
is_ok_status s = elem (trim s) ("ok" ∷ "oK" ∷ "oK" ∷ "Ok" ∷ "OK" ∷ "OK" ∷ [])

-- The tool lines among the lines, all of which must be valid.
count_tools : (String → Result String TraceEntry) → List String → Result JudgeError ℕ
count_tools unmarshal [] = ok 0
count_tools unmarshal (line ∷ lines) = elim (validate_line unmarshal line) [
  | some e ↦ err (invalid_line e)
  | none ↦ elim (unmarshal line) [
    | err e ↦ err (invalid_line (invalid_json e))
    | ok entry ↦ count_tools unmarshal lines >>= λ n. ok (bit (str_eq entry.kind "tool") + n)
  ]
]

-- The counts of lines and of tool lines.
read_trace :
    (String → Result String TraceEntry)
    → Result String (List String × Option String)
    → Result JudgeError (ℕ × ℕ)
unfolding count_tools
read_trace unmarshal (err e) = err (open_failed e)
read_trace unmarshal (ok (lines, none)) = count_tools unmarshal lines >>= λ n. ok (length lines, n)
read_trace unmarshal (ok (lines, some e)) = count_tools unmarshal lines >> err (scan_failed e)

abbrev count_given : List (String × String) → ℕ
count_given [] = 0
count_given ((rel, bytes) ∷ files) = bit (not (is_blank bytes)) + count_given files

abbrev lines_of : (String → String) → List (String × String) → List String
lines_of sha256 [] = []
lines_of sha256 ((rel, bytes) ∷ files) =
    concat rel (concat ":" (sha256 bytes)) ∷ lines_of sha256 files

-- strings.Join(xs, "\n")
abbrev join_lines : List String → String
join_lines [] = ""
join_lines (x ∷ []) = x
join_lines (x ∷ y ∷ ys) = concat x (concat "\n" (join_lines (y ∷ ys)))

-- What `walkEvidenceFiles` gives.
record Walked : Type 0 where
  artifacts : ℕ
  actionable : ℕ
  joined_hash : String

walk_evidence_files :
    (String → String) → Result String (List (String × String)) → Result JudgeError Walked
walk_evidence_files sha256 (err e) = err (walk_failed e)
walk_evidence_files sha256 (ok files) = ok (record {
  artifacts = length files;
  actionable = count_given files;
  joined_hash = sha256 (join_lines (sort_texts (lines_of sha256 files)));
})

expected_file_exists : Paths → RunFiles → String → String → Bool
expected_file_exists paths files dir raw =
    let name = trim raw in
    if str_eq name ""
    then false
    else files.is_regular (paths.join dir name)
      || files.is_regular (paths.join (paths.join dir "artifacts") (paths.base name))

matched : Paths → RunFiles → String → List String → ℕ
unfolding expected_file_exists
matched paths files dir [] = 0
matched paths files dir (name ∷ names) =
    bit (expected_file_exists paths files dir name) + matched paths files dir names

module _ {Real : Type 0} (f : Floats Real) where
  -- The share of the expected files that are there.
  ratio : ℕ → List String → Real
  ratio n expected = f.div (f.of_int (pos n)) (f.of_int (pos (length expected)))

  completeness_of : Bool → ℕ → List String → Real
  unfolding ratio
  completeness_of both n expected =
      let start = if both then f.one else f.zero in
      if is_nil expected
      then start
      else if f.below f.zero (ratio n expected)
      then f.div (f.add start (ratio n expected)) f.two
      else start

  -- The metrics, the hash of the files, and the complaints.
  unfoldable pub collect_metrics :
      Paths
      → (String → String)
      → (String → Result String TraceEntry)
      → RunFiles
      → Evidence
      → Result JudgeError (Metrics Real × String × List String)
  unfolding read_trace walk_evidence_files matched completeness_of
  collect_metrics paths sha256 unmarshal files ev = do
    (lines, tools) ← read_trace unmarshal files.trace
    walked ← walk_evidence_files sha256 files.walk
    let found = matched paths files ev.run_dir ev.expect_files
    let missing =
        if not (is_nil ev.expect_files) && found == 0
        then "expected files not found under run dir/artifacts" ∷ []
        else []
    let empty = if walked.artifacts == 0 then "empty artifact set" ∷ [] else []
    ok (
      record {
        format = if ltb 0 lines && is_ok_status ev.run_status then f.one else f.zero;
        completeness =
            completeness_of (ltb 0 walked.artifacts && ltb 0 tools) found ev.expect_files;
        actionability =
            if ltb 0 walked.actionable && is_ok_status ev.run_status then f.one else f.zero;
      },
      walked.joined_hash,
      missing ++ empty,
    )
