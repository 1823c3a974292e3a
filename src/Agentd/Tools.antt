-- ===== src/Agentd/Tools.antt =====
-- internal/agentd/tools/tools.go: the registry of tools and its four runners.
-- A handler returns its response with the system calls that it made, in order, but for `lstat`. What
-- the system answers, the clock, JSON and SHA-256 are the parameter `Os`. Formatted references are
-- constructors.
pub mod Effects
use text.Mathlib.Text.{find?}
use Prim.Native.String.{◌++◌ as concat, len}
use virmux.Prelude.{
  ◌==◌, if◌then◌else◌, Result, ok, err, ℤ, pos, negsuc, is_zero, elem, ℕ, String, Bool, true, false,
  not, Option, none, some, List, [], ◌∷◌, str_eq, is_blank,
}
use virmux.Agentd.Guard.{Stat, GuardError, guard_data_path}

pub data ErrorCode : Type 0 where
  denied internal crash timed_out : ErrorCode

pub data Message : Type 0 where
  message : String → Message
  guard_message : GuardError → Message

pub record ToolError : Type 0 where
  pub code : ErrorCode
  pub msg : Message
  pub retryable : Bool
  pub req_id : ℤ

-- "artifacts/<req>.out" and "artifacts/<req>.err"
pub data Ref : Type 0 where
  no_ref : Ref
  out_ref err_ref : ℤ → Ref

-- `Response.Data`
pub data ToolData : Type 0 where
  no_data : ToolData
  shell_data : (stdout stderr : String) → ToolData
  read_data : (bytes : String) → (path : List String) → ToolData
  write_data : (path : List String) → (bytes : ℕ) → ToolData
  fetch_data : (status : ℤ) → (body : String) → ToolData

pub record Response : Type 0 where
  pub req_id : ℤ
  pub is_ok : Bool
  pub rc : ℤ
  pub stdout_ref : Ref
  pub stderr_ref : Ref
  pub oh_hash : String
  pub dur_ms : ℤ
  pub error : Option ToolError
  pub payload : ToolData
  pub artifact_refs : List Ref

pub record ShellArgs : Type 0 where
  pub cmd : String
  pub cwd : String
  pub timeout_ms : ℤ

pub record ReadArgs : Type 0 where
  pub path : String

pub record WriteArgs : Type 0 where
  pub path : String
  pub bytes : String
  pub mode : ℤ

pub record FetchArgs : Type 0 where
  pub url : String
  pub method : String
  pub body : String
  pub headers : List (String × String)
  pub timeout_ms : ℤ

pub data SystemCall : Type 0 where
  run_shell : ShellArgs → SystemCall
  read_file : List String → SystemCall
  make_dirs : List String → SystemCall
  write_file : List String → String → ℤ → SystemCall
  fetch : FetchArgs → SystemCall

-- The error of `cmd.Run`: whether the context's deadline was exceeded, and the code of an
-- *exec.ExitError.
pub record ShellFailure : Type 0 where
  pub text : String
  pub deadline_exceeded : Bool
  pub exit_code : Option ℤ

pub record ShellEnd : Type 0 where
  pub stdout : String
  pub stderr : String
  pub dur_ms : ℤ
  pub failure : Option ShellFailure

-- The error of `hc.Do`, with os.IsTimeout and the lower case of its text.
pub record FetchFailure : Type 0 where
  pub text : String
  pub lower_text : String
  pub is_timeout : Bool

pub record FetchEnd : Type 0 where
  pub dur_ms : ℤ
  pub reply : Result FetchFailure (ℤ × String)

pub record Os : Type 0 where
  pub lstat : List String → Stat
  pub shell : ShellArgs → ShellEnd
  pub read : List String → Result String String
  pub make : List String → Option String
  pub write : List String → String → ℤ → Option String
  pub new_request : FetchArgs → Option String
  pub send : FetchArgs → FetchEnd
  pub sha256 : String → String
  pub shell_args : String → Result String ShellArgs
  pub read_args : String → Result String ReadArgs
  pub write_args : String → Result String WriteArgs
  pub fetch_args : String → Result String FetchArgs

pub record Call : Type 0 where
  pub req_id : ℤ
  pub tool : String
  pub args : String
  pub allow : List String

abbrev pub plain_response : ℤ → Bool → Option ToolError → Response
plain_response id good e = record {
  req_id = id;
  is_ok = good;
  rc = pos 0;
  stdout_ref = no_ref;
  stderr_ref = no_ref;
  oh_hash = "";
  dur_ms = pos 0;
  error = e;
  payload = no_data;
  artifact_refs = [];
}

abbrev pub tool_error : ℤ → ErrorCode → Message → ToolError
tool_error id code msg = record { code = code; msg = msg; retryable = false; req_id = id }

abbrev pub err_resp : ℤ → ErrorCode → Message → Response
err_resp id code msg = plain_response id false (some (tool_error id code msg))

-- `if a.TimeoutMS <= 0 { a.TimeoutMS = 2000 }`
default_timeout : ℤ → ℤ
default_timeout (pos n) = if n == 0 then pos 2000 else pos n
default_timeout (negsuc n) = pos 2000

-- `if a.Mode == 0 { a.Mode = 0644 }`
default_mode : ℤ → ℤ
default_mode m = if is_zero m then pos 420 else m

-- filepath.Dir of the parts of a clean absolute path.
unfoldable pub dir : List String → List String
dir [] = []
dir (p ∷ []) = []
dir (p ∷ q ∷ ps) = p ∷ dir (q ∷ ps)

shell_code : ShellFailure → ErrorCode
shell_code f = if f.deadline_exceeded then timed_out else crash

shell_rc : ShellFailure → ℤ
shell_rc f = elim f.exit_code [ some n ↦ n | none ↦ if f.deadline_exceeded then pos 124 else pos 1 ]

shell_response : Os → ℤ → ShellEnd → Response
unfolding shell_code shell_rc
shell_response os id e =
    let base : Response = record {
      req_id = id;
      is_ok = true;
      rc = pos 0;
      stdout_ref = out_ref id;
      stderr_ref = err_ref id;
      oh_hash = os.sha256 (concat e.stdout e.stderr);
      dur_ms = e.dur_ms;
      error = none;
      payload = shell_data e.stdout e.stderr;
      artifact_refs = out_ref id ∷ err_ref id ∷ [];
    } in
    elim e.failure [
      | none ↦ base
      | some f ↦ record base {
        is_ok = false;
        rc = shell_rc f;
        error = some (tool_error id (shell_code f) (message f.text));
      }
    ]

shell_runner : Os → Call → List SystemCall × Response
unfolding shell_response default_timeout
shell_runner os c = elim (os.shell_args c.args) [
  | err e ↦ ([], err_resp c.req_id internal (message e))
  | ok a ↦
      if is_blank a.cmd
      then ([], err_resp c.req_id denied (message "empty cmd"))
      else (let b = record a { timeout_ms = default_timeout a.timeout_ms } in
          (run_shell b ∷ [], shell_response os c.req_id (os.shell b)))
]

read_at : Os → ℤ → List String → List SystemCall × Response
read_at os id p = elim (os.read p) [
  | err e ↦ (read_file p ∷ [], err_resp id crash (message e))
  | ok b ↦ (
    read_file p ∷ [],
    record (plain_response id true none) { oh_hash = os.sha256 b; payload = read_data b p },
  )
]

fs_read_runner : Os → Call → List SystemCall × Response
unfolding read_at
fs_read_runner os c = elim (os.read_args c.args) [
  | err e ↦ ([], err_resp c.req_id internal (message e))
  | ok a ↦ elim (guard_data_path os.lstat a.path false) [
    | err e ↦ ([], err_resp c.req_id denied (guard_message e))
    | ok p ↦ read_at os c.req_id p
  ]
]

-- Behind the guard of `fs.write`.
write_at : Os → ℤ → List String → String → ℤ → List SystemCall × Response
unfolding dir
write_at os id p bytes mode = elim (os.make (dir p)) [
  | some e ↦ (make_dirs (dir p) ∷ [], err_resp id crash (message e))
  | none ↦ elim (os.write p bytes mode) [
    | some e ↦ (make_dirs (dir p) ∷ write_file p bytes mode ∷ [], err_resp id crash (message e))
    | none ↦ (
      make_dirs (dir p) ∷ write_file p bytes mode ∷ [],
      record (plain_response id true none) {
        oh_hash = os.sha256 bytes;
        payload = write_data p (len bytes);
      },
    )
  ]
]

fs_write_runner : Os → Call → List SystemCall × Response
unfolding write_at default_mode
fs_write_runner os c = elim (os.write_args c.args) [
  | err e ↦ ([], err_resp c.req_id internal (message e))
  | ok a ↦ elim (guard_data_path os.lstat a.path true) [
    | err e ↦ ([], err_resp c.req_id denied (guard_message e))
    | ok p ↦ write_at os c.req_id p a.bytes (default_mode a.mode)
  ]
]

fetch_code : FetchFailure → ErrorCode
fetch_code f =
    if f.is_timeout
    then timed_out
    else elim (find? f.lower_text "timeout") [ some i ↦ timed_out | none ↦ crash ]

fetch_response : Os → ℤ → FetchEnd → Response
unfolding fetch_code
fetch_response os id e = elim e.reply [
  | err f ↦
      record (plain_response id false (some (tool_error id (fetch_code f) (message f.text)))) {
        dur_ms = e.dur_ms;
      }
  | ok (status, body) ↦ record (plain_response id true none) {
    dur_ms = e.dur_ms;
    oh_hash = os.sha256 body;
    payload = fetch_data status body;
  }
]

http_runner : Os → Call → List SystemCall × Response
unfolding fetch_response default_timeout
http_runner os c = elim (os.fetch_args c.args) [
  | err e ↦ ([], err_resp c.req_id internal (message e))
  | ok a ↦
      let b = record a {
        timeout_ms = default_timeout a.timeout_ms;
        method = if str_eq a.method "" then "GET" else a.method;
      } in
      elim (os.new_request b) [
        | some e ↦ ([], err_resp c.req_id crash (message e))
        | none ↦ (fetch b ∷ [], fetch_response os c.req_id (os.send b))
      ]
]

abbrev pub caps : List String
caps = "shell.exec" ∷ "fs.read" ∷ "fs.write" ∷ "http.fetch" ∷ []

-- The map of runners, at one tool.
run_tool : Os → Call → List SystemCall × Response
unfolding shell_runner fs_read_runner fs_write_runner http_runner
run_tool os c =
    let shell = shell_runner os c in
    let reads = fs_read_runner os c in
    let writes = fs_write_runner os c in
    let fetches = http_runner os c in
    if str_eq c.tool "shell.exec"
    then shell
    else if str_eq c.tool "fs.read"
    then reads
    else if str_eq c.tool "fs.write"
    then writes
    else if str_eq c.tool "http.fetch"
    then fetches
    else ([], err_resp c.req_id denied (message "unknown tool"))

-- `Registry.Handle`
unfoldable pub handle : Os → Call → List SystemCall × Response
unfolding run_tool
handle os c =
    if not (elem c.tool c.allow)
    then ([], err_resp c.req_id denied (message "tool not allowlisted"))
    else run_tool os c
