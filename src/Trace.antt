-- ===== src/Trace.antt =====
-- internal/trace/trace.go: the trace of a run, one JSON line for each event.
-- A payload is a map, as a function of the key. What Go makes of the numbers in it is the record
-- `Numbers`; JSON and the clock are parameters. A writer is what was written, and writes do not fail.
pub mod Emitted
mod Samples
use virmux.Prelude.{
  ltb, if◌then◌else◌, Result, ok, err, ℤ, pos, negsuc, ℕ, suc, String, Bool, true, false, not, ◌||◌,
  Option, none, some, List, [], ◌∷◌, ◌++◌, str_eq,
}

-- The values of a payload that are told apart.
pub data Value : Type 0 where
  text : String → Value
  int : ℤ → Value
  float json_number : String → Value
  other_value : Value

abbrev pub Payload : Type 0
Payload = String → Option Value

-- int64(x), json.Number.Int64, and strconv.ParseInt of the trimmed text; 0 for what does not parse.
pub record Numbers : Type 0 where
  pub of_float : String → ℤ
  pub of_number : String → ℤ
  pub parse_int : String → ℤ

pub record ToolReceipt : Type 0 where
  pub req_id : ℤ
  pub seq : ℤ
  pub tool : String
  pub input_hash : String
  pub output_hash : String
  pub input_ref : String
  pub output_ref : String
  pub stdout_ref : String
  pub stderr_ref : String
  pub rc : ℤ
  pub dur_ms : ℤ
  pub bytes_in : ℤ
  pub bytes_out : ℤ
  pub error_code : String

pub record Entry : Type 0 where
  pub ts : String
  pub run_id : String
  pub seq : ℤ
  pub kind : String
  pub task : String
  pub event : String
  pub tool : String
  pub args_hash : String
  pub output_hash : String
  pub stdout_ref : String
  pub stderr_ref : String
  pub exit_code : Option ℤ
  pub dur_ms : Option ℤ
  pub bytes_in : Option ℤ
  pub bytes_out : Option ℤ
  pub payload : Option Payload

pub data LineError : Type 0 where
  invalid_json : String → LineError
  missing_field missing_type missing_receipt_field missing_io_refs : LineError

string_val : Option Value → String
string_val (some (text s)) = s
string_val _ = ""

first_non_empty : String → String → String
first_non_empty s t = if str_eq s "" then t else s

module _ (num : Numbers) where
  int64_val : Option Value → ℤ
  int64_val (some (int n)) = n
  int64_val (some (float f)) = num.of_float f
  int64_val (some (json_number s)) = num.of_number s
  int64_val (some (text s)) = num.parse_int s
  int64_val (some other_value) = pos 0
  int64_val none = pos 0

  -- `ExtractToolReceipt` behind the tests of the event and of a nil payload.
  receipt_of : Payload → Option ToolReceipt
  unfolding string_val int64_val first_non_empty
  receipt_of p =
      let tool = string_val (p "tool") in
      let in_hash = first_non_empty (string_val (p "input_hash")) (string_val (p "args_hash")) in
      let out_hash = string_val (p "output_hash") in
      if str_eq tool "" || str_eq in_hash "" || str_eq out_hash ""
      then none
      else some (record {
        req_id = int64_val (p "req");
        seq = int64_val (p "tool_seq");
        tool = tool;
        input_hash = in_hash;
        output_hash = out_hash;
        input_ref = string_val (p "input_ref");
        output_ref = string_val (p "output_ref");
        stdout_ref = string_val (p "stdout_ref");
        stderr_ref = string_val (p "stderr_ref");
        rc = int64_val (p "exit_code");
        dur_ms = int64_val (p "dur_ms");
        bytes_in = int64_val (p "bytes_in");
        bytes_out = int64_val (p "bytes_out");
        error_code = string_val (p "error_code");
      })

  unfoldable pub extract_tool_receipt : String → Option Payload → Option ToolReceipt
  unfolding receipt_of
  extract_tool_receipt event none = none
  extract_tool_receipt event (some p) = if str_eq event "vm.tool.result" then receipt_of p else none

  -- The entry that `Emit` marshals.
  unfoldable pub entry_of :
      (ts run_id task event : String) → ℤ → Payload → Option ToolReceipt → Entry
  entry_of ts run_id task event seq p receipt =
      let base : Entry = record {
        ts = ts;
        run_id = run_id;
        seq = seq;
        kind = "event";
        task = task;
        event = event;
        tool = "";
        args_hash = "";
        output_hash = "";
        stdout_ref = "";
        stderr_ref = "";
        exit_code = none;
        dur_ms = none;
        bytes_in = none;
        bytes_out = none;
        payload = some p;
      } in
      elim receipt [
        | none ↦ base
        | some r ↦ record base {
          kind = "tool";
          tool = r.tool;
          args_hash = r.input_hash;
          output_hash = r.output_hash;
          stdout_ref = r.stdout_ref;
          stderr_ref = r.stderr_ref;
          exit_code = some r.rc;
          dur_ms = some r.dur_ms;
          bytes_in = some r.bytes_in;
          bytes_out = some r.bytes_out;
        }
      ]

  -- A nil payload is replaced by an empty one.
  abbrev pub given_payload : Option Payload → Payload
  given_payload none = λ key. none
  given_payload (some p) = p

  -- The next entry of a writer that has emitted `seq` events.
  unfoldable pub next_entry : (ts run_id task event : String) → Option Payload → ℕ → Entry
  unfolding entry_of extract_tool_receipt
  next_entry ts run_id task event payload seq =
      let p = given_payload payload in
      entry_of ts run_id task event (pos (suc seq)) p (extract_tool_receipt event (some p))

pub record Writer : Type 0 where
  pub seq : ℕ
  pub lines : List String

-- `Emit`: the sequence number moves on even if the entry does not marshal.
unfoldable pub emit :
    Numbers
    → (Entry → Result String String)
    → (ts run_id task event : String) → Option Payload
    → Writer
    → Writer × Option String
unfolding next_entry
emit num marshal ts run_id task event payload w =
    elim (marshal (next_entry num ts run_id task event payload w.seq)) [
      | err e ↦ (record w { seq = suc w.seq }, some e)
      | ok line ↦ (record { seq = suc w.seq; lines = w.lines ++ line ∷ [] }, none)
    ]

abbrev is_given {ℓ} : {A : Type ℓ} → Option A → Bool
is_given none = false
is_given (some a) = true

-- `e.Seq > 0`
is_above_zero : ℤ → Bool
is_above_zero (pos n) = ltb 0 n
is_above_zero (negsuc n) = false

validate_tool : Entry → Option LineError
validate_tool e =
    if str_eq e.tool ""
      || str_eq e.args_hash ""
      || str_eq e.output_hash ""
      || not (is_given e.exit_code)
      || not (is_given e.dur_ms)
      || not (is_given e.bytes_in)
      || not (is_given e.bytes_out)
    then some missing_receipt_field
    else if str_eq e.stdout_ref "" || str_eq e.stderr_ref ""
    then some missing_io_refs
    else none

validate_entry : Entry → Option LineError
unfolding validate_tool is_above_zero
validate_entry e =
    if str_eq e.ts ""
      || str_eq e.run_id ""
      || not (is_above_zero e.seq)
      || str_eq e.task ""
      || str_eq e.event ""
      || not (is_given e.payload)
    then some missing_field
    else if str_eq e.kind ""
    then some missing_type
    else if str_eq e.kind "tool"
    then validate_tool e
    else none

unfoldable pub validate_line : (String → Result String Entry) → String → Option LineError
unfolding validate_entry
validate_line unmarshal line = elim (unmarshal line) [
  | err e ↦ some (invalid_json e)
  | ok e ↦ validate_entry e
]
