-- ===== src/Trace/Samples.antt =====
-- internal/trace/trace.go: a tool's result that is traced.
use Prim.Native.String.{◌++◌ as concat}
use virmux.Prelude.{
  if◌then◌else◌, Result, ok, err, pos, String, ◌≡◌, refl, ◌↔◌, Option, none, some, [], ◌∷◌, str_eq,
}
use virmux.Trace.{
  float, Value, text, int, Payload, Numbers, Entry, missing_io_refs, extract_tool_receipt,
  next_entry, Writer, emit, validate_line,
}
use virmux.Trace.Emitted.{AllGiven, HasRefs, emit_lem}

abbrev numbers : Numbers
numbers = record { of_float = λ s. pos 0; of_number = λ s. pos 0; parse_int = λ s. pos 0 }

abbrev tool_result : Payload
tool_result key =
    if str_eq key "tool"
    then some (text "fs.read")
    else if str_eq key "args_hash"
    then some (text "sha256:1")
    else if str_eq key "output_hash"
    then some (text "sha256:2")
    else if str_eq key "exit_code"
    then some (int (pos 0))
    else none

-- The same with the references of its output.
abbrev full_result : Payload
full_result key =
    if str_eq key "stdout_ref"
    then some (text "artifacts/1.out")
    else if str_eq key "stderr_ref"
    then some (text "artifacts/1.err")
    else tool_result key

abbrev no_lines : Writer
no_lines = record { seq = 0; lines = [] }

abbrev entry : Payload → Entry
entry p = next_entry numbers "2026-01-01T00:00:00Z" "run-1" "smoke" "vm.tool.result" (some p) 0

program : Unit {0}
unfolding next_entry validate_line emit extract_tool_receipt
program = tt

accepted : validate_line (λ s. ok (entry full_result)) "{}" ≡ none
unfolding program
accepted = refl

no_refs : validate_line (λ s. ok (entry tool_result)) "{}" ≡ some missing_io_refs
unfolding program
no_refs = refl

-- What JSON makes of a payload: its numbers are floats.
abbrev with_floats : Payload → Payload
with_floats p =
    λ key. elim (p key) as (λ _. Option Value) [ some (int n) ↦ some (float "1") | v ↦ v ]

abbrev written : String
written = "{\"run_id\":\"run-1\",\"event\":\"vm.tool.result\"}"

-- A line of the run and the event.
abbrev to_line : Entry → Result String String
to_line e =
    ok (concat "{\"run_id\":\"" (concat e.run_id (concat "\",\"event\":\"" (concat e.event "\"}"))))

abbrev of_line : String → Result String Entry
of_line s =
    if str_eq s written
    then ok (record (entry full_result) { payload = some (with_floats full_result) })
    else err "not this line"

emit_lem_example :
    (emit numbers to_line "2026-01-01T00:00:00Z" "run-1" "smoke" "vm.tool.result"
        (some full_result)
        no_lines
      ≡ (record { seq = 1; lines = written ∷ [] }, none))
    × ((validate_line of_line written ≡ none) ↔ (
        AllGiven "2026-01-01T00:00:00Z" "run-1" "smoke" "vm.tool.result"
        × HasRefs (extract_tool_receipt numbers "vm.tool.result" (some full_result))))
emit_lem_example =
    emit_lem numbers to_line of_line "2026-01-01T00:00:00Z" "run-1" "smoke" "vm.tool.result"
      (some full_result) (with_floats full_result) no_lines written (unfold program in refl) refl
