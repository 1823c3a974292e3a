-- ===== src/Trace/Emitted.antt =====
-- internal/trace/trace.go: which emitted lines `ValidateLine` accepts.
use virmux.Prelude.{
  Result, ok, err, pos, ℕ, suc, String, ◌≡◌, refl, sym, subst, ◌↔◌, false, ◌||◌, Option, none, some,
  [], ◌∷◌, ◌++◌, arith, str_eq, if_ind,
}
use virmux.Trace.{
  Payload, Numbers, ToolReceipt, Entry, LineError, receipt_of, string_val, first_non_empty,
  extract_tool_receipt, entry_of, given_payload, next_entry, Writer, emit, is_above_zero,
  validate_tool, validate_entry, validate_line,
}

-- What a receipt that was extracted has.
abbrev IsNamed : Option ToolReceipt → Type 0
IsNamed none = Unit
IsNamed (some r) =
    (str_eq r.tool "" ≡ false)
    × (str_eq r.input_hash "" ≡ false)
    × (str_eq r.output_hash "" ≡ false)

receipt_of-IsNamed : (num : Numbers) (p : Payload) → IsNamed (receipt_of num p)
unfolding receipt_of
receipt_of-IsNamed num p =
    if_ind IsNamed
      (str_eq (string_val (p "tool")) ""
        || str_eq (first_non_empty (string_val (p "input_hash")) (string_val (p "args_hash"))) ""
        || str_eq (string_val (p "output_hash")) "")
      (λ h. tt) (λ h. (ground (arith, h), ground (arith, h), ground (arith, h)))

extract-IsNamed :
    (num : Numbers) (event : String) (p : Payload)
    → IsNamed (extract_tool_receipt num event (some p))
unfolding extract_tool_receipt
extract-IsNamed num event p =
    if_ind IsNamed (str_eq event "vm.tool.result") (λ h. receipt_of-IsNamed num p) (λ h. tt)

-- The references of a tool's output, where the entry is one of a tool.
abbrev pub HasRefs : Option ToolReceipt → Type 0
HasRefs none = Unit
HasRefs (some r) = (str_eq r.stdout_ref "" ≡ false) × (str_eq r.stderr_ref "" ≡ false)

abbrev pub AllGiven : (ts run_id task event : String) → Type 0
AllGiven ts run_id task event =
    (str_eq ts "" ≡ false)
    × (str_eq run_id "" ≡ false)
    × (str_eq task "" ≡ false)
    × (str_eq event "" ≡ false)

validate_entry_of :
    (num : Numbers) (ts run_id task event : String) (n : ℕ) (p back : Payload)
    (o : Option ToolReceipt)
    → IsNamed o
    → (validate_entry
          (record (entry_of num ts run_id task event (pos (suc n)) p o) { payload = some back })
        ≡ none)
      ↔ (AllGiven ts run_id task event × HasRefs o)
unfolding validate_entry validate_tool is_above_zero entry_of
validate_entry_of num ts run_id task event n p back none named = ground arith
validate_entry_of num ts run_id task event n p back (some r) named = ground (arith, named)

-- Let the entry marshal to a line that unmarshals to it but for its payload, in which numbers come
-- back as floats. `Emit` appends that line and counts it, and
-- `ValidateLine` accepts the line exactly if time, run, task and event are given and, where the event
-- is a tool's result with a receipt, both references of its output are.
pub emit_lem :
    (num : Numbers) (marshal : Entry → Result String String)
    (unmarshal : String → Result String Entry) (ts run_id task event : String)
    (payload : Option Payload) (back : Payload) (w : Writer) (line : String)
    → marshal (next_entry num ts run_id task event payload w.seq) ≡ ok line
    → unmarshal line
      ≡ ok (record (next_entry num ts run_id task event payload w.seq) { payload = some back })
    → (emit num marshal ts run_id task event payload w
        ≡ (record { seq = suc w.seq; lines = w.lines ++ line ∷ [] }, none))
      × ((validate_line unmarshal line ≡ none) ↔ (
          AllGiven ts run_id task event
          × HasRefs (extract_tool_receipt num event (some (given_payload num payload)))))
unfolding emit validate_line
emit_lem num marshal unmarshal ts run_id task event payload back w line m u = (
  rw (m, emit) refl,
  subst
      (λ r.
        (elim r as (λ _. Option LineError) [
          | err e ↦ some (LineError.invalid_json e)
          | ok e ↦ validate_entry e
        ]
          ≡ none)
        ↔ (AllGiven ts run_id task event
            × HasRefs (extract_tool_receipt num event (some (given_payload num payload)))))
      (sym u)
      (unfold next_entry in
        validate_entry_of num ts run_id task event w.seq (given_payload num payload) back
          (extract_tool_receipt num event (some (given_payload num payload)))
          (extract-IsNamed num event (given_payload num payload))),
)
