-- ===== src/Skill/Judge/Metrics/Readable.antt =====
-- internal/skill/judge/judge.go: which runs can be judged at all.
use virmux.Prelude.{
  bit, Result, ok, err, length, All, ℕ, ◌+◌, String, ◌≡◌, refl, ◌↔◌, inl, inr, Option, none, some,
  List, [], ◌∷◌, arith, str_eq, Result-cases,
}
use virmux.Trace.{Entry as TraceEntry, validate_line}
use virmux.Skill.Judge.Rubric.{Floats, Rubric}
use virmux.Skill.Judge.Metrics.{
  RunFiles, Evidence, Paths, Walked, count_tools, read_trace, walk_evidence_files, collect_metrics,
}
use virmux.Skill.Judge.Evaluate.{Judgement, evaluate}

module _ (unmarshal : String → Result String TraceEntry) where
  -- Every line is a valid line of a trace.
  abbrev pub AllValid : List String → Type 0
  AllValid = All (λ line. validate_line unmarshal line ≡ none)

  AllValid-of_count :
      (lines : List String) (n : ℕ) → count_tools unmarshal lines ≡ ok n → AllValid lines
  unfolding count_tools
  AllValid-of_count [] n h = tt
  AllValid-of_count (line ∷ lines) n h = elim (Result-cases (count_tools unmarshal lines)) [
    | inl (k, q) ↦ (ground (arith, h), AllValid-of_count lines k q)
    | inr (e, q) ↦ absurd (ground (arith, h, q))
  ]

  -- A line that is valid parses.
  parsed :
      (line : String)
      → validate_line unmarshal line ≡ none
      → (entry : TraceEntry) × (unmarshal line ≡ ok entry)
  unfolding validate_line
  parsed line h = elim (Result-cases (unmarshal line)) [
    | inl (entry, q) ↦ (entry, q)
    | inr (e, q) ↦ absurd (ground (arith, h, q))
  ]

  count-of_AllValid :
      (lines : List String) → AllValid lines → (n : ℕ) × (count_tools unmarshal lines ≡ ok n)
  unfolding count_tools
  count-of_AllValid [] h = (0, refl)
  count-of_AllValid (line ∷ lines) h =
      let (entry, q) = parsed line h.0 in
      let (n, p) = count-of_AllValid lines h.1 in
      (
        bit (str_eq entry.kind "tool") + n,
        rw (h.0, count_tools) (rw (q, count_tools) (rw (p, count_tools) refl)),
      )

  -- The trace opens, is read to its end, and is valid, and the walk over the files meets no error.
  pub record IsReadable (files : RunFiles) : Type 0 where
    pub lines : List String
    pub opened : files.trace ≡ ok (lines, none)
    pub valid : AllValid lines
    pub found : List (String × String)
    pub walked : files.walk ≡ ok found

module _ {Real : Type 0} (f : Floats Real) (decimals : Real → String) (paths : Paths)
    (sha256 : String → String) (unmarshal : String → Result String TraceEntry)
    (cfg_hash : Rubric Real → String → String → String) where
  read_trace-ok :
      (t : Result String (List String × Option String)) (c : ℕ × ℕ)
      → read_trace unmarshal t ≡ ok c
      → (lines : List String) × (t ≡ ok (lines, none)) × AllValid unmarshal lines
  unfolding read_trace
  read_trace-ok (err e) c h = absurd (cc h)
  read_trace-ok (ok (lines, some e)) c h = absurd (ground (arith, h))
  read_trace-ok (ok (lines, none)) c h = elim (Result-cases (count_tools unmarshal lines)) [
    | inl (n, q) ↦ (lines, refl, AllValid-of_count unmarshal lines n q)
    | inr (e, q) ↦ absurd (ground (arith, h, q))
  ]

  walked-ok :
      (w : Result String (List (String × String))) {x : Walked}
      → walk_evidence_files sha256 w ≡ ok x
      → (found : List (String × String)) × (w ≡ ok found)
  unfolding walk_evidence_files
  walked-ok (ok found) h = (found, refl)
  walked-ok (err e) h = absurd (cc h)

  walk-of_ok :
      (found : List (String × String))
      → (w : Walked) × (walk_evidence_files sha256 (ok found) ≡ ok w)
  unfolding walk_evidence_files
  walk-of_ok found = (_, refl)

  -- `Evaluate` gives a judgement exactly for a run whose trace opens, is read to its end and has
  -- only valid lines, and whose files are walked without an error.
  pub evaluate_iff :
      (files : RunFiles) (r : Rubric Real) (rubric_hash : String) (ev : Evidence)
      → ((j : Judgement Real) × (evaluate f decimals paths sha256 unmarshal cfg_hash files r
              rubric_hash ev
            ≡ ok j))
        ↔ IsReadable unmarshal files
  unfolding evaluate collect_metrics read_trace
  evaluate_iff files r rubric_hash ev = (readable, judged)
    where
      readable :
          ((j : Judgement Real) × (evaluate f decimals paths sha256 unmarshal cfg_hash files r
                rubric_hash ev
              ≡ ok j))
          → IsReadable unmarshal files
      readable (j, h) = elim (Result-cases (read_trace unmarshal files.trace)) [
        | inr (e, q) ↦ absurd (ground (arith, h, q))
        | inl (c, q) ↦ elim (Result-cases (walk_evidence_files sha256 files.walk)) [
          | inr (e, p) ↦ absurd (ground (arith, h, q, p))
          | inl (w, p) ↦
              let (lines, opened, valid) = read_trace-ok files.trace c q in
              let (found, walked) = walked-ok files.walk p in
              record {
                lines = lines;
                opened = opened;
                valid = valid;
                found = found;
                walked = walked;
              }
        ]
      ]

      judged :
          IsReadable unmarshal files
          → (j : Judgement Real) × (evaluate f decimals paths sha256 unmarshal cfg_hash files r
                rubric_hash ev
              ≡ ok j)
      judged s =
          let (n, counted) = count-of_AllValid unmarshal s.lines s.valid in
          let read : read_trace unmarshal files.trace ≡ ok (length s.lines, n) =
            rw s.opened (rw (counted, read_trace) refl) in
          let (w, walked) = walk-of_ok s.found in
          let walk : walk_evidence_files sha256 files.walk ≡ ok w = rw s.walked walked in
          rw (read, evaluate, collect_metrics) (rw (walk, evaluate, collect_metrics) (_, refl))
