-- ===== src/Skill/Gates/Passed.antt =====
-- internal/skill/gates/gates.go: what it means to pass the gates.
use virmux.Prelude.{
  Result, ok, All, String, ◌≡◌, refl, ◌≢◌, ◌↔◌, Bool, true, false, ◌||◌, none, List, [], ◌∷◌, arith,
  str_eq, eq_iff, result_ind,
}
use virmux.Skill.Gates.{EvalRun, VerdictDoc, failed_gate, parse_verdict, judge_doc, gate_eval}

module _ {Real : Type 0} (is_positive : Real → Bool)
    (unmarshal : String → Result String VerdictDoc) where
  -- What passing means.
  pub record IsPassed (run : EvalRun Real) : Type 0 where
    pub doc : VerdictDoc
    pub given : run.verdict_json ≢ ""
    pub parsed : unmarshal run.verdict_json ≡ ok doc
    pub hard_passed : All (λ g. g.1 ≡ true) doc.hard
    pub no_growth : is_positive run.fail_rate_delta ≡ false
    pub run_passed : run.pass ≡ true
    pub doc_passed : (doc.pass || doc.verdict_pass) ≡ true

  hard-of_none : (gs : List (String × Bool)) → failed_gate gs ≡ none → All (λ g. g.1 ≡ true) gs
  unfolding failed_gate
  hard-of_none [] h = tt
  hard-of_none ((gate, true) ∷ gs) h = (refl, hard-of_none gs h)
  hard-of_none ((gate, false) ∷ gs) h = absurd (cc h)

  none-of_hard : (gs : List (String × Bool)) → All (λ g. g.1 ≡ true) gs → failed_gate gs ≡ none
  unfolding failed_gate
  none-of_hard [] h = refl
  none-of_hard ((gate, true) ∷ gs) h = none-of_hard gs h.1
  none-of_hard ((gate, false) ∷ gs) h = absurd (cc h.0)

  judged :
      (run : EvalRun Real) (doc : VerdictDoc)
      → parse_verdict is_positive unmarshal run.verdict_json ≡ ok doc
      → judge_doc is_positive unmarshal run doc ≡ none
      → IsPassed run
  unfolding parse_verdict judge_doc
  judged run doc q o =
      let clear : failed_gate doc.hard ≡ none = ground (arith, o) in
      record {
        doc = doc;
        given = λ e. ground (arith, q, e, eq_iff run.verdict_json "");
        parsed = ground (arith, q);
        hard_passed = hard-of_none doc.hard clear;
        no_growth = ground (arith, o, clear);
        run_passed = ground (arith, o, clear);
        doc_passed = ground (arith, o, clear);
      }

  IsPassed-of_none :
      (run : EvalRun Real) → gate_eval is_positive unmarshal run ≡ none → IsPassed run
  unfolding gate_eval
  IsPassed-of_none run h =
      result_ind (λ o. o ≡ none → IsPassed run)
        (parse_verdict is_positive unmarshal run.verdict_json) (λ e q o. absurd (cc o))
        (λ doc q o. judged run doc q o) h

  none-of_IsPassed :
      (run : EvalRun Real) → IsPassed run → gate_eval is_positive unmarshal run ≡ none
  unfolding gate_eval parse_verdict judge_doc
  none-of_IsPassed run p =
      let raw : str_eq run.verdict_json "" ≡ false =
        ground (arith, eq_iff run.verdict_json "", p.given) in
      rw (raw, gate_eval)
        (rw (p.parsed, gate_eval)
          (ground (
            arith,
            none-of_hard p.doc.hard p.hard_passed,
            p.no_growth,
            p.run_passed,
            p.doc_passed,
          )))

  -- `GateEval` passes exactly the runs whose verdict is there and parses, has no hard gate that
  -- failed, and passed, while the run passed too and its fail rate did not grow.
  pub gate_eval_iff :
      (run : EvalRun Real) → (gate_eval is_positive unmarshal run ≡ none) ↔ IsPassed run
  gate_eval_iff run = (IsPassed-of_none run, none-of_IsPassed run)
