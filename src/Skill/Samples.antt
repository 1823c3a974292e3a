-- ===== src/Skill/Samples.antt =====
-- internal/skill/gates and internal/skill/promosvc: a promotion, with integers for the floats.
use virmux.Prelude.{
  ltb, Result, ok, err, ℤ, pos, negsuc, String, ◌≡◌, refl, ◌↔◌, Bool, true, false, none, some, [],
  ◌∷◌, str_eq, is_blank, trim,
}
use virmux.Skill.Gates.{EvalRun, VerdictDoc, hard_gate_failed, fail_rate_grew, gate_eval}
use virmux.Skill.Gates.Passed.{IsPassed, gate_eval_iff}
use virmux.Skill.Promote.{Input, stale, insert_failed, tag_moved, Store, World, is_stale, run}
use virmux.Skill.Promote.Gated.{Gated, run-Gated}

abbrev grew : ℤ → Bool
grew (pos n) = ltb 0 n
grew (negsuc n) = false

-- A verdict is "pass", or names the hard gate that failed.
abbrev unmarshal : String → Result String VerdictDoc
unmarshal s = ok (record {
  pass = true;
  verdict_pass = false;
  hard = ("fail_rate", true) ∷ ("replay", str_eq s "pass") ∷ [];
})

abbrev evaluation : EvalRun ℤ
evaluation = record {
  id = "eval-1";
  skill = "dd";
  base_ref = "main";
  head_ref = "next";
  fail_rate_delta = negsuc 0;
  pass = true;
  verdict_json = "pass";
  verdict_sha256 = "sha256:1";
}

program : Unit {0}
unfolding gate_eval run is_stale is_blank trim
program = tt

replay_gate :
    gate_eval grew unmarshal (record evaluation { verdict_json = "fail" })
    ≡ some (hard_gate_failed "replay")
unfolding program
replay_gate = refl

growth :
    gate_eval grew unmarshal (record evaluation { fail_rate_delta = pos 1 }) ≡ some fail_rate_grew
unfolding program
growth = refl

gate_eval_iff_example :
    (gate_eval grew unmarshal evaluation ≡ none) ↔ IsPassed grew unmarshal evaluation
gate_eval_iff_example = gate_eval_iff grew unmarshal evaluation

abbrev database : Store ℤ
database = record { get_eval_run = λ id. ok evaluation; insert_promotion = λ p. none }

-- The evaluation is five hours old, and every ref is the commit "c0ffee".
abbrev world : World ℤ
world = record {
  store = some database;
  user = some "ann";
  rev_parse = λ ref. ok "c0ffee\n";
  move_tag = λ tag sha. none;
  now = pos 17;
  age = λ r. some (pos 18_000_000_000_000);
}

abbrev promote : Input
promote = record {
  skill_name = "dd";
  eval_run_id = "eval-1";
  tag = "";
  actor = " ";
  max_age_hours = pos 24;
  rollback = false;
  to_ref = "";
  reason = "";
  dry_run = false;
}

too_old :
    run grew unmarshal world (record promote { max_age_hours = pos 2 }) ≡ ([], err (stale "eval-1"))
unfolding program
too_old = refl

-- The tag stays where it was moved if the promotion cannot be recorded.
not_recorded :
    run grew unmarshal
      (record world { store = some (record database { insert_promotion = λ p. some "disk full" }) })
      promote
    ≡ (tag_moved "skill/dd/prod" "c0ffee" ∷ [], err (insert_failed "disk full"))
unfolding program
not_recorded = refl

run-Gated_example : Gated grew unmarshal world promote database (run grew unmarshal world promote)
run-Gated_example = run-Gated grew unmarshal world promote database refl
