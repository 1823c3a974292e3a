-- ===== src/Skill/Eval/Compare/Gated.antt =====
-- internal/skill/eval/eval.go: what it takes for a head to pass, and for promptfoo to have run.
use virmux.Prelude.{
  if◌then◌else◌, elem, distinct, elem-distinct, String, ◌≡◌, refl, sym, ◌∙◌, ◌↔◌, Bool, true, false,
  not, ◌&&◌, ◌||◌, Option, none, some, List, [], ◌∷◌, arith, eq_iff, eq_refl, is_blank,
}
use virmux.Skill.Eval.Results.{Arithmetic, Metrics}
use virmux.Skill.Eval.Compare.{
  AbThresholds, cost_exceeded, compare_ab, EvalFixture, fixture_ids, missing_id,
  validate_frozen_fixture_set, Tool, given_tool, local_tool, npx_tool, Action, validate_config,
  run_eval, run_promptfoo,
}

missing_id-none :
    (base ids : List String)
    → (missing_id base ids ≡ none) ↔ ((id : String) → elem id ids ≡ true → elem id base ≡ true)
unfolding missing_id
missing_id-none base [] = (λ h id m. absurd (cc m), λ h. refl)
missing_id-none base (x ∷ ids) =
    let rest = missing_id-none base ids in
    (
      λ h id m. ground (arith, h, m, eq_iff x id, rest.0 (ground (arith, h)) id),
      λ h. ground (arith, h x, eq_refl x, rest.1 (λ id m. h id (ground (arith, m)))),
    )

-- `ValidateFrozenFixtureSet` accepts exactly the heads all of whose fixtures' IDs the base has.
pub validate_frozen_fixture_set_iff :
    (head base : List EvalFixture)
    → (validate_frozen_fixture_set head base ≡ none)
      ↔ ((id : String) → elem id (fixture_ids head) ≡ true → elem id (fixture_ids base) ≡ true)
unfolding validate_frozen_fixture_set
validate_frozen_fixture_set_iff head base =
    let there = missing_id-none (distinct (fixture_ids base)) (distinct (fixture_ids head)) in
    (
      λ h id m.
          sym (elem-distinct id (fixture_ids base))
          ∙ there.0 (ground (arith, h)) id (elem-distinct id (fixture_ids head) ∙ m),
      λ h.
          rw
            (
              there.1 (λ id m.
                  elem-distinct id (fixture_ids base)
                  ∙ h id (sym (elem-distinct id (fixture_ids head)) ∙ m)),
              validate_frozen_fixture_set,
            )
            refl,
    )

module _ {Real : Type 0} (a : Arithmetic Real) where
  -- No limit, or a cost that is not above it.
  pub WithinCost : Option Real → Real → Type 0
  WithinCost none d = Unit {0}
  WithinCost (some most) d = a.below most d ≡ false

  within : (o : Option Real) (d : Real) → (cost_exceeded a o d ≡ none) ↔ WithinCost o d
  unfolding WithinCost
  within none d = (λ h. tt, λ h. refl)
  within (some most) d = ground arith

  -- `CompareAB` passes a head exactly if its median score fell by no more than is allowed, its fail
  -- rate rose by no more, and so did its cost where that has a limit.
  pub compare_ab_iff :
      (base head : Metrics Real) (th : AbThresholds Real)
      → ((compare_ab a base head th).pass ≡ true) ↔ (
          (a.below (a.sub head.score_p50 base.score_p50) th.min_score_delta ≡ false)
          × (a.below th.max_fail_rate_delta (a.sub head.fail_rate base.fail_rate) ≡ false)
          × WithinCost th.max_cost_delta (a.sub head.cost_total base.cost_total))
  unfolding compare_ab
  compare_ab_iff base head th =
      ground (arith, within th.max_cost_delta (a.sub head.cost_total base.cost_total))

-- `RunPromptfoo` succeeds exactly if the given promptfoo validates and evaluates; or it does not
-- validate, and either the local one is there and does both, or npx does.
pub run_promptfoo_iff :
    (succeeds : Tool → Action → Bool) (has_local : Bool) (bin : String)
    → let given = given_tool (if is_blank bin then "promptfoo" else bin) in
      let runs : Tool → Bool = λ tool. succeeds tool validate_config && succeeds tool run_eval in
      ((run_promptfoo succeeds has_local bin).1 ≡ none) ↔ (
        (runs given
          || not (succeeds given validate_config)
            && (has_local && runs local_tool || runs npx_tool))
        ≡ true)
unfolding run_promptfoo
run_promptfoo_iff succeeds has_local bin = ground arith
