-- ===== src/Skill/Promote.antt =====
-- internal/skill/promosvc/service.go: promotion and rollback of a skill's tag.
-- `Run` returns its result with what it changed, in order: tags that git moved, and promotions that
-- the store took. `rev-parse`, `tag -f`, the store, the user and the clock are the record `World`.
-- `age` is the nanoseconds since the run was created, or `none` where that time is zero. Formatted messages
-- and IDs are constructors.
pub mod Gated
use text.Mathlib.Text.{starts_with}
use Prim.Native.String.{◌++◌ as concat}
use virmux.Prelude.{
  if◌then◌else◌, Result, ok, err, ℤ, pos, String, Bool, false, not, ◌&&◌, Option, none, some, List,
  [], ◌∷◌, str_eq, is_blank, trim,
}
use virmux.Skill.Run.Budget.{int_gt, mul_int64}
use virmux.Skill.Gates.{EvalRun, VerdictDoc, GateError, gate_eval}

pub record Input : Type 0 where
  pub skill_name : String
  pub eval_run_id : String
  pub tag : String
  pub actor : String
  pub max_age_hours : ℤ
  pub rollback : Bool
  pub to_ref : String
  pub reason : String
  pub dry_run : Bool

-- `promoID`: the clock, and what was done.
pub record PromotionId : Type 0 where
  pub unix_nano : ℤ
  pub rolled_back : Bool
  pub dry_run : Bool

-- What is promoted, and from where.
pub record Target : Type 0 where
  pub eval_run : String
  pub from_ref : String
  pub to_ref : String
  pub base_ref : String
  pub head_ref : String
  pub commit_sha : String
  pub metrics_json : String
  pub verdict_sha256 : String

-- internal/store: `Promotion`
pub record Promotion : Type 0 where
  pub id : PromotionId
  pub skill : String
  pub tag : String
  pub target : Target
  pub reason : String
  pub actor : String

pub data PromoteError : Type 0 where
  store_required skill_required rollback_needs_ref needs_eval_run : PromoteError
  missing_verdict : String → PromoteError
  skill_mismatch : String → String → PromoteError
  refused : GateError → PromoteError
  stale : String → PromoteError
  resolve_failed : String → String → PromoteError
  empty_ref : String → PromoteError
  tag_failed : String → PromoteError
  insert_failed : String → PromoteError

pub data Change : Type 0 where
  tag_moved : (tag : String) → (sha : String) → Change
  recorded : Promotion → Change

pub record Store (Real : Type 0) : Type 0 where
  pub get_eval_run : String → Result String (EvalRun Real)
  pub insert_promotion : Promotion → Option String

pub record World (Real : Type 0) : Type 0 where
  pub store : Option (Store Real)
  pub user : Option String
  pub rev_parse : String → Result String String
  pub move_tag : String → String → Option String
  pub now : ℤ
  pub age : EvalRun Real → Option ℤ

-- `time.Duration(in.MaxAgeHours) * time.Hour`, an int64.
abbrev pub max_age : Input → ℤ
max_age i = mul_int64 i.max_age_hours (pos 3_600_000_000_000)

-- `Result`
pub record Promoted : Type 0 where
  pub id : PromotionId
  pub tag : String
  pub target : Target
  pub actor : String

module _ {Real : Type 0} (is_positive : Real → Bool) (unmarshal : String → Result String VerdictDoc)
    (w : World Real) where
  resolve_ref : String → Result String String
  resolve_ref ref = elim (w.rev_parse ref) [
    | ok out ↦ ok out
    | err e ↦ if starts_with ref "refs/" then err e else w.rev_parse (concat "refs/tags/" ref)
  ]

  -- `resolveRef`, with the tests behind each of its calls.
  resolve : String → Result PromoteError String
  unfolding resolve_ref
  resolve ref = elim (resolve_ref ref) [
    | err e ↦ err (resolve_failed ref e)
    | ok out ↦ if str_eq (trim out) "" then err (empty_ref ref) else ok (trim out)
  ]

  pub promo_tag : Input → String
  promo_tag i =
      if str_eq (trim i.tag) "" then concat "skill/" (concat i.skill_name "/prod") else trim i.tag

  promo_actor : Input → String
  promo_actor i =
      if str_eq (trim i.actor) ""
      then elim w.user [ none ↦ "" | some user ↦ trim user ]
      else trim i.actor

  -- The link of a rollback to an evaluation, if any.
  link : Store Real → String → Result PromoteError String
  link store id =
      let found = store.get_eval_run id in
      if str_eq id ""
      then ok ""
      else elim found [ err e ↦ err (missing_verdict e) | ok run ↦ ok run.id ]

  rollback_target : Store Real → Input → Result PromoteError Target
  unfolding link resolve promo_tag
  rollback_target store i =
      if str_eq i.to_ref "" then err rollback_needs_ref else elim (link store i.eval_run_id) [
        | err e ↦ err e
        | ok run_id ↦ elim (resolve (promo_tag i)) [
          | err e ↦ err e
          | ok from ↦ elim (resolve i.to_ref) [
            | err e ↦ err e
            | ok sha ↦ ok (record {
              eval_run = run_id;
              from_ref = from;
              to_ref = i.to_ref;
              base_ref = from;
              head_ref = i.to_ref;
              commit_sha = sha;
              metrics_json = "";
              verdict_sha256 = "";
            })
          ]
        ]
      ]

  unfoldable pub is_stale : Input → EvalRun Real → Bool
  is_stale i run = elim (w.age run) [
    | none ↦ false
    | some age ↦ int_gt (max_age i) (pos 0) && int_gt age (max_age i)
  ]

  -- The promotion of a run that passed its checks.
  run_target : EvalRun Real → Result PromoteError Target
  unfolding resolve
  run_target run = elim (resolve run.head_ref) [
    | err e ↦ err e
    | ok sha ↦ ok (record {
      eval_run = run.id;
      from_ref = run.base_ref;
      to_ref = run.head_ref;
      base_ref = run.base_ref;
      head_ref = run.head_ref;
      commit_sha = sha;
      metrics_json = run.verdict_json;
      verdict_sha256 = run.verdict_sha256;
    })
  ]

  check_run : Input → EvalRun Real → Result PromoteError Target
  unfolding run_target is_stale
  check_run i run =
      if not (str_eq run.skill i.skill_name)
      then err (skill_mismatch run.skill i.skill_name)
      else elim (gate_eval is_positive unmarshal run) [
        | some e ↦ err (refused e)
        | none ↦ if is_stale i run then err (stale i.eval_run_id) else run_target run
      ]

  promote_target : Store Real → Input → Result PromoteError Target
  unfolding check_run
  promote_target store i =
      if is_blank i.eval_run_id
      then err needs_eval_run
      else elim (store.get_eval_run i.eval_run_id) [
        | err e ↦ err (missing_verdict e)
        | ok run ↦ check_run i run
      ]

  find_target : Store Real → Input → Result PromoteError Target
  unfolding rollback_target promote_target
  find_target store i = if i.rollback then rollback_target store i else promote_target store i

  promotion : Input → Target → Promotion
  unfolding promo_tag promo_actor
  promotion i t = record {
    id = record { unix_nano = w.now; rolled_back = i.rollback; dry_run = i.dry_run };
    skill = i.skill_name;
    tag = promo_tag i;
    target = t;
    reason = i.reason;
    actor = promo_actor i;
  }

  promoted : Input → Target → Promoted
  unfolding promotion
  promoted i t = record {
    id = (promotion i t).id;
    tag = promo_tag i;
    target = t;
    actor = promo_actor i;
  }

  -- The two changes, if the run is not a dry one.
  apply : Store Real → Input → Target → List Change × Result PromoteError Promoted
  unfolding promoted
  apply store i t =
      let moved : Change = tag_moved (promo_tag i) t.commit_sha in
      if i.dry_run then ([], ok (promoted i t)) else elim (w.move_tag (promo_tag i) t.commit_sha) [
        | some e ↦ ([], err (tag_failed e))
        | none ↦ elim (store.insert_promotion (promotion i t)) [
          | some e ↦ (moved ∷ [], err (insert_failed e))
          | none ↦ (moved ∷ recorded (promotion i t) ∷ [], ok (promoted i t))
        ]
      ]

  run_with : Store Real → Input → List Change × Result PromoteError Promoted
  unfolding find_target apply
  run_with store i =
      if is_blank i.skill_name
      then ([], err skill_required)
      else elim (find_target store i) [ err e ↦ ([], err e) | ok t ↦ apply store i t ]

  -- `Service.Run`
  unfoldable pub run : Input → List Change × Result PromoteError Promoted
  unfolding run_with
  run i = elim w.store [ none ↦ ([], err store_required) | some store ↦ run_with store i ]
