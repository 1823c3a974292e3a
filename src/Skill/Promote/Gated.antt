-- ===== src/Skill/Promote/Gated.antt =====
-- internal/skill/promosvc/service.go: what must hold before a tag is moved or a promotion recorded.
use virmux.Prelude.{
  Result, ok, err, All, ℤ, pos, String, ◌≡◌, refl, sym, subst, ◌⊎◌, inl, inr, Bool, true, false,
  not, some, List, [], ◌∷◌, arith, str_eq, eq_iff, if_ind, Result-cases, is_blank, result_ind,
  option_ind, trim,
}
use text.Mathlib.Text.{starts_with}
use Prim.Native.String.{◌++◌ as concat}
use virmux.Skill.Run.Budget.{int_gt}
use virmux.Skill.Gates.{EvalRun, VerdictDoc, gate_eval}
use virmux.Skill.Gates.Passed.{IsPassed, gate_eval_iff}
use virmux.Skill.Promote.{
  Input, max_age, Target, Promotion, PromoteError, Change, tag_moved, recorded, Store, World,
  Promoted, resolve, promo_tag, rollback_target, is_stale, run_target, check_run, promote_target,
  find_target, promotion, promoted, apply, run_with, run, link, resolve_ref,
}

module _ {Real : Type 0} (is_positive : Real → Bool) (unmarshal : String → Result String VerdictDoc)
    (w : World Real) (i : Input) where
  -- A run that has a time is not older than a positive limit.
  abbrev pub InTime : EvalRun Real → Type 0
  InTime r =
      (age : ℤ)
      → w.age r ≡ some age
      → int_gt (max_age i) (pos 0) ≡ true
      → int_gt age (max_age i) ≡ false

  -- What git answers for `ref`, or for the tag of that name if it knows no such ref, without white
  -- space around it.
  abbrev pub IsCommit : String → String → Type 0
  IsCommit ref sha =
      (out : String) × ((w.rev_parse ref ≡ ok out)
        ⊎ ((e : String) × (w.rev_parse ref ≡ err e)
            × (starts_with ref "refs/" ≡ false)
            × (w.rev_parse (concat "refs/tags/" ref) ≡ ok out)))
      × (sha ≡ trim out)
      × (str_eq sha "" ≡ false)

  -- A promotion that is not a rollback has an evaluation of that skill that passed the gates, in time,
  -- and takes its refs.
  abbrev pub Evaluated : Store Real → Target → Type 0
  Evaluated store t =
      (r : EvalRun Real) × (store.get_eval_run i.eval_run_id ≡ ok r)
      × (r.skill ≡ i.skill_name)
      × IsPassed is_positive unmarshal r
      × InTime r
      × (t.eval_run ≡ r.id)
      × (t.from_ref ≡ r.base_ref)
      × (t.to_ref ≡ r.head_ref)
      × (t.metrics_json ≡ r.verdict_json)
      × (t.verdict_sha256 ≡ r.verdict_sha256)

  -- The target is the commit of its ref, which the evaluation gives, or the input of a rollback; a
  -- rollback comes from the commit of the tag.
  abbrev pub Grounded : Store Real → Target → Type 0
  Grounded store t =
      IsCommit t.to_ref t.commit_sha
      × (t.base_ref ≡ t.from_ref)
      × (t.head_ref ≡ t.to_ref)
      × (((i.rollback ≡ true)
            × (t.to_ref ≡ i.to_ref)
            × IsCommit (promo_tag is_positive unmarshal w i) t.from_ref)
          ⊎ ((i.rollback ≡ false) × Evaluated store t))

  abbrev GroundedIn : Store Real → Result PromoteError Target → Type 0
  GroundedIn store (err e) = Unit
  GroundedIn store (ok t) = Grounded store t

  abbrev IsResolved : String → Result PromoteError String → Type 0
  IsResolved ref (err e) = Unit
  IsResolved ref (ok sha) = IsCommit ref sha

  -- The text that git gives for a ref.
  abbrev IsGiven : String → Result String String → Type 0
  IsGiven ref (err e) = Unit
  IsGiven ref (ok out) =
      (w.rev_parse ref ≡ ok out)
      ⊎ ((e : String) × (w.rev_parse ref ≡ err e)
          × (starts_with ref "refs/" ≡ false)
          × (w.rev_parse (concat "refs/tags/" ref) ≡ ok out))

  as_tag :
      (ref out e : String)
      → w.rev_parse ref ≡ err e
      → starts_with ref "refs/" ≡ false
      → w.rev_parse (concat "refs/tags/" ref) ≡ ok out
      → IsGiven ref (ok out)
  as_tag ref out e q b h = inr (e, q, b, h)

  resolve_ref-IsGiven : (ref : String) → IsGiven ref (resolve_ref is_positive unmarshal w ref)
  unfolding resolve_ref
  resolve_ref-IsGiven ref = elim (Result-cases (w.rev_parse ref)) [
    | inl (out, q) ↦ rw (q, resolve_ref) (inl q)
    | inr (e, q) ↦
        rw (q, resolve_ref)
          (if_ind (IsGiven ref) (starts_with ref "refs/") (λ b. tt)
            (λ b. elim (Result-cases (w.rev_parse (concat "refs/tags/" ref))) [
              | inl (out, h) ↦ subst (IsGiven ref) (sym h) (as_tag ref out e q b h)
              | inr (f, h) ↦ subst (IsGiven ref) (sym h) tt
            ]))
  ]

  resolve-IsResolved : (ref : String) → IsResolved ref (resolve is_positive unmarshal w ref)
  unfolding resolve
  resolve-IsResolved ref =
      result_ind (IsResolved ref) (resolve_ref is_positive unmarshal w ref) (λ e h. tt)
        (λ out h.
          if_ind (IsResolved ref) (str_eq (trim out) "") (λ b. tt)
            (λ b. (out, subst (IsGiven ref) h (resolve_ref-IsGiven ref), refl, b)))

  resolved :
      (ref : String) {sha : String}
      → resolve is_positive unmarshal w ref ≡ ok sha
      → IsCommit ref sha
  resolved ref h = subst (IsResolved ref) h (resolve-IsResolved ref)

  rollback-Grounded :
      (store : Store Real)
      → i.rollback ≡ true
      → GroundedIn store (rollback_target is_positive unmarshal w store i)
  unfolding rollback_target
  rollback-Grounded store back =
      if_ind (GroundedIn store) (str_eq i.to_ref "") (λ b. tt)
        (λ b.
          result_ind (GroundedIn store) (link is_positive unmarshal w store i.eval_run_id)
            (λ e h. tt)
            (λ id h.
              result_ind (GroundedIn store)
                (resolve is_positive unmarshal w (promo_tag is_positive unmarshal w i)) (λ e q. tt)
                (λ from q.
                  result_ind (GroundedIn store) (resolve is_positive unmarshal w i.to_ref)
                    (λ e r. tt)
                    (λ sha r. (resolved i.to_ref r, refl, refl, inl (back, refl, resolved _ q))))))

  not_stale : (r : EvalRun Real) → is_stale is_positive unmarshal w i r ≡ false → InTime r
  unfolding is_stale
  not_stale r fresh age given limited = ground (arith, rw (given, is_stale) at fresh, limited)

  check-Grounded :
      (store : Store Real) (r : EvalRun Real)
      → i.rollback ≡ false
      → store.get_eval_run i.eval_run_id ≡ ok r
      → GroundedIn store (check_run is_positive unmarshal w i r)
  unfolding check_run run_target
  check-Grounded store r forward got =
      if_ind (GroundedIn store) (not (str_eq r.skill i.skill_name)) (λ b. tt)
        (λ same.
          option_ind (GroundedIn store) (gate_eval is_positive unmarshal r)
            (λ passes.
              if_ind (GroundedIn store) (is_stale is_positive unmarshal w i r) (λ old. tt)
                (λ fresh.
                  result_ind (GroundedIn store) (resolve is_positive unmarshal w r.head_ref)
                    (λ e h. tt)
                    (λ sha h. (
                      resolved r.head_ref h,
                      refl,
                      refl,
                      inr (
                        forward,
                        (
                          r,
                          got,
                          (eq_iff r.skill i.skill_name).0 (ground (arith, same)),
                          (gate_eval_iff is_positive unmarshal r).0 passes,
                          not_stale r fresh,
                          refl,
                          refl,
                          refl,
                          refl,
                          refl,
                        ),
                      ),
                    ))))
            (λ e h. tt))

  find-Grounded :
      (store : Store Real) → GroundedIn store (find_target is_positive unmarshal w store i)
  unfolding find_target promote_target
  find-Grounded store = if_ind (GroundedIn store) i.rollback (rollback-Grounded store) (λ forward.
      if_ind (GroundedIn store) (is_blank i.eval_run_id) (λ b. tt)
        (λ b.
          result_ind (GroundedIn store) (store.get_eval_run i.eval_run_id) (λ e h. tt)
            (λ r h. check-Grounded store r forward h)))

  abbrev pub IsTagMove : Change → Type 0
  IsTagMove (tag_moved tag sha) = Unit
  IsTagMove (recorded p) = ⊥

  -- A run that is not dry and succeeds has moved the tag to the target's commit and then recorded
  -- just that; one that is dry, or fails, records nothing, and a dry one moves no tag either.
  abbrev pub Reported : List Change → Result PromoteError Promoted → Type 0
  Reported changes (err e) = All IsTagMove changes × (i.dry_run ≡ true → changes ≡ [])
  Reported changes (ok p) =
      ((i.dry_run ≡ true) × (changes ≡ []))
      ⊎ ((i.dry_run ≡ false)
          × ((r : Promotion) × (changes ≡ tag_moved p.tag p.target.commit_sha ∷ recorded r ∷ [])
              × (r.target ≡ p.target)
              × (r.tag ≡ p.tag)
              × (r.id ≡ p.id)))

  -- Each change is to a target that is grounded.
  abbrev pub Changed : Store Real → Change → Type 0
  Changed store (tag_moved tag sha) =
      (tag ≡ promo_tag is_positive unmarshal w i)
      × ((t : Target) × (sha ≡ t.commit_sha) × Grounded store t)
  Changed store (recorded p) =
      (p.tag ≡ promo_tag is_positive unmarshal w i)
      × (p.skill ≡ i.skill_name)
      × Grounded store p.target

  abbrev pub Gated : Store Real → List Change × Result PromoteError Promoted → Type 0
  Gated store (changes, r) = All (Changed store) changes × Reported changes r

  apply-Gated :
      (store : Store Real) (t : Target)
      → Grounded store t
      → Gated store (apply is_positive unmarshal w store i t)
  unfolding apply promoted promotion
  apply-Gated store t ground_t =
      if_ind (Gated store) i.dry_run (λ dry. (tt, inl (dry, refl)))
        (λ wet.
          option_ind (Gated store) (w.move_tag _ t.commit_sha)
            (λ h.
              option_ind (Gated store) (store.insert_promotion _)
                (λ q. (
                  ((refl, (t, refl, ground_t)), ((refl, refl, ground_t), tt)),
                  inr (wet, (_, refl, refl, refl, refl)),
                ))
                (λ e q.
                  (((refl, (t, refl, ground_t)), tt), ((tt, tt), λ dry. absurd (cc (wet, dry))))))
            (λ e h. (tt, (tt, λ dry. refl))))

  -- Whatever the store, git and the clock answer: the tag is moved, and a promotion recorded, only to
  -- the commit that git gives for the ref that a rollback names, which then comes from the commit of
  -- the tag, and else for the head of an evaluation of that skill that passed the gates and is not
  -- older than a positive limit on its age. A success that is not a dry run
  -- has moved the tag and then recorded just that; an error records nothing; a dry run changes
  -- nothing.
  pub run-Gated :
      (store : Store Real) → w.store ≡ some store → Gated store (run is_positive unmarshal w i)
  unfolding run run_with
  run-Gated store has_store =
      rw (has_store, run)
        (if_ind (Gated store) (is_blank i.skill_name) (λ b. (tt, (tt, λ dry. refl)))
          (λ b.
            result_ind (Gated store) (find_target is_positive unmarshal w store i)
              (λ e h. (tt, (tt, λ dry. refl)))
              (λ t h. apply-Gated store t (subst (GroundedIn store) h (find-Grounded store)))))
