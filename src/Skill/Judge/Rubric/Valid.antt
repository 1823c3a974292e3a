-- ===== src/Skill/Judge/Rubric/Valid.antt =====
-- internal/skill/judge/judge.go: the rubrics that `LoadRubric` lets through.
use virmux.Prelude.{
  Result, ok, length, All, length-append, All-append, elem, IsDistinct, ℕ, suc, ◌+◌, ◌<◌, String,
  ◌≡◌, refl, sym, ap, subst, inl, inr, true, false, ◌||◌, Option, none, some, List, [], ◌∷◌, ◌++◌,
  map, arith, str_eq, eq_iff, Result-cases, ok-injective,
}
use virmux.Skill.Judge.Rubric.{
  Floats, YamlEntry, mapping, not_mapping, Criterion, Rubric, YamlValue, scalar, sequence, lookup,
  default_criterion_ids, first_missing, criteria_list, load_criterion, load_criteria,
  default_missing, rubric_of, load_rubric,
}

module _ {Real : Type 0} (f : Floats Real) where
  -- Weight in (0,1] and threshold in [0,1], as far as the comparisons of floats say.
  pub record InRange (c : Criterion Real) : Type 0 where
    pub given : str_eq c.id "" ≡ false
    pub weight_positive : f.at_most c.w f.zero ≡ false
    pub weight_at_most_one : f.below f.one c.w ≡ false
    pub threshold_at_least_zero : f.below c.threshold f.zero ≡ false
    pub threshold_at_most_one : f.below f.one c.threshold ≡ false

  -- The sum of the weights, as it is computed.
  abbrev pub weights : Real → List (Criterion Real) → Real
  weights sum [] = sum
  weights sum (c ∷ cs) = weights (f.add sum c.w) cs

  load_criterion-InRange :
      (seen : List String) (entry : YamlEntry Real) (c : Criterion Real)
      → load_criterion f seen entry ≡ ok c
      → InRange c × (elem c.id seen ≡ false)
  unfolding load_criterion
  load_criterion-InRange seen not_mapping c h = absurd (cc h)
  load_criterion-InRange seen (mapping cm) c h = (
    record {
      given = ground (arith, h);
      weight_positive = ground (arith, h);
      weight_at_most_one = ground (arith, h);
      threshold_at_least_zero = ground (arith, h);
      threshold_at_most_one = ground (arith, h);
    },
    ground (arith, h),
  )

  abbrev pub ids : List (Criterion Real) → List String
  ids cs = map (λ c. c.id) cs

  elem-ids :
      (x : String) (c : Criterion Real) (cs : List (Criterion Real))
      → elem x (ids (cs ++ c ∷ [])) ≡ (elem x (ids cs) || str_eq c.id x)
  elem-ids x c [] = ground arith
  elem-ids x c (d ∷ ds) = ground (arith, elem-ids x c ds)

  ids-IsDistinct :
      (c : Criterion Real) (cs : List (Criterion Real))
      → IsDistinct (ids cs)
      → elem c.id (ids cs) ≡ false
      → IsDistinct (ids (cs ++ c ∷ []))
  ids-IsDistinct c [] d h = (refl, tt)
  ids-IsDistinct c (x ∷ xs) d h =
      ground (
        arith,
        d,
        h,
        elem-ids x.id c xs,
        eq_iff c.id x.id,
        eq_iff x.id c.id,
        ids-IsDistinct c xs d.1,
      )

  weights-append :
      (sum : Real) (c : Criterion Real) (cs : List (Criterion Real))
      → weights sum (cs ++ c ∷ []) ≡ f.add (weights sum cs) c.w
  weights-append sum c [] = refl
  weights-append sum c (x ∷ xs) = weights-append (f.add sum x.w) c xs

  -- What the loop knows of the criteria so far, and of their sum.
  record AreLoaded (n : ℕ) (cs : List (Criterion Real)) (sum : Real) : Type 0 where
    in_range : All InRange cs
    distinct_ids : IsDistinct (ids cs)
    summed : sum ≡ weights f.zero cs
    counted : length cs ≡ n

  AreLoaded-append :
      (n : ℕ) (cs : List (Criterion Real)) (sum : Real) (c : Criterion Real)
      → AreLoaded n cs sum
      → InRange c × (elem c.id (ids cs) ≡ false)
      → AreLoaded (suc n) (cs ++ c ∷ []) (f.add sum c.w)
  AreLoaded-append n cs sum c l ready = record {
    in_range = All-append InRange cs (c ∷ []) l.in_range (ready.0, tt);
    distinct_ids = ids-IsDistinct c cs l.distinct_ids ready.1;
    summed = rw l.summed (sym (weights-append f.zero c cs));
    counted = omega (arith, length-append cs (c ∷ []), l.counted);
  }

  load_criteria-AreLoaded :
      (n : ℕ) (done : List (Criterion Real)) (sum : Real) (entries : List (YamlEntry Real))
      (cs : List (Criterion Real)) (total : Real)
      → AreLoaded n done sum
      → load_criteria f done sum entries ≡ ok (cs, total)
      → AreLoaded (n + length entries) cs total
  unfolding load_criteria
  load_criteria-AreLoaded n done sum [] cs total l h =
      subst (λ loaded. AreLoaded (n + 0) loaded.0 loaded.1) (ok-injective h)
        (subst (λ m. AreLoaded m done sum) (omega arith) l)
  load_criteria-AreLoaded n done sum (entry ∷ entries) cs total l h =
      elim (Result-cases (load_criterion f (ids done) entry)) [
        | inl (c, q) ↦
            subst (λ m. AreLoaded m cs total) (omega arith)
              (load_criteria-AreLoaded (suc n) (done ++ c ∷ []) (f.add sum c.w) entries cs total
                (AreLoaded-append n done sum c l (load_criterion-InRange (ids done) entry c q))
                (rw q at h))
        | inr (e, q) ↦ absurd (cc (rw q at h))
      ]

  missing_none :
      (seen wanted : List String)
      → first_missing seen wanted ≡ none
      → All (λ id. elem id seen ≡ true) wanted
  missing_none seen [] h = tt
  missing_none seen (id ∷ wanted) h =
      (ground (arith, h), missing_none seen wanted (ground (arith, h)))

  -- The rubrics that are let through.
  pub record IsValid (r : Rubric Real) : Type 0 where
    pub some_criteria : 0 < length r.criteria
    pub in_range : All InRange r.criteria
    pub distinct_ids : IsDistinct (ids r.criteria)
    pub weights_within : f.below f.weight_cap (weights f.zero r.criteria) ≡ false
    pub pass_positive : f.at_most r.pass f.zero ≡ false
    pub pass_at_most_one : f.below f.one r.pass ≡ false
    pub defaults_there :
        r.override_default_check ≡ false
        → All (λ id. elem id (ids r.criteria) ≡ true) default_criterion_ids

  nonempty :
      (v : Option (YamlValue Real)) (entries : List (YamlEntry Real))
      → criteria_list f v ≡ ok entries
      → 0 < length entries
  unfolding criteria_list
  nonempty none entries h = absurd (cc h)
  nonempty (some (scalar s)) entries h = absurd (cc h)
  nonempty (some (sequence [])) entries h = absurd (cc h)
  nonempty (some (sequence (x ∷ xs))) entries h =
      subst (λ ys. 0 < length ys) (ok-injective h) (omega arith)

  rubric_of-IsValid :
      (m : List (String × YamlValue Real)) (r : Rubric Real) → rubric_of f m ≡ ok r → IsValid r
  unfolding rubric_of default_missing
  rubric_of-IsValid m r h = elim (Result-cases (criteria_list f (lookup "criteria" m))) [
    | inr (e, q) ↦ absurd (ground (arith, h, q))
    | inl (entries, q) ↦ elim (Result-cases (load_criteria f [] f.zero entries)) [
      | inr (e, p) ↦ absurd (ground (arith, h, q, p))
      | inl ((cs, total), p) ↦
          let l =
            load_criteria-AreLoaded 0 [] f.zero entries cs total
              (record { in_range = tt; distinct_ids = tt; summed = refl; counted = refl }) p in
          let same : r.criteria ≡ cs = ground (arith, h, q, p) in
          let defaults : default_missing f r.override_default_check cs ≡ none =
            ground (arith, h, q, p) in
          record {
            some_criteria =
                omega (arith, nonempty (lookup "criteria" m) entries q, l.counted, ap length same);
            in_range = subst (All InRange) (sym same) l.in_range;
            distinct_ids = subst (λ x. IsDistinct (ids x)) (sym same) l.distinct_ids;
            weights_within = ground (arith, h, q, p, same, l.summed);
            pass_positive = ground (arith, h, q, p);
            pass_at_most_one = ground (arith, h, q, p);
            defaults_there = λ all.
                missing_none (ids r.criteria) default_criterion_ids
                  (ground (arith, defaults, all, same));
          }
    ]
  ]

  -- `LoadRubric` lets a rubric through only if it has criteria, their IDs are given and differ, the
  -- weights and thresholds and the pass mark are in their ranges, the weights' sum is not above the
  -- cap, and the default criteria are there unless their check is overridden.
  pub load_rubric-IsValid :
      (read : String → Result String String)
      (parse : String → Result String (Option (List (String × YamlValue Real)))) (path : String)
      (r : Rubric Real)
      → load_rubric f read parse path ≡ ok r
      → IsValid r
  unfolding load_rubric
  load_rubric-IsValid read parse path r h = elim (Result-cases (read path)) [
    | inr (e, q) ↦ absurd (ground (arith, h, q))
    | inl (bytes, q) ↦ elim (Result-cases (parse bytes)) [
      | inr (e, p) ↦ absurd (ground (arith, h, q, p))
      | inl (none, p) ↦ absurd (ground (arith, h, q, p))
      | inl (some m, p) ↦ rubric_of-IsValid m r (ground (arith, h, q, p))
    ]
  ]
