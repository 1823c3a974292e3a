-- ===== src/Skill/Run/Hashes/Compared.antt =====
-- internal/skill/run/core.go, `CompareReplayHashes`: when two runs count as the same.
use virmux.Prelude.{
  ◌==◌, ok, length, String, ◌≡◌, refl, sym, ap, ◌∙◌, subst, ◌↔◌, inl, inr, true, false, none, List,
  [], ◌∷◌, arith, eq_iff, eq_refl, Result-cases, int_eq_iff, int_eq_refl, is_blank,
}
use virmux.Skill.Run.Hashes.{
  ToolHashRow, ReplayReport, Recorded, same_row, first_difference, first_artifact_difference,
  matching, differing, exempted, compare_artifacts, compare_runs,
  load_artifact_hashes_from_inventory, is_deterministic_fixture, verify_replay_hashes,
  compare_replay_hashes,
}

same_row_iff : (a b : ToolHashRow) → (same_row a b ≡ true) ↔ (a ≡ b)
same_row_iff a b = (
  λ h.
      let seq = (int_eq_iff a.seq b.seq).0 (ground (arith, h)) in
      let tool = (eq_iff a.tool b.tool).0 (ground (arith, h)) in
      let input = (eq_iff a.input_hash b.input_hash).0 (ground (arith, h)) in
      let output = (eq_iff a.output_hash b.output_hash).0 (ground (arith, h)) in
      let code = (eq_iff a.error_code b.error_code).0 (ground (arith, h)) in
      λ i. record {
        seq = seq i;
        tool = tool i;
        input_hash = input i;
        output_hash = output i;
        error_code = code i;
      },
  λ e.
      subst (λ c. same_row a c ≡ true) e
        (ground (
          arith,
          int_eq_refl a.seq,
          eq_refl a.tool,
          eq_refl a.input_hash,
          eq_refl a.output_hash,
          eq_refl a.error_code,
        )),
)

cons_eq :
    {A : Type 0} {x y : A} {xs ys : List A} → x ≡ y → xs ≡ ys → ◌≡◌ {A = List A} (x ∷ xs) (y ∷ ys)
cons_eq p q i = p i ∷ q i

rows_eq :
    (xs ys : List ToolHashRow)
    → (length xs == length ys) ≡ true
    → first_difference xs ys ≡ none
    → xs ≡ ys
unfolding first_difference
rows_eq [] [] h d = refl
rows_eq [] (y ∷ ys) h d = absurd (ground (arith, h))
rows_eq (x ∷ xs) [] h d = absurd (ground (arith, h))
rows_eq (x ∷ xs) (y ∷ ys) h d =
    cons_eq ((same_row_iff x y).0 (ground (arith, d)))
      (rows_eq xs ys (ground (arith, h)) (ground (arith, d)))

no_difference : (xs : List ToolHashRow) → first_difference xs xs ≡ none
unfolding first_difference
no_difference [] = refl
no_difference (x ∷ xs) = rw ((same_row_iff x x).1 refl) (no_difference xs)

artifacts_eq :
    (xs ys : List String)
    → (length xs == length ys) ≡ true
    → first_artifact_difference xs ys ≡ none
    → xs ≡ ys
unfolding first_artifact_difference
artifacts_eq [] [] h d = refl
artifacts_eq [] (y ∷ ys) h d = absurd (ground (arith, h))
artifacts_eq (x ∷ xs) [] h d = absurd (ground (arith, h))
artifacts_eq (x ∷ xs) (y ∷ ys) h d =
    cons_eq ((eq_iff x y).0 (ground (arith, d)))
      (artifacts_eq xs ys (ground (arith, h)) (ground (arith, d)))

no_artifact_difference : (xs : List String) → first_artifact_difference xs xs ≡ none
unfolding first_artifact_difference
no_artifact_difference [] = refl
no_artifact_difference (x ∷ xs) = rw (eq_refl x) (no_artifact_difference xs)

module _ (w : Recorded) where
  compare_artifacts-verified :
      (out : ReplayReport) (xs ys : List String)
      → (compare_artifacts w out xs ys).verified ≡ true
      → xs ≡ ys
  unfolding compare_artifacts differing
  compare_artifacts-verified out xs ys h =
      artifacts_eq xs ys (ground (arith, h)) (ground (arith, h))

  compare_artifacts_self :
      (out : ReplayReport) (xs : List String) → compare_artifacts w out xs xs ≡ out
  unfolding compare_artifacts
  compare_artifacts_self out xs = ground (arith, no_artifact_difference xs)

  -- What two runs that count as the same have.
  pub record IsSameRun (run_id against : String) : Type 0 where
    pub given : is_blank against ≡ false
    pub run_deterministic : is_deterministic_fixture w run_id ≡ ok true
    pub against_deterministic : is_deterministic_fixture w against ≡ ok true
    pub base : ReplayReport
    pub other : ReplayReport
    pub run_verified : verify_replay_hashes w run_id ≡ ok base
    pub against_verified : verify_replay_hashes w against ≡ ok other
    pub same_rows : base.rows ≡ other.rows
    pub artifacts : List String
    pub run_artifacts : load_artifact_hashes_from_inventory w run_id ≡ ok artifacts
    pub against_artifacts : load_artifact_hashes_from_inventory w against ≡ ok artifacts

  compare_runs-verified :
      (run_id against : String) (xs ys : List ToolHashRow) (r : ReplayReport)
      → compare_runs w run_id against xs ys ≡ ok r
      → r.verified ≡ true
      → (xs ≡ ys)
        × ((artifacts : List String) × (load_artifact_hashes_from_inventory w run_id ≡ ok artifacts)
            × (load_artifact_hashes_from_inventory w against ≡ ok artifacts))
  unfolding compare_runs matching differing
  compare_runs-verified run_id against xs ys r h v = (
    rows_eq xs ys (ground (arith, h, v)) (ground (arith, h, v)),
    elim (Result-cases (load_artifact_hashes_from_inventory w run_id)) [
      | inr (e, p) ↦ absurd (ground (arith, h, v, p))
      | inl (as_run, p) ↦ elim (Result-cases (load_artifact_hashes_from_inventory w against)) [
        | inr (e, q) ↦ absurd (ground (arith, h, v, p, q))
        | inl (as_against, q) ↦
            let same : compare_artifacts w (matching w run_id against xs) as_run as_against ≡ r =
              ground (arith, h, v, p, q) in
            let equal =
              compare_artifacts-verified (matching w run_id against xs) as_run as_against
                (ap (λ x. x.verified) same ∙ v) in
            (as_run, p, q ∙ ap ok (sym equal))
      ]
    ],
  )

  IsSameRun-of_report :
      (run_id against : String) (r : ReplayReport)
      → compare_replay_hashes w run_id against ≡ ok r
      → r.verified ≡ true
      → IsSameRun run_id against
  unfolding compare_replay_hashes exempted
  IsSameRun-of_report run_id against r h v =
      elim (Result-cases (is_deterministic_fixture w run_id)) [
        | inr (e, p) ↦ absurd (ground (arith, h, v, p))
        | inl (d, p) ↦ elim (Result-cases (is_deterministic_fixture w against)) [
          | inr (e, q) ↦ absurd (ground (arith, h, v, p, q))
          | inl (c, q) ↦ elim (Result-cases (verify_replay_hashes w run_id)) [
            | inr (e, s) ↦ absurd (ground (arith, h, v, p, q, s))
            | inl (base, s) ↦ elim (Result-cases (verify_replay_hashes w against)) [
              | inr (e, t) ↦ absurd (ground (arith, h, v, p, q, s, t))
              | inl (other, t) ↦
                  let compared : compare_runs w run_id against base.rows other.rows ≡ ok r =
                    ground (arith, h, v, p, q, s, t) in
                  let same =
                    compare_runs-verified run_id against base.rows other.rows r compared v in
                  record {
                    given = ground (arith, h);
                    run_deterministic = p ∙ ap ok (ground (arith, h, v, p, q));
                    against_deterministic = q ∙ ap ok (ground (arith, h, v, p, q));
                    base = base;
                    other = other;
                    run_verified = s;
                    against_verified = t;
                    same_rows = same.0;
                    artifacts = same.1.0;
                    run_artifacts = same.1.1;
                    against_artifacts = same.1.2;
                  }
            ]
          ]
        ]
      ]

  compare_runs_self :
      (run_id against : String) (xs : List ToolHashRow) (artifacts : List String)
      → load_artifact_hashes_from_inventory w run_id ≡ ok artifacts
      → load_artifact_hashes_from_inventory w against ≡ ok artifacts
      → compare_runs w run_id against xs xs ≡ ok (matching w run_id against xs)
  unfolding compare_runs
  compare_runs_self run_id against xs artifacts p q = ground (
    arith,
    no_difference xs,
    p,
    q,
    compare_artifacts_self (matching w run_id against xs) artifacts,
  )

  report-of_IsSameRun :
      (run_id against : String)
      → IsSameRun run_id against
      → (r : ReplayReport) × (compare_replay_hashes w run_id against ≡ ok r) × (r.verified ≡ true)
  unfolding compare_replay_hashes matching
  report-of_IsSameRun run_id against s =
      let compared : compare_runs w run_id against s.base.rows s.other.rows
          ≡ ok (matching w run_id against s.base.rows) =
        subst
          (λ ys.
            compare_runs w run_id against s.base.rows ys
            ≡ ok (matching w run_id against s.base.rows))
          s.same_rows
          (compare_runs_self run_id against s.base.rows s.artifacts s.run_artifacts
            s.against_artifacts) in
      rw (s.given, compare_replay_hashes)
        (rw (s.run_deterministic, compare_replay_hashes)
          (rw (s.against_deterministic, compare_replay_hashes)
            (rw (s.run_verified, compare_replay_hashes)
              (rw (s.against_verified, compare_replay_hashes) (_, compared, refl)))))

  -- `CompareReplayHashes` reports two runs as verified exactly if both are deterministic and verify,
  -- their tool calls are the same in all columns and in the same order, and their inventories of
  -- artifacts load and are the same.
  pub compare_replay_hashes_iff :
      (run_id against : String)
      → ((r : ReplayReport) × (compare_replay_hashes w run_id against ≡ ok r) × (r.verified ≡ true))
        ↔ IsSameRun run_id against
  compare_replay_hashes_iff run_id against =
      (λ (r, h, v). IsSameRun-of_report run_id against r h v, report-of_IsSameRun run_id against)
