-- ===== src/Skill/Run/Hashes/Agreed.antt =====
-- internal/skill/run/core.go: what it means that the tool calls of runs agree.
use virmux.Prelude.{
  ◌==◌, Result, ok, err, length, String, ◌≡◌, refl, ap, ◌↔◌, inl, inr, true, none, List, [], ◌∷◌,
  arith, eq_iff, Result-cases, ok-injective, int_eq_iff,
}
use virmux.Skill.Run.Hashes.{
  ToolHashRow, ReplayReport, Recorded, same_hashes, check_rows, compare_counts,
  load_trace_tool_hashes, load_tool_io_hashes, lift, verify_replay_hashes,
}

-- The recorded call, without its error code.
pub record SameCall (a b : ToolHashRow) : Type 0 where
  pub same_seq : a.seq ≡ b.seq
  pub same_tool : a.tool ≡ b.tool
  pub same_input : a.input_hash ≡ b.input_hash
  pub same_output : a.output_hash ≡ b.output_hash

-- Lists of the same length whose rows are related at each place.
abbrev pub Pairwise {ℓ} : {A : Type ℓ} → (A → A → Type 0) → List A → List A → Type 0
Pairwise R [] [] = Unit
Pairwise R (x ∷ xs) (y ∷ ys) = R x y × Pairwise R xs ys
Pairwise R _ _ = ⊥

SameCall-of_true : (a b : ToolHashRow) → same_hashes a b ≡ true → SameCall a b
SameCall-of_true a b h = record {
  same_seq = ground (arith, h, int_eq_iff a.seq b.seq);
  same_tool = ground (arith, h, eq_iff a.tool b.tool);
  same_input = ground (arith, h, eq_iff a.input_hash b.input_hash);
  same_output = ground (arith, h, eq_iff a.output_hash b.output_hash);
}

true-of_SameCall : (a b : ToolHashRow) → SameCall a b → same_hashes a b ≡ true
true-of_SameCall a b s = ground (
  arith,
  int_eq_iff a.seq b.seq,
  eq_iff a.tool b.tool,
  eq_iff a.input_hash b.input_hash,
  eq_iff a.output_hash b.output_hash,
)

-- The database, the files and the trace recorded the same calls, in the same order.
pub record AllAgree (ds fs ts : List ToolHashRow) : Type 0 where
  pub files : Pairwise SameCall ds fs
  pub trace : Pairwise SameCall ts ds

check_rows-AllAgree :
    (ds fs ts : List ToolHashRow)
    → (length ds == length fs) ≡ true
    → (length ds == length ts) ≡ true
    → check_rows ds fs ts ≡ none
    → AllAgree ds fs ts
unfolding check_rows
check_rows-AllAgree [] [] [] p q h = record { files = tt; trace = tt }
check_rows-AllAgree [] (f ∷ fs) ts p q h = absurd (ground (arith, p))
check_rows-AllAgree [] [] (t ∷ ts) p q h = absurd (ground (arith, q))
check_rows-AllAgree (d ∷ ds) [] ts p q h = absurd (ground (arith, p))
check_rows-AllAgree (d ∷ ds) (f ∷ fs) [] p q h = absurd (ground (arith, q))
check_rows-AllAgree (d ∷ ds) (f ∷ fs) (t ∷ ts) p q h =
    let rest =
      check_rows-AllAgree ds fs ts (ground (arith, p)) (ground (arith, q)) (ground (arith, h)) in
    record {
      files = (SameCall-of_true d f (ground (arith, h)), rest.files);
      trace = (SameCall-of_true t d (ground (arith, h)), rest.trace);
    }

check_rows-of_AllAgree :
    (ds fs ts : List ToolHashRow)
    → AllAgree ds fs ts
    → ((length ds == length fs) ≡ true)
      × ((length ds == length ts) ≡ true)
      × (check_rows ds fs ts ≡ none)
unfolding check_rows
check_rows-of_AllAgree [] [] [] a = (refl, refl, refl)
check_rows-of_AllAgree [] (f ∷ fs) ts a = elim a.files [ ]
check_rows-of_AllAgree [] [] (t ∷ ts) a = elim a.trace [ ]
check_rows-of_AllAgree (d ∷ ds) [] ts a = elim a.files [ ]
check_rows-of_AllAgree (d ∷ ds) (f ∷ fs) [] a = elim a.trace [ ]
check_rows-of_AllAgree (d ∷ ds) (f ∷ fs) (t ∷ ts) a =
    let rest = check_rows-of_AllAgree ds fs ts (record { files = a.files.1; trace = a.trace.1 }) in
    ground (arith, rest, true-of_SameCall d f a.files.0, true-of_SameCall t d a.trace.0)

module _ (w : Recorded) where
  -- What a verified run has recorded.
  pub record IsVerified (run_id : String) : Type 0 where
    pub from_trace : List ToolHashRow
    pub from_files : List ToolHashRow
    pub from_db : List ToolHashRow
    pub trace_loads : load_trace_tool_hashes w run_id ≡ ok from_trace
    pub files_load : load_tool_io_hashes w run_id ≡ ok from_files
    pub db_loads : w.db_rows run_id ≡ ok from_db
    pub agree : AllAgree from_db from_files from_trace

  compare_counts-AllAgree :
      (run_id : String) (ts fs ds : List ToolHashRow) (r : ReplayReport)
      → compare_counts w run_id ts fs ds ≡ ok r
      → AllAgree ds fs ts × (r.rows ≡ ds)
  unfolding compare_counts
  compare_counts-AllAgree run_id ts fs ds r h = (
    check_rows-AllAgree ds fs ts (ground (arith, h)) (ground (arith, h)) (ground (arith, h)),
    ground (arith, h),
  )

  compare_counts-of_AllAgree :
      (run_id : String) (ts fs ds : List ToolHashRow)
      → AllAgree ds fs ts
      → (r : ReplayReport) × (compare_counts w run_id ts fs ds ≡ ok r) × (r.rows ≡ ds)
  unfolding compare_counts
  compare_counts-of_AllAgree run_id ts fs ds a =
      let c = check_rows-of_AllAgree ds fs ts a in
      rw (c.0, compare_counts) (rw (c.1, compare_counts) (rw (c.2, compare_counts) (_, refl, refl)))

  lifted : {A : Type 0} (r : Result String A) (a : A) → lift r ≡ ok a → r ≡ ok a
  lifted (ok b) a h = ap ok (ok-injective h)
  lifted (err e) a h = absurd (cc h)

  -- A report that is given has the database's rows, and the run is verified.
  IsVerified-of_report :
      (run_id : String) (r : ReplayReport)
      → verify_replay_hashes w run_id ≡ ok r
      → (v : IsVerified run_id) × (r.rows ≡ v.from_db)
  unfolding verify_replay_hashes
  IsVerified-of_report run_id r h = elim (Result-cases (load_trace_tool_hashes w run_id)) [
    | inr (e, p) ↦ absurd (ground (arith, h, p))
    | inl (ts, p) ↦ elim (Result-cases (load_tool_io_hashes w run_id)) [
      | inr (e, q) ↦ absurd (ground (arith, h, p, q))
      | inl (fs, q) ↦ elim (Result-cases (lift (w.db_rows run_id))) [
        | inr (e, s) ↦ absurd (ground (arith, h, p, q, s))
        | inl (ds, s) ↦
            let c : compare_counts w run_id ts fs ds ≡ ok r = ground (arith, h, p, q, s) in
            let a = compare_counts-AllAgree run_id ts fs ds r c in
            (
              record {
                from_trace = ts;
                from_files = fs;
                from_db = ds;
                trace_loads = p;
                files_load = q;
                db_loads = lifted (w.db_rows run_id) ds s;
                agree = a.0;
              },
              a.1,
            )
      ]
    ]
  ]

  report-of_IsVerified :
      (run_id : String) (v : IsVerified run_id)
      → (r : ReplayReport) × (verify_replay_hashes w run_id ≡ ok r) × (r.rows ≡ v.from_db)
  unfolding verify_replay_hashes
  report-of_IsVerified run_id v =
      let c = compare_counts-of_AllAgree run_id v.from_trace v.from_files v.from_db v.agree in
      rw (v.trace_loads, verify_replay_hashes)
        (rw (v.files_load, verify_replay_hashes) (rw (v.db_loads, verify_replay_hashes) c))

  -- `VerifyReplayHashes` gives a report exactly if the trace, the files under toolio and the
  -- database all load and recorded the same calls, in the same order, with the same tools and hashes.
  pub verify_replay_hashes_iff :
      (run_id : String)
      → ((r : ReplayReport) × (verify_replay_hashes w run_id ≡ ok r)) ↔ IsVerified run_id
  verify_replay_hashes_iff run_id = (
    λ (r, h). (IsVerified-of_report run_id r h).0,
    λ v. let r = report-of_IsVerified run_id v in (r.0, r.1),
  )
