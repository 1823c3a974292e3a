-- ===== src/Database/Refused.antt =====
-- internal/store/store.go: when a row is refused.
use virmux.Prelude.{
  ok, ℤ, pos, ℕ, suc, String, ◌≡◌, ◌≢◌, ◌↔◌, true, false, List, [], ◌∷◌, ◌++◌, arith, eq_iff,
}
use virmux.Database.Structs.{CanaryRun, Evidence}
use virmux.Database.Rows.{Row, text, number, evidence_row}
use virmux.Database.Engine.{Clock, has_key, insert_row, evidence_count}
use virmux.Database.Runs.{evidence_columns, insert_evidence}
use virmux.Database.Inserts.{canary_run_values, insert_canary_run}
use virmux.Database.Integrity.{IsSound}

module _ {Real Time : Type 0} (clock : Clock Time) where
  -- `InsertCanaryRun` takes a row exactly if it names a curated evaluation, both evaluations are
  -- there, and its ID is new. Without a curated evaluation the NULL that it stores is refused.
  pub insert_canary_run_iff :
      (now : Time) (r : CanaryRun String Time) (db : List (Row Real))
      → ((after : List (Row Real)) × (insert_canary_run clock now r db ≡ ok after)) ↔ (
          (r.curated_eval_run_id ≢ "")
          × (has_key "eval_runs" (text r.curated_eval_run_id) db ≡ true)
          × (has_key "eval_runs" (text r.eval_run_id) db ≡ true)
          × (has_key "canary_runs" (text r.id) db ≡ false))
  unfolding insert_canary_run insert_row
  insert_canary_run_iff now r db = (
    λ (after, h). (
      λ e. ground (arith, h, e, eq_iff r.curated_eval_run_id ""),
      ground (arith, h),
      ground (arith, h),
      ground (arith, h),
    ),
    λ (given, curated, both, fresh). (
      db ++ canary_run_values clock now r ∷ [],
      ground (arith, given, curated, both, fresh, eq_iff r.curated_eval_run_id ""),
    ),
  )

  -- On a sound database `InsertEvidence` takes a row exactly if its run is there: no ID is given
  -- out twice.
  pub insert_evidence_iff :
      (r : Evidence Real Time) (db : List (Row Real))
      → IsSound db
      → ((after : List (Row Real) × ℤ) × (insert_evidence clock r db ≡ ok after))
        ↔ (has_key "runs" (text r.run_id) db ≡ true)
  unfolding insert_evidence insert_row
  insert_evidence_iff r db s = (
    λ (after, h). ground (arith, h),
    λ there.
        let n : ℕ = suc (evidence_count db) in
        let fresh : has_key "evidence" (number (pos n)) db ≡ false = ground (arith, s.numbered n) in
        (
          (db ++ evidence_row (pos n) (evidence_columns clock r) ∷ [], pos n),
          ground (arith, there, fresh),
        ),
  )
