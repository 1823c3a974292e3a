-- ===== src/Database/Runs.antt =====
-- internal/store/store.go: the methods that write what happens in a run. `InsertEvidence` gives the
-- new ID too.
use virmux.Prelude.{Result, ok, err, ℤ, pos, suc, String, none, List}
use virmux.Database.Structs.{Run, ToolCall, Evidence, RowEvidence}
use virmux.Database.Rows.{
  Row, run_row, event_row, slack_event_row, artifact_row, tool_call_row, evidence_row,
  row_evidence_row,
}
use virmux.Database.Engine.{DbError, Clock, insert_row, evidence_count}

-- `return res.LastInsertId()`
abbrev pub with_id {ℓ} : {A : Type ℓ} → ℤ → Result DbError A → Result DbError (A × ℤ)
with_id id (ok a) = ok (a, id)
with_id id (err e) = err e

module _ {Real : Type 0} where
  unfoldable pub insert_artifact :
      String → String → String → ℤ → List (Row Real) → Result DbError (List (Row Real))
  unfolding insert_row
  insert_artifact run_id path sha256 size_bytes =
      insert_row (artifact_row run_id path sha256 size_bytes)

  unfoldable pub insert_tool_call : ToolCall → List (Row Real) → Result DbError (List (Row Real))
  unfolding insert_row
  insert_tool_call c = insert_row (tool_call_row c)

  unfoldable pub insert_row_evidence :
      RowEvidence → List (Row Real) → Result DbError (List (Row Real))
  unfolding insert_row
  insert_row_evidence r = insert_row (row_evidence_row r)

module _ {Real Time : Type 0} (clock : Clock Time) where
  abbrev pub run_values : Run Real Time → Row Real
  run_values r =
      run_row
        (record {
          id = r.id;
          task = r.task;
          label = r.label;
          agent_id = r.agent_id;
          image_sha = r.image_sha;
          kernel_sha = r.kernel_sha;
          rootfs_sha = r.rootfs_sha;
          snapshot_id = r.snapshot_id;
          cost_est = r.cost_est;
          started_at = clock.format r.started_at;
        })
        (record {
          status = "running";
          ended_at = none;
          boot_ms = pos 0;
          resume_ms = pos 0;
          trace_path = "";
          snapshot_id = r.snapshot_id;
          cost_est = r.cost_est;
        })

  unfoldable pub start_run : Run Real Time → List (Row Real) → Result DbError (List (Row Real))
  unfolding insert_row
  start_run r = insert_row (run_values r)

  abbrev pub evidence_columns : Evidence Real Time → Evidence Real String
  evidence_columns r = record {
    run_id = r.run_id;
    claim = r.claim;
    url = r.url;
    quote_span = r.quote_span;
    ts = clock.format r.ts;
    confidence = r.confidence;
    source_hash = r.source_hash;
  }

  unfoldable pub insert_evidence :
      Evidence Real Time → List (Row Real) → Result DbError (List (Row Real) × ℤ)
  unfolding insert_row
  insert_evidence r db =
      let id = pos (suc (evidence_count db)) in
      with_id id (insert_row (evidence_row id (evidence_columns r)) db)

  unfoldable pub insert_event :
      String → String → String → Time → List (Row Real) → Result DbError (List (Row Real))
  unfolding insert_row
  insert_event run_id kind payload ts = insert_row (event_row run_id (clock.format ts) kind payload)

  unfoldable pub insert_slack_event :
      String → String → Time → List (Row Real) → Result DbError (List (Row Real))
  unfolding insert_row
  insert_slack_event event_type payload ts =
      insert_row (slack_event_row (clock.format ts) event_type payload)
