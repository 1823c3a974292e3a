-- ===== src/Research/Map/Linked.antt =====
-- internal/skill/research/mapper.go and reducer.go: the evidence that is stored for the rows of a
-- track, and the rows that the reducer keeps. The reports, which are formatted text, are left out.
use Prim.Native.String.{◌++◌ as concat}
use text.Mathlib.Text.{starts_with}
use virmux.Prelude.{
  if◌then◌else◌, ok, err, ℤ, pos, ℕ, suc, String, Bool, not, List, [], ◌∷◌, ◌++◌, is_nil,
}
use virmux.Database.Structs.{Evidence, RowEvidence}
use virmux.Database.Rows.{Row}
use virmux.Database.Engine.{Clock}
use virmux.Database.Runs.{insert_evidence, insert_row_evidence}
use virmux.Research.Map.{MapResultRow, Mapping, get_cache_key}

module _ {Real Value : Type 0} (m : Mapping Real Value) where
  -- Step 3.5. `now` is the time of the calls.
  module _ {Time : Type 0} (clock : Clock Time) (now : Time) (run_id : String) where
    abbrev pub evidence_of : String → String → Evidence Real Time
    evidence_of track_id ev = record {
      run_id = run_id;
      claim = if starts_with ev "http" then concat "Claim from " track_id else ev;
      url = if starts_with ev "http" then ev else "";
      quote_span = "";
      ts = now;
      confidence = m.zero_real;
      source_hash = get_cache_key m ev "";
    }

    abbrev pub row_evidence_of : String → ℕ → ℤ → RowEvidence
    row_evidence_of track_id i id = record {
      run_id = run_id;
      track_id = track_id;
      row_idx = pos i;
      evidence_id = id;
    }

    -- What stays of the database if a link to a row is refused.
    unfoldable pub link_row : String → ℕ → ℤ → List (Row Real) → List (Row Real)
    unfolding insert_row_evidence
    link_row track_id i id db = elim (insert_row_evidence (row_evidence_of track_id i id) db) [
      | ok after ↦ after
      | err _ ↦ db
    ]

    unfoldable pub link_list :
        String → ℕ → List String → List ℤ → List (Row Real) → List ℤ × List (Row Real)
    unfolding insert_evidence link_row
    link_list track_id i [] ids db = (ids, db)
    link_list track_id i (ev ∷ evs) ids db =
        elim (insert_evidence clock (evidence_of track_id ev) db) [
          | err _ ↦ link_list track_id i evs ids db
          | ok (after, id) ↦
              link_list track_id i evs (ids ++ id ∷ []) (link_row track_id i id after)
        ]

    unfoldable pub link_rows :
        ℕ
        → List (MapResultRow Value)
        → List (Row Real)
        → List (MapResultRow Value) × List (Row Real)
    unfolding link_list
    link_rows i [] db = ([], db)
    link_rows i (row ∷ rows) db =
        let one = link_list row.track_id i row.evidence row.evidence_ids db in
        let rest = link_rows (suc i) rows one.1 in
        (record row { evidence_ids = one.0 } ∷ rest.0, rest.1)

-- The reducer's cited and uncited rows.
module _ {Value : Type 0} where
  abbrev pub is_cited : MapResultRow Value → Bool
  is_cited row = not (is_nil row.evidence_ids)

  unfoldable pub split_cited :
      List (MapResultRow Value) → List (MapResultRow Value) × List (MapResultRow Value)
  split_cited [] = ([], [])
  split_cited (row ∷ rows) =
      let rest = split_cited rows in
      if is_cited row then (row ∷ rest.0, rest.1) else (rest.0, row ∷ rest.1)
