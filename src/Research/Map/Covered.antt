-- ===== src/Research/Map/Covered.antt =====
-- internal/skill/research/mapper.go: which cells of a wide track get a row.
use virmux.Prelude.{
  ◌==◌, if◌then◌else◌, Bool-cases, Option-cases, length, All, ℕ, zero, suc, ◌+◌, ◌<◌, ◌≡◌, refl, ap,
  subst, ◌⊎◌, inl, inr, Bool, true, false, List, [], ◌∷◌, ◌++◌, arith,
}
use virmux.Research.Plan.{Track}
use virmux.Research.Map.Origin.{IsRowOf, IsFrom, start-IsFrom, run_cell-IsRowOf}
use virmux.Research.Map.{
  MapResultRow, GridCell, CoverageLedger, Cache, Mapping, grid_cells, threshold, check_cache,
  found_cell, run_cell, run_cells, run_wide_track, get_cache_key, cell_id,
}

later :
    (f : ℕ → Bool) (n b : ℕ)
    → f n ≡ false
    → ((k : ℕ) → k < b → f (suc n + k) ≡ false)
    → (k : ℕ) → k < suc b
    → f (n + k) ≡ false
later f n b h rest zero below = subst (λ j. f j ≡ false) (omega arith) h
later f n b h rest (suc k) below =
    subst (λ j. f j ≡ false) (omega arith) (rest k (omega (arith, below)))

module _ {Real Value : Type 0} (m : Mapping Real Value) (track : Track) (start : Cache Value) where
  -- Whether the stop rule holds with `completed` of `total` cells.
  abbrev pub is_reached : ℕ → ℕ → Bool
  is_reached total completed =
      m.at_most (threshold m track.stop_rule)
        (if total == 0 then m.zero_real else m.ratio_of completed total)

  -- The rows of the cells in their order, the first of them behind `n` others.
  abbrev pub RowsOf : List GridCell → ℕ → List (MapResultRow Value) → Type 0
  RowsOf [] n [] = Unit
  RowsOf [] n (row ∷ rows) = ⊥
  RowsOf (cell ∷ cells) n [] = ⊥
  RowsOf (cell ∷ cells) n (row ∷ rows) =
      IsRowOf m track start cell n row × RowsOf cells (suc n) rows

  -- The rows of the first cells of `cells`, up to the one before which the rule holds.
  pub record IsCovered (cells : List GridCell) (before : ℕ) (total : ℕ)
      (rows : List (MapResultRow Value)) (l : CoverageLedger) : Type 0 where
    pub done : List GridCell
    pub left : List GridCell
    pub in_order : cells ≡ done ++ left
    pub row_each : length rows ≡ length done
    pub rows_of : RowsOf done before rows
    pub completed : l.completed ≡ before + length done
    pub same_total : l.total ≡ total
    pub stopped : (left ≡ []) ⊎ (is_reached total (before + length done) ≡ true)
    pub not_sooner : (k : ℕ) → k < length done → is_reached total (before + k) ≡ false
    pub of_track : All (λ row. (row.track_id ≡ track.id) × (row.is_ok ≡ true)) rows

  run_cell-track :
      (cell : GridCell) (n : ℕ) (c : Cache Value)
      → let row = (run_cell m track cell n c).0 in (row.track_id ≡ track.id) × (row.is_ok ≡ true)
  unfolding run_cell
  run_cell-track cell n c =
      elim (Option-cases (check_cache m c (get_cache_key m track.q (cell_id m track cell))).0) [
        | inl q ↦ rw (q, run_cell) (refl, refl)
        | inr (entry, q) ↦ rw (q, run_cell) (refl, refl)
      ]

  run_cells-IsCovered :
      (cells : List GridCell) (l : CoverageLedger) (c : Cache Value)
      → IsFrom m track start c
      → let out = run_cells m track cells l c in IsCovered cells l.completed l.total out.0 out.1
  unfolding run_cells
  run_cells-IsCovered [] l c from = record {
    done = [];
    left = [];
    in_order = refl;
    row_each = refl;
    rows_of = tt;
    completed = omega arith;
    same_total = refl;
    stopped = inl refl;
    not_sooner = λ k h. absurd (omega (arith, h));
    of_track = tt;
  }
  run_cells-IsCovered (cell ∷ cells) l c from = elim (Bool-cases (is_reached l.total l.completed)) [
    | inl q ↦
        rw (q, run_cells)
          (record {
            done = [];
            left = cell ∷ cells;
            in_order = refl;
            row_each = refl;
            rows_of = tt;
            completed = omega arith;
            same_total = refl;
            stopped = inr (subst (λ n. is_reached l.total n ≡ true) (omega arith) q);
            not_sooner = λ k h. absurd (omega (arith, h));
            of_track = tt;
          })
    | inr q ↦
        let one = run_cell m track cell l.completed c in
        let made = run_cell-IsRowOf m track start cell l.completed c from in
        let r = run_cells-IsCovered cells (found_cell m track cell l) one.1 made.1 in
        rw (q, run_cells)
          (record {
            done = cell ∷ r.done;
            left = r.left;
            in_order = ap (λ xs. cell ∷ xs) r.in_order;
            row_each = ap suc r.row_each;
            rows_of = (made.0, r.rows_of);
            completed = omega (arith, r.completed);
            same_total = r.same_total;
            stopped =
                subst (λ n. (r.left ≡ []) ⊎ (is_reached l.total n ≡ true)) (omega arith) r.stopped;
            not_sooner = later (is_reached l.total) l.completed (length r.done) q r.not_sooner;
            of_track = (run_cell-track cell l.completed c, r.of_track);
          })
  ]

  -- A wide track gives one row, marked as fine and with the track's ID, for each of the first cells
  -- of the grid, targets first, and the ledger's count is their number. The row has the target, the
  -- attribute and the result of its cell, and its source unless the count before it is a multiple of
  -- 3; or it is that of an entry at the cell's key, which was in the cache before or is such a result
  -- for a cell with that key, without evidence. It ends at the first count
  -- that meets the stop rule, and not before; where no count does, at the end of the grid. So it is
  -- whatever the cache holds at the start.
  pub run_wide_track-IsCovered :
      let cells = grid_cells track.targets track.attrs in
      let out = run_wide_track m track start in IsCovered cells 0 (length cells) out.0 out.1
  unfolding run_wide_track
  run_wide_track-IsCovered =
      let cells = grid_cells track.targets track.attrs in
      run_cells-IsCovered cells (record { total = length cells; completed = 0; cell_status = [] })
        start (start-IsFrom m track start)
