-- ===== src/Research/Map.antt =====
-- internal/skill/research/mapper.go: the rows of a track. SHA-256 is `sha256`, strconv.ParseFloat
-- `parse_float`, JSON values `Value`, and the cache's folder answers by `disk`. The files of the
-- rows are left out.
pub mod Linked
pub mod Origin
pub mod Covered
pub mod Stored
pub mod Cited
mod Samples
use Prim.Native.String.{◌++◌ as concat, len, slice}
use text.Mathlib.Text.{starts_with}
use virmux.Prelude.{
  ◌==◌, if◌then◌else◌, length, ℤ, update, ℕ, suc, ◌%◌, String, Bool, true, Option, none, some, List,
  [], ◌∷◌, ◌++◌, str_eq,
}
use virmux.Research.Plan.{Track}

pub record MapResultRow (Value : Type 0) : Type 0 where
  pub track_id : String
  pub is_ok : Bool
  pub values : List (String × Value)
  pub error : String
  pub evidence : List String
  pub evidence_ids : List ℤ

pub record GridCell : Type 0 where
  pub target : String
  pub attr : String

-- `Missing`, which no code sets, is left out.
pub record CoverageLedger : Type 0 where
  pub total : ℕ
  pub completed : ℕ
  pub cell_status : List (String × String)

pub record CacheEntry (Value : Type 0) : Type 0 where
  pub query_hash : String
  pub url : String
  pub values : List (String × Value)
  pub evidence : List String

-- The sync.Map, and the folder unless CacheDir is empty.
pub record Cache (Value : Type 0) : Type 0 where
  pub memory : String → Option (CacheEntry Value)
  pub has_dir : Bool
  pub disk : String → Option (CacheEntry Value)

-- What the mapper calls.
pub record Mapping (Real Value : Type 0) : Type 0 where
  pub sha256 : String → String
  pub parse_float : String → Option Real
  pub zero_real : Real
  pub four_fifths : Real
  pub ratio_of : ℕ → ℕ → Real
  pub at_most : Real → Real → Bool
  pub text_value : String → Value

-- m[k] = v
abbrev pub put : {V : Type 0} → String → V → List (String × V) → List (String × V)
put k v [] = (k, v) ∷ []
put k v ((j, w) ∷ rest) = if str_eq j k then (k, v) ∷ rest else (j, w) ∷ put k v rest

-- The expansion of the grid, targets first.
abbrev pub row_of_cells : String → List String → List GridCell
row_of_cells target [] = []
row_of_cells target (a ∷ attrs) = record { target = target; attr = a } ∷ row_of_cells target attrs

abbrev pub grid_cells : List String → List String → List GridCell
grid_cells [] attrs = []
grid_cells (t ∷ targets) attrs = row_of_cells t attrs ++ grid_cells targets attrs

module _ {Real Value : Type 0} (m : Mapping Real Value) where
  abbrev pub ratio : CoverageLedger → Real
  ratio c = if c.total == 0 then m.zero_real else m.ratio_of c.completed c.total

  abbrev pub get_cache_key : String → String → String
  get_cache_key query url = m.sha256 (concat query (concat "\n" url))

  -- The entry, and the cache with it in memory.
  unfoldable pub check_cache : Cache Value → String → Option (CacheEntry Value) × Cache Value
  unfolding update
  check_cache c key = elim (c.memory key) [
    | some entry ↦ (some entry, c)
    | none ↦
        if c.has_dir
        then elim (c.disk key) [
          | some entry ↦ (some entry, record c { memory = update c.memory key (some entry) })
          | none ↦ (none, c)
        ]
        else (none, c)
  ]

  unfoldable pub save_cache : Cache Value → String → CacheEntry Value → Cache Value
  unfolding update
  save_cache c key entry =
      let stored = record c { memory = update c.memory key (some entry) } in
      if c.has_dir then record stored { disk = update c.disk key (some entry) } else stored

  unfoldable pub threshold : String → Real
  threshold stop_rule =
      if starts_with stop_rule "coverage>="
      then elim (m.parse_float (slice stop_rule 10 (len stop_rule))) [
        | some val ↦ val
        | none ↦ m.four_fifths
      ]
      else m.four_fifths

  module _ (track : Track) where
    abbrev pub cell_id : GridCell → String
    cell_id cell = concat cell.target (concat ":" cell.attr)

    abbrev pub found_cell : GridCell → CoverageLedger → CoverageLedger
    found_cell cell l = record l {
      completed = suc l.completed;
      cell_status = put (cell_id cell) "found" l.cell_status;
    }

    abbrev pub hit_row : CacheEntry Value → MapResultRow Value
    hit_row cached = record {
      track_id = track.id;
      is_ok = true;
      values = put "cache" (m.text_value "hit") cached.values;
      error = "";
      evidence = cached.evidence;
      evidence_ids = [];
    }

    abbrev pub mock_row : GridCell → ℕ → MapResultRow Value
    mock_row cell completed = record {
      track_id = track.id;
      is_ok = true;
      values =
          ("target", m.text_value cell.target)
          ∷ ("attr", m.text_value cell.attr)
          ∷ ("result", m.text_value (concat "result for " (cell_id cell)))
          ∷ [];
      error = "";
      evidence =
          if completed % 3 == 0
          then []
          else concat "https://example.com/source/" (cell_id cell) ∷ [];
      evidence_ids = [];
    }

    -- One cell: its row, and the cache behind it.
    unfoldable pub run_cell : GridCell → ℕ → Cache Value → MapResultRow Value × Cache Value
    unfolding check_cache save_cache
    run_cell cell completed c =
        let key = get_cache_key track.q (cell_id cell) in
        let checked = check_cache c key in
        elim checked.0 [
          | some cached ↦ (hit_row cached, checked.1)
          | none ↦
              let row = mock_row cell completed in
              (
                row,
                save_cache checked.1 key
                    (record { query_hash = key; url = ""; values = row.values; evidence = [] }),
              )
        ]

    -- The loop over the cells.
    unfoldable pub run_cells :
        List GridCell
        → CoverageLedger
        → Cache Value
        → List (MapResultRow Value) × CoverageLedger × Cache Value
    unfolding run_cell threshold
    run_cells [] l c = ([], l, c)
    run_cells (cell ∷ cells) l c =
        let one = run_cell cell l.completed c in
        let rest = run_cells cells (found_cell cell l) one.1 in
        if m.at_most (threshold track.stop_rule) (ratio l)
        then ([], l, c)
        else (one.0 ∷ rest.0, rest.1, rest.2)

    unfoldable pub run_wide_track :
        Cache Value → List (MapResultRow Value) × CoverageLedger × Cache Value
    unfolding run_cells
    run_wide_track =
        let cells = grid_cells track.targets track.attrs in
        run_cells cells (record { total = length cells; completed = 0; cell_status = [] })

    abbrev pub run_deep_track : List (MapResultRow Value)
    run_deep_track =
        record {
          track_id = track.id;
          is_ok = true;
          values = ("result", m.text_value (concat "stub result for " track.q)) ∷ [];
          error = "";
          evidence = "https://example.com/deep/result" ∷ [];
          evidence_ids = [];
        }
        ∷ []

    -- Step 3.
    unfoldable pub execute : Cache Value → List (MapResultRow Value) × Cache Value
    unfolding run_wide_track
    execute c =
        if str_eq track.kind "wide"
        then (let wide = run_wide_track c in (wide.0, wide.2))
        else (run_deep_track, c)
