-- ===== src/Research/Map/Samples.antt =====
-- internal/skill/research/mapper.go: a wide track of six cells, twice, and its rows' evidence.
use Prim.Native.String.{◌++◌ as concat}
use virmux.Prelude.{
  leb, if◌then◌else◌, pos, update, ℕ, ◌*◌, ◌/◌, String, ◌≡◌, refl, true, false, none, some, List,
  [], ◌∷◌, map, str_eq,
}
use virmux.Database.Structs.{Run}
use virmux.Database.Rows.{Row, text}
use virmux.Database.Engine.{Clock, has_key, insert_row}
use virmux.Database.Runs.{start_run, insert_evidence, insert_row_evidence}
use virmux.Database.Session.{Write, starting, call, calls}
use virmux.Research.Plan.{Track}
use virmux.Research.Map.{
  MapResultRow, Cache, Mapping, grid_cells, threshold, check_cache, save_cache, run_cell, run_cells,
  run_wide_track, execute,
}
use virmux.Research.Map.Linked.{link_row, link_list, link_rows, split_cited}
use virmux.Research.Map.Covered.{IsCovered, run_wide_track-IsCovered}

-- Percents for the floats, and texts for the values.
abbrev mapping : Mapping ℕ String
mapping = record {
  sha256 = λ s. concat "sha256:" s;
  parse_float = λ s. if str_eq s "0.5" then some 50 else none;
  zero_real = 0;
  four_fifths = 80;
  ratio_of = λ x y. (x * 100) / y;
  at_most = leb;
  text_value = λ s. s;
}

abbrev track : Track
track = record {
  id = "t1";
  q = "disks";
  kind = "wide";
  targets = "a" ∷ "b" ∷ [];
  attrs = "x" ∷ "y" ∷ [];
  rows = [];
  budget = record { usd = 0; mins = pos 0 };
  stop_rule = "coverage>=0.5";
  deps = [];
  deterministic = none;
}

abbrev empty_cache : Cache String
empty_cache = record { memory = λ k. none; has_dir = false; disk = λ k. none }

abbrev clock : Clock String
clock = record { is_zero = λ t. str_eq t ""; format = λ t. t; parse = λ t. t }

abbrev boot : Run ℕ String
boot = record {
  id = "run-1";
  task = "research";
  label = "";
  agent_id = "";
  image_sha = "";
  kernel_sha = "";
  rootfs_sha = "";
  snapshot_id = "";
  cost_est = 0;
  started_at = "10:00:00";
}

abbrev session : List (String × Write ℕ String)
session = ("10:00:00", starting boot) ∷ []

program : Unit {0}
unfolding calls call start_run insert_evidence insert_row_evidence insert_row update threshold
    check_cache save_cache run_cell run_cells run_wide_track execute link_row link_list link_rows
    split_cited
program = tt

abbrev database : List (Row ℕ)
database = calls clock session []

abbrev wide : List (MapResultRow String) × Cache String
wide = execute mapping track empty_cache

abbrev evidence_of_rows : List (MapResultRow String) → List (List String)
evidence_of_rows = map (λ row. row.evidence)

half_of_the_cells : evidence_of_rows wide.0 ≡ [] ∷ ("https://example.com/source/a:y" ∷ []) ∷ []
unfolding program
half_of_the_cells = refl

-- A row from the cache has lost its evidence.
without_evidence : evidence_of_rows (execute mapping track wide.1).0 ≡ [] ∷ [] ∷ []
unfolding program
without_evidence = refl

one_cited :
    map
      (λ row. row.evidence_ids)
      (split_cited (link_rows mapping clock "10:01:00" "run-1" 0 wide.0 database).0).0
    ≡ (pos 1 ∷ []) ∷ []
unfolding program
one_cited = refl

started : has_key "runs" (text "run-1") database ≡ true
unfolding program
started = refl

run_wide_track-IsCovered_example :
    IsCovered mapping track empty_cache
      (grid_cells ("a" ∷ "b" ∷ []) ("x" ∷ "y" ∷ []))
      0
      4
      (run_wide_track mapping track empty_cache).0
      (run_wide_track mapping track empty_cache).1
run_wide_track-IsCovered_example = run_wide_track-IsCovered mapping track empty_cache
