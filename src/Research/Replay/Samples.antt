-- ===== src/Research/Replay/Samples.antt =====
-- internal/skill/research/replay.go: a replay of one track, with texts for the values.
use virmux.Prelude.{
  if◌then◌else◌, Result, ok, pos, update, String, ◌≡◌, refl, ◌↔◌, Option, none, some, List, [], ◌∷◌,
  str_eq, eq_iff,
}
use virmux.Research.Plan.{Plan}
use virmux.Research.Replay.{
  JsonRow, delete, row_data, replay_started, replay_done, mismatch_found, rerun_selector,
  compare_files, Folders, replay,
}
use virmux.Research.Replay.Compared.{AllSame, compare_files_iff}
use virmux.Research.Scheduler.Race.{track}

-- The objects of three lines, with and without an evidence ID; the values are texts.
abbrev unmarshal : String → Option (JsonRow String)
unmarshal line =
    if str_eq line "x1"
    then some (("data", "x") ∷ ("evidence_ids", "1") ∷ [])
    else if str_eq line "x"
    then some (("data", "x") ∷ [])
    else if str_eq line "bad"
    then none
    else some (("data", line) ∷ [])

abbrev plan : Plan
plan = record {
  plan_id = "p";
  goal = "g";
  assumptions = [];
  unknowns = [];
  dims_didnt_ask = [];
  tracks = track "a" [] ∷ [];
  reduce = record { outputs = []; rubric = [] };
  revision = pos 0;
}

abbrev folders : Folders unmarshal str_eq
folders = record {
  current = λ id. if str_eq id "a" then some ("x1" ∷ "y" ∷ []) else none;
  backup = λ id. none;
}

-- The second row changes.
abbrev scheduler :
    List String → (String → Option (List String)) → Result String (String → Option (List String))
scheduler ids current = ok (λ id. if str_eq id "a" then some ("x" ∷ "z" ∷ []) else none)

reports :
    (replay unmarshal str_eq scheduler plan ("a" ∷ []) folders).1
    ≡ replay_started "p" ("a" ∷ []) ∷ mismatch_found "a" (row_data 1 ∷ []) ∷ replay_done ∷ []
unfolding replay compare_files update delete
reports = refl

rejects : (replay unmarshal str_eq scheduler plan ("b" ∷ []) folders).2 ≡ some (rerun_selector "b")
unfolding replay
rejects = refl

compare_files_iff_example :
    (compare_files unmarshal str_eq (some ("x1" ∷ "" ∷ [])) (some ("bad" ∷ "x" ∷ [])) ≡ [])
    ↔ AllSame {Value = String}
        ((("data", "x") ∷ ("evidence_ids", "1") ∷ []) ∷ [])
        ((("data", "x") ∷ []) ∷ [])
compare_files_iff_example =
    compare_files_iff unmarshal str_eq eq_iff (some ("x1" ∷ "" ∷ [])) (some ("bad" ∷ "x" ∷ []))
