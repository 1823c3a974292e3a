-- ===== src/Research/Replay.antt =====
-- internal/skill/research/replay.go: tracks are run again and compared with what they gave before.
-- The folders map/ and map_backup/ of a run are functions of the track ID: `none` where there is no
-- file, else its lines. A row is a JSON object, a map as a list; `unmarshal` gives it of a line, and
-- `value_eq` is reflect.DeepEqual of its values. `Scheduler.Run` is a parameter that gives the folder it leaves. The plan is read
-- and parsed before.
pub mod Compared
mod Samples
use virmux.Prelude.{
  ◌==◌, if◌then◌else◌, Result, ok, err, length, update, ℕ, suc, String, Bool, true, false, not,
  ◌&&◌, ◌||◌, Option, none, some, List, [], ◌∷◌, ◌++◌, map, str_eq, is_nil,
}
use virmux.Skill.Judge.Rubric.{lookup}
use virmux.Research.Plan.{Plan, Track}

pub data Mismatch : Type 0 where
  row_count : ℕ → ℕ → Mismatch
  row_data : ℕ → Mismatch

pub data ReplayEvent : Type 0 where
  replay_started : (plan_id : String) → (only : List String) → ReplayEvent
  nothing_to_rerun replay_done : ReplayEvent
  nondet_exception : String → ReplayEvent
  mismatch_found : String → List Mismatch → ReplayEvent

pub data ReplayError : Type 0 where
  rerun_selector : String → ReplayError
  scheduler_failed : String → ReplayError

-- `_, ok := trackIDs[id]`
in_plan : List Track → String → Bool
in_plan [] id = false
in_plan (t ∷ ts) id = str_eq t.id id || in_plan ts id

unknown_track : List Track → List String → Option String
unfolding in_plan
unknown_track ts [] = none
unknown_track ts (id ∷ only) = if in_plan ts id then unknown_track ts only else some id

-- `trackMap[id]`, where a later track takes the place of an earlier one.
find_track : List Track → String → Option Track
find_track [] id = none
find_track (t ∷ ts) id = elim (find_track ts id) [
  | some u ↦ some u
  | none ↦ if str_eq t.id id then some t else none
]

-- `track.Deterministic != nil && !*track.Deterministic`
is_nondet : Option Track → Bool
is_nondet none = false
is_nondet (some t) = elim t.deterministic [ none ↦ false | some d ↦ not d ]

abbrev pub JsonRow : Type 0 → Type 0
JsonRow Value = List (String × Value)

-- delete(m, key)
unfoldable pub delete : {Value : Type 0} → String → JsonRow Value → JsonRow Value
delete key [] = []
delete key ((k, v) ∷ row) =
    let rest = delete key row in if str_eq k key then rest else (k, v) ∷ rest

abbrev pub keys_of : {Value : Type 0} → JsonRow Value → List String
keys_of row = map (λ entry. entry.0) row

module _ {Value : Type 0} (unmarshal : String → Option (JsonRow Value))
    (value_eq : Value → Value → Bool) where
  abbrev pub same_value : Option Value → Option Value → Bool
  same_value none none = true
  same_value (some v) (some w) = value_eq v w
  same_value _ _ = false

  abbrev pub agree : List String → JsonRow Value → JsonRow Value → Bool
  agree [] a b = true
  agree (k ∷ ks) a b = same_value (lookup k a) (lookup k b) && agree ks a b

  -- reflect.DeepEqual
  abbrev pub row_eq : JsonRow Value → JsonRow Value → Bool
  row_eq a b = agree (keys_of a) a b && agree (keys_of b) a b

  abbrev pub parsed_rows : List String → List (JsonRow Value)
  parsed_rows [] = []
  parsed_rows (line ∷ lines) =
      let rest = parsed_rows lines in
      let row = unmarshal line in
      if str_eq line "" then rest else elim row [ none ↦ rest | some r ↦ r ∷ rest ]

  -- Lines that do not parse are left out.
  abbrev pub read_rows : Option (List String) → List (JsonRow Value)
  read_rows none = []
  read_rows (some lines) = parsed_rows lines

  -- The loop of `compareFiles` from row `i` on.
  compare_rows : ℕ → List (JsonRow Value) → List (JsonRow Value) → List Mismatch
  unfolding delete
  compare_rows i [] news = []
  compare_rows i (o ∷ olds) [] = []
  compare_rows i (o ∷ olds) (n ∷ news) =
      let rest = compare_rows (suc i) olds news in
      if row_eq (delete "evidence_ids" o) (delete "evidence_ids" n) then rest else row_data i ∷ rest

  unfoldable pub compare_files : Option (List String) → Option (List String) → List Mismatch
  unfolding compare_rows
  compare_files old new =
      let olds = read_rows old in
      let news = read_rows new in
      if length olds == length news
      then compare_rows 0 olds news
      else row_count (length olds) (length news) ∷ []

  pub record Folders : Type 0 where
    pub current : String → Option (List String)
    pub backup : String → Option (List String)

  -- os.Rename of one track's file, where there is one.
  back_up : List String → Folders → Folders
  back_up [] f = f
  back_up (id ∷ ids) f = elim (f.current id) [
    | none ↦ back_up ids f
    | some rows ↦
        back_up ids
          (record { current = update f.current id none; backup = update f.backup id (some rows) })
  ]

  -- findFailedTracks, as IDs.
  find_failed : (String → Option (List String)) → List Track → List String
  find_failed current [] = []
  find_failed current (t ∷ ts) = elim (current t.id) [
    | none ↦ t.id ∷ find_failed current ts
    | some rows ↦ find_failed current ts
  ]

  -- The parity check: its events, of which the mismatches are what mismatch.json gets.
  parity : List Track → Folders → List String → List ReplayEvent
  unfolding is_nondet find_track
  parity ts f [] = []
  parity ts f (id ∷ ids) =
      let rest = parity ts f ids in
      if is_nondet (find_track ts id) then nondet_exception id ∷ rest else elim (f.backup id) [
        | none ↦ rest
        | some olds ↦ elim (compare_files (some olds) (f.current id)) [
          | [] ↦ rest
          | m ∷ ms ↦ mismatch_found id (m ∷ ms) ∷ rest
        ]
      ]

  -- `Run` behind the choice of the tracks.
  rerun :
      (List String
        → (String → Option (List String))
        → Result String (String → Option (List String)))
      → Plan
      → List String
      → Folders
      → Folders × List ReplayEvent × Option ReplayError
  unfolding back_up parity
  rerun scheduler plan [] f = (f, nothing_to_rerun ∷ [], none)
  rerun scheduler plan (id ∷ ids) f =
      let saved = back_up (id ∷ ids) f in
      elim (scheduler (id ∷ ids) saved.current) [
        | err e ↦ (saved, [], some (scheduler_failed e))
        | ok current ↦
            let left : Folders = record { current = current; backup = saved.backup } in
            (left, parity plan.tracks left (id ∷ ids) ++ replay_done ∷ [], none)
      ]

  unfoldable pub replay :
      (List String
        → (String → Option (List String))
        → Result String (String → Option (List String)))
      → Plan
      → List String
      → Folders
      → Folders × List ReplayEvent × Option ReplayError
  unfolding rerun find_failed unknown_track
  replay scheduler plan only f = elim (unknown_track plan.tracks only) [
    | some id ↦ (f, [], some (rerun_selector id))
    | none ↦
        let ids = if is_nil only then find_failed f.current plan.tracks else only in
        let (left, events, e) = rerun scheduler plan ids f in
        (left, replay_started plan.plan_id only ∷ events, e)
  ]
