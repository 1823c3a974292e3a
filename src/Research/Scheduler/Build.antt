-- ===== src/Research/Scheduler/Build.antt =====
-- internal/skill/research/scheduler.go, `runConcurrent` up to its main loop: the maps that it
-- fills from the plan, and the tracks outside of a rerun set.
-- The rerun set is a Go map that is ranged over: which of several unknown IDs the error names is
-- not fixed there, and is the first of `only` here. `TrackArtifactExists` is `none` where it is nil.
use virmux.Prelude.{
  Result, ok, err, ℤ, pos, inc, update, elem, ◌+◌, String, Bool, true, false, Option, none, some,
  List, [], ◌∷◌, ◌++◌,
}
use virmux.Research.Plan.{Track}
use virmux.Research.Scheduler.{
  pending, done, blocked, no_error, no_artifact, States, Machine, set_state, decrement,
}

pub record Graph : Type 0 where
  pub states : States
  pub adj : String → List String
  pub in_degree : String → ℤ

unfoldable pub empty_graph : Graph
empty_graph = record { states = λ _. none; adj = λ _. []; in_degree = λ _. pos 0 }

-- `adj[dep] = append(adj[dep], t.ID); inDegree[t.ID]++`, for each dependency.
unfoldable pub add_deps : String → List String → Graph → Graph
add_deps id [] g = g
add_deps id (dep ∷ deps) g = add_deps id deps (record g {
  adj = update g.adj dep (g.adj dep ++ id ∷ []);
  in_degree = update g.in_degree id (inc (g.in_degree id));
})

unfoldable pub add_track : Track → Graph → Graph
unfolding add_deps
add_track t g = add_deps t.id t.deps (record g {
  states =
      update g.states t.id (some (record { track_id = t.id; status = pending; error = no_error }));
})

unfoldable pub add_tracks : List Track → Graph → Graph
unfolding add_track
add_tracks [] g = g
add_tracks (t ∷ ts) g = add_tracks ts (add_track t g)

unfoldable pub build : List Track → Graph
unfolding add_tracks empty_graph
build ts = add_tracks ts empty_graph

unfoldable pub unknown_selector : States → List String → Option String
unknown_selector states [] = none
unknown_selector states (id ∷ only) = elim (states id) [
  | none ↦ some id
  | some _ ↦ unknown_selector states only
]

unfoldable pub has_track_artifact :
    Option (String → Result String Bool) → String → Result String Bool
has_track_artifact none id = ok false
has_track_artifact (some exists) id = exists id

-- What becomes of a track that is not in the rerun set.
unfoldable pub skip_track : (String → List String) → String → Bool → Machine → Machine
skip_track adj id true m =
    let m' = set_state id done no_error m in
    record m' {
      in_degree = decrement (adj id) m'.in_degree;
      completed_count = m'.completed_count + 1;
    }
skip_track adj id false m =
    let m' = set_state id blocked no_artifact m in
    record m' { completed_count = m'.completed_count + 1 }

unfoldable pub skip_unselected :
    (String → List String)
    → (String → Result String Bool)
    → List String
    → List Track
    → Machine
    → Result String Machine
unfolding skip_track
skip_unselected adj exists only [] m = ok m
skip_unselected adj exists only (t ∷ ts) m = elim (elem t.id only) [
  | true ↦ skip_unselected adj exists only ts m
  | false ↦ elim (exists t.id) [
    | err e ↦ err e
    | ok found ↦ skip_unselected adj exists only ts (skip_track adj t.id found m)
  ]
]

-- The errors with which `Run` may return.
pub data RunError : Type 0 where
  rerun_selector : String → RunError
  artifact_error : String → RunError
  worker_error : String → RunError

unfoldable pub initial : List Track → Machine
unfolding build
initial ts = record {
  states = (build ts).states;
  in_degree = (build ts).in_degree;
  completed_count = 0;
  running_count = 0;
  events = [];
}

-- Everything before the main loop.
unfoldable pub start :
    Option (String → Result String Bool) → List Track → List String → Result RunError Machine
unfolding initial unknown_selector skip_unselected has_track_artifact
start artifacts ts [] = ok (initial ts)
start artifacts ts (id ∷ only) = elim (unknown_selector (build ts).states (id ∷ only)) [
  | some unknown ↦ err (rerun_selector unknown)
  | none ↦
      elim (skip_unselected (build ts).adj (has_track_artifact artifacts) (id ∷ only) ts
        (initial ts)) [ err e ↦ err (artifact_error e) | ok m ↦ ok m ]
]
