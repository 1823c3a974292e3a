-- ===== src/Research/Scheduler.antt =====
-- internal/skill/research/scheduler.go: the dependency scheduler.
-- `Machine` is what the mutex guards: the maps `states` and `inDegree` as functions of the track ID
-- (a key that is not there is `none`, or 0 as in Go), the two counters, and the emitted events in
-- order. Formatted messages are constructors that hold what is printed. `run_id`, the same in every
-- payload, is left out of the events.
pub mod Build
mod Initial
pub mod Run
pub mod Core
mod Moves
mod Loops
mod Cascade
mod Settle
pub mod Closure
pub mod Invariant
pub mod Rerun
pub mod Safety
mod Semaphore
mod Progress
pub mod Termination
pub mod Race
pub mod Propagation
mod Samples
use virmux.Prelude.{
  if◌then◌else◌, ℤ, dec, is_zero, update, ℕ, zero, suc, ◌+◌, ◌-◌, String, Bool, true, false, ◌&&◌,
  Option, none, some, List, [], ◌∷◌, ◌++◌,
}
use virmux.Research.Plan.{Track}

pub data TrackStatus : Type 0 where
  pending running done failed blocked : TrackStatus

-- `TrackState.Error`
pub data Reason : Type 0 where
  no_error : Reason
  message : String → Reason
  no_artifact : Reason
  unsatisfied_dependencies : List String → Reason
  dependency_failed : String → Reason

pub record TrackState : Type 0 where
  pub track_id : String
  pub status : TrackStatus
  pub error : Reason

pub data Event : Type 0 where
  track_started : String → Event
  track_retry : String → Option String → Event
  track_failed : String → String → Event
  track_done : String → Event
  track_blocked : String → String → Event
  track_unsatisfied : String → Event

-- map[string]*TrackState
abbrev pub States : Type 0
States = String → Option TrackState

pub record Machine : Type 0 where
  pub states : States
  pub in_degree : String → ℤ
  pub completed_count : ℕ
  pub running_count : ℕ
  pub events : List Event

abbrev pub is_pending : TrackStatus → Bool
is_pending pending = true
is_pending _ = false

abbrev pub is_running : TrackStatus → Bool
is_running running = true
is_running _ = false

abbrev pub is_done : TrackStatus → Bool
is_done done = true
is_done _ = false

abbrev pub status_is : (TrackStatus → Bool) → Option TrackState → Bool
status_is test none = false
status_is test (some st) = test st.status

-- A test of `states[id].Status`.
abbrev pub has : (TrackStatus → Bool) → States → String → Bool
has test states id = status_is test (states id)

-- `states[id].Status = s; states[id].Error = e`
abbrev pub set_state : String → TrackStatus → Reason → Machine → Machine
set_state id s e m = record m {
  states = update m.states id (some (record { track_id = id; status = s; error = e }));
}

abbrev pub emit : Event → Machine → Machine
emit e m = record m { events = m.events ++ e ∷ [] }

-- `for _, dependent := range adj[id] { inDegree[dependent]-- }`
pub decrement : List String → (String → ℤ) → String → ℤ
decrement [] deg = deg
decrement (d ∷ ds) deg = decrement ds (update deg d (dec (deg d)))

-- `state.Status == TrackPending && inDegree[id] == 0`
pub is_ready : Machine → Track → Bool
is_ready m t = has is_pending m.states t.id && is_zero (m.in_degree t.id)

-- `state.Status = TrackRunning`; the error stays as it is, which is empty while a track is pending.
pub start_ready : Track → Machine → Machine
start_ready t m = if is_ready m t then set_state t.id running no_error m else m

-- The loop that marks the ready tracks as running, and collects them.
pub collect_ready : List Track → Machine → List String × Machine
unfolding is_ready start_ready
collect_ready [] m = ([], m)
collect_ready (t ∷ ts) m =
    let (ready, m') = collect_ready ts (start_ready t m) in
    (if is_ready m t then t.id ∷ ready else ready, m')

-- One round of the loop over the tracks that can never start.
pub block_unsatisfied : Track → Machine → Machine
block_unsatisfied t m =
    if has is_pending m.states t.id
    then (let m' = set_state t.id blocked (unsatisfied_dependencies t.deps) m in
        emit (track_unsatisfied t.id) (record m' { completed_count = m'.completed_count + 1 }))
    else m

pub block_pending : List Track → Machine → Machine
block_pending [] m = m
block_pending (t ∷ ts) m = block_pending ts (block_unsatisfied t m)

-- The body of the closure `cascade`, before it calls itself.
pub block_dependent : String → String → Machine → Machine
block_dependent id dependent m =
    let m' = set_state dependent blocked (dependency_failed id) m in
    let m'' = emit (track_blocked dependent id) m' in
    record m'' { completed_count = m''.completed_count + 1 }

-- One dependent in the loop of `cascade`, with the recursive call `again`.
pub visit_dependent : (String → Machine → Machine) → String → String → Machine → Machine
visit_dependent again id d m =
    if has is_pending m.states d then again d (block_dependent id d m) else m

pub cascade_over : (String → Machine → Machine) → String → List String → Machine → Machine
cascade_over again id [] m = m
cascade_over again id (d ∷ ds) m = cascade_over again id ds (visit_dependent again id d m)

-- The closure `cascade`, on fuel; a fuel of the count of pending tracks is enough.
pub cascade : (String → List String) → ℕ → String → Machine → Machine
unfolding cascade_over visit_dependent block_dependent
cascade adj zero id m = m
cascade adj (suc fuel) id m = cascade_over (cascade adj fuel) id (adj id) m

-- The worker's critical section after its last attempt.
settle_failed : (String → List String) → ℕ → String → String → Machine → Machine
settle_failed adj fuel id e m =
    cascade adj fuel id (emit (track_failed id e) (set_state id failed (message e) m))

settle_done : (String → List String) → String → Machine → Machine
settle_done adj id m =
    let m' = emit (track_done id) (set_state id done no_error m) in
    record m' { in_degree = decrement (adj id) m'.in_degree }

abbrev count_settled : Machine → Machine
count_settled m = record m {
  running_count = m.running_count - 1;
  completed_count = m.completed_count + 1;
}

-- `none` is an attempt with no error.
pub settle : (String → List String) → ℕ → String → Option String → Machine → Machine
unfolding settle_failed settle_done
settle adj fuel id none m = count_settled (settle_done adj id m)
settle adj fuel id (some e) m = count_settled (settle_failed adj fuel id e m)

-- The critical section of a worker that got no place on the semaphore.
pub settle_unacquired : String → String → Machine → Machine
settle_unacquired id e m =
    let m' =
      if has is_running m.states id
      then (let m'' = set_state id failed (message e) m in
          record m'' { completed_count = m''.completed_count + 1 })
      else m in
    record m' { running_count = m'.running_count - 1 }
