-- ===== src/Research/Scheduler/Run.antt =====
-- internal/skill/research/scheduler.go, the main loop of `runConcurrent` and its workers, as steps
-- of interleaved threads. A critical section of the mutex is one step. The environment chooses
-- which worker moves, whether `sem.Acquire` fails, and what `Mapper.Run` answers. A place of the
-- semaphore goes to any of the workers that wait for one. `errgroup.Group.Wait` is the
-- parameter `wait` over what the workers returned.
use mathlib.Core.Option
use virmux.Prelude.{
  ltb, ◌==◌, if◌then◌else◌, Result, ok, err, length, ℤ, pos, negsuc, ℕ, zero, suc, ◌+◌, ◌-◌, ◌<◌,
  String, ◌≡◌, Bool, true, false, Option, none, some, List, [], ◌∷◌, ◌++◌, map, is_nil,
}
use virmux.Research.Plan.{Track}
use virmux.Research.Scheduler.{
  TrackState, Event, track_started, track_retry, Machine, emit, collect_ready, block_pending,
  settle, settle_unacquired,
}
use virmux.Research.Scheduler.Build.{build, RunError, worker_error}

-- Where the main loop stands: before its first critical section, before the second one with
-- nothing ready, in `cond.Wait`, or behind the loop.
pub data Pc : Type 0 where
  scanning idle waiting finished : Pc

-- A worker waits for the semaphore, makes its first attempt, or its second one.
pub data Phase : Type 0 where
  acquiring mapping retrying : Phase

pub record Worker : Type 0 where
  pub id : String
  pub phase : Phase

pub record Config : Type 0 where
  pub machine : Machine
  pub pc : Pc
  pub workers : List Worker
  pub returned : List (Option String)
  -- The places of the semaphore that no worker has.
  pub free : ℕ

-- `cond.Broadcast` wakes the main loop if it waits.
abbrev pub broadcast : Pc → Pc
broadcast waiting = scanning
broadcast p = p

abbrev pub launch : List String → List Worker
launch ids = map (λ i. record { id = i; phase = acquiring }) ids

-- `MapOutput.Retryable` and the error of an attempt.
pub record Attempt : Type 0 where
  pub retryable : Bool
  pub error : Option String

-- `(err != nil || res.Retryable) && s.isRetryable(err, res)`
unfoldable pub is_retryable : Attempt → Bool
is_retryable a = a.retryable

abbrev pub move_worker : Config → List Worker → List Worker → Worker → Event → Config
move_worker c before after w e = record c {
  machine = emit e c.machine;
  workers = before ++ w ∷ after;
}

abbrev pub end_worker : Config → List Worker → List Worker → Machine → Option String → Config
end_worker c before after m result = record c {
  machine = m;
  pc = broadcast c.pc;
  workers = before ++ after;
  returned = c.returned ++ result ∷ [];
}

-- `MaxConcurrency`, or 4 where it is not positive.
abbrev pub concurrency : ℤ → ℕ
concurrency (pos zero) = 4
concurrency (pos (suc n)) = suc n
concurrency (negsuc n) = 4

-- sem.Acquire
abbrev pub acquire : Config → Config
acquire c = record c { free = c.free - 1 }

-- sem.Release
abbrev pub release : Config → Config
release c = record c { free = c.free + 1 }

unfoldable pub begin : ℤ → Machine → Config
begin max_concurrency m = record {
  machine = m;
  pc = scanning;
  workers = [];
  returned = [];
  free = concurrency max_concurrency;
}

-- `*states[id.ID]` for each track of the plan; `none` is Go's nil dereference.
unfoldable pub collect_states : List Track → Machine → Option (List TrackState)
collect_states [] m = some []
collect_states (t ∷ rest) m = elim (m.states t.id) [
  | none ↦ none
  | some st ↦ elim (collect_states rest m) [ none ↦ none | some sts ↦ some (st ∷ sts) ]
]

module _ (ts : List Track) where
  unfoldable pub scan : Config → Config
  scan c =
      if c.machine.completed_count == length ts
      then record c { pc = finished }
      else (let (ready, m) = collect_ready ts c.machine in
          record c {
            machine = record m { running_count = m.running_count + length ready };
            pc = if is_nil ready then idle else scanning;
            workers = c.workers ++ launch ready;
          })

  unfoldable pub idle_section : Config → Config
  idle_section c =
      if ltb c.machine.completed_count (length ts)
      then (if c.machine.running_count == 0
          then record c { machine = block_pending ts c.machine; pc = scanning }
          else record c { pc = waiting })
      else record c { pc = finished }

  -- The last attempt's critical section, and the place given back; the worker returns nil whatever
  -- the mapper answered.
  unfoldable pub finish : Config → List Worker → List Worker → String → Option String → Config
  finish c before after id error =
      release
        (end_worker c before after (settle (build ts).adj (length ts) id error c.machine) none)

  pub data Step (c d : Config) : Type 0 where
    main_scan : c.pc ≡ scanning → d ≡ scan c → Step c d
    main_idle : c.pc ≡ idle → d ≡ idle_section c → Step c d
    no_place :
        (before after : List Worker) (id e : String)
        → c.workers ≡ before ++ record { id = id; phase = acquiring } ∷ after
        → d ≡ end_worker c before after (settle_unacquired id e c.machine) (some e)
        → Step c d
    place :
        (before after : List Worker) (id : String)
        → c.workers ≡ before ++ record { id = id; phase = acquiring } ∷ after
        → 0 < c.free
        → d
          ≡ acquire
              (move_worker c before after (record { id = id; phase = mapping }) (track_started id))
        → Step c d
    retry :
        (before after : List Worker) (id : String) (a : Attempt)
        → c.workers ≡ before ++ record { id = id; phase = mapping } ∷ after
        → is_retryable a ≡ true
        → d
          ≡ move_worker c before after
              (record { id = id; phase = retrying })
              (track_retry id a.error)
        → Step c d
    finish_first :
        (before after : List Worker) (id : String) (a : Attempt)
        → c.workers ≡ before ++ record { id = id; phase = mapping } ∷ after
        → is_retryable a ≡ false
        → d ≡ finish c before after id a.error
        → Step c d
    finish_second :
        (before after : List Worker) (id : String) (a : Attempt)
        → c.workers ≡ before ++ record { id = id; phase = retrying } ∷ after
        → d ≡ finish c before after id a.error
        → Step c d

  pub data Reach (c : Config) : Config → Type 0 where
    here : Reach c c
    next : {d e : Config} → Reach c d → Step d e → Reach c e

  -- What `Run` returns after the loop.
  unfoldable pub result :
      (List (Option String) → Option String) → Config → Option (Result RunError (List TrackState))
  unfolding collect_states
  result wait c = elim (wait c.returned) [
    | some e ↦ some (err (worker_error e))
    | none ↦ Option.map ok (collect_states ts c.machine)
  ]
