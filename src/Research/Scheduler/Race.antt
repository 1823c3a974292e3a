-- ===== src/Research/Scheduler/Race.antt =====
-- internal/skill/research/scheduler.go: between the two critical sections of one round of the main
-- loop the last worker may end.
use virmux.Prelude.{
  ℤ, pos, update, ◌<◌, String, ◌≡◌, refl, sym, subst, false, none, List, [], ◌∷◌, arith, str_eq,
  eq_iff, eq_refl,
}
use virmux.Research.Plan.{Track}
use virmux.Research.Scheduler.{
  no_error, track_started, done, blocked, unsatisfied_dependencies, collect_ready, block_pending,
  settle, decrement, start_ready, is_ready, block_unsatisfied,
}
use virmux.Research.Scheduler.Build.{build, initial}
use virmux.Research.Scheduler.Run.{
  scanning, idle, finished, acquire, concurrency, acquiring, mapping, Config, move_worker,
  main_scan, main_idle, place, finish_first, Reach, here, next, begin, scan, idle_section, finish,
  is_retryable,
}
use virmux.Research.Scheduler.Core.{state_of}
use virmux.Research.Scheduler.Semaphore.{concurrency_positive}

abbrev pub track : String → List String → Track
track id deps = record {
  id = id;
  q = "question";
  kind = "deep";
  targets = [];
  attrs = [];
  rows = [];
  budget = record { usd = 100; mins = pos 5 };
  stop_rule = "";
  deps = deps;
  deterministic = none;
}

module _ (limit : ℤ) (t u : Track) (ne : str_eq t.id u.id ≡ false) where
  abbrev x : String
  x = t.id

  abbrev y : String
  y = u.id

  ne_back : str_eq y x ≡ false
  ne_back = ground (arith, eq_iff x y, eq_iff y x, eq_refl x)

  abbrev pub pair : List Track
  pair = record t { deps = [] } ∷ record u { deps = t.id ∷ [] } ∷ []

  program : Unit {0}
  unfolding scan idle_section finish begin initial build collect_ready block_pending settle
      decrement start_ready is_ready block_unsatisfied update is_retryable
  program = tt

  started : Config
  unfolding program
  started = scan pair (begin limit (initial pair))

  placed : Config
  unfolding started
  placed =
      acquire (move_worker started [] [] (record { id = x; phase = mapping }) (track_started x))

  nothing_ready : Config
  unfolding placed
  nothing_ready = scan pair placed

  worker_done : Config
  unfolding nothing_ready
  worker_done = finish pair nothing_ready [] [] x none

  cut_off : Config
  unfolding worker_done
  cut_off = idle_section pair worker_done

  ended : Config
  unfolding cut_off
  ended = scan pair cut_off

  started_free : started.free ≡ concurrency limit
  unfolding started
  started_free = refl

  started_pc : started.pc ≡ scanning
  unfolding started
  started_pc = simp (ne, ne_back, eq_refl)

  started_workers : started.workers ≡ record { id = x; phase = acquiring } ∷ []
  unfolding started
  started_workers = simp (ne, ne_back, eq_refl)

  some_free : 0 < started.free
  unfolding started
  some_free = subst (λ n. 0 < n) (sym started_free) (concurrency_positive limit)

  nothing_ready_lem :
      (nothing_ready.pc ≡ idle) × (nothing_ready.workers ≡ record { id = x; phase = mapping } ∷ [])
  unfolding nothing_ready
  nothing_ready_lem = (simp (ne, ne_back, eq_refl), simp (ne, ne_back, eq_refl))

  worker_done_pc : worker_done.pc ≡ idle
  unfolding worker_done
  worker_done_pc = simp (ne, ne_back, eq_refl)

  cut_off_pc : cut_off.pc ≡ scanning
  unfolding cut_off
  cut_off_pc = simp (ne, ne_back, eq_refl)

  ended_lem :
      (ended.pc ≡ finished)
      × (ended.machine.states x ≡ state_of x done no_error)
      × (ended.machine.states y ≡ state_of y blocked (unsatisfied_dependencies (x ∷ [])))
  unfolding ended
  ended_lem =
      (simp (ne, ne_back, eq_refl), simp (ne, ne_back, eq_refl), simp (ne, ne_back, eq_refl))

  to_placed : Reach pair (begin limit (initial pair)) placed
  unfolding placed
  to_placed =
      next {d = started} (next {e = started} here (main_scan refl refl))
        (place [] [] x started_workers some_free refl)

  to_worker_done : Reach pair (begin limit (initial pair)) worker_done
  unfolding worker_done
  to_worker_done =
      next {d = nothing_ready} (next {d = placed} to_placed (main_scan started_pc refl)) (
        finish_first [] [] x (record { retryable = false; error = none }) nothing_ready_lem.1 refl
          refl)

  Reach-ended : Reach pair (begin limit (initial pair)) ended
  unfolding ended
  Reach-ended =
      next {d = cut_off} (next {d = worker_done} to_worker_done (main_idle worker_done_pc refl))
        (main_scan cut_off_pc refl)

  -- For every plan of two tracks with different IDs, of which the first has no dependencies and the
  -- second depends on the first alone, some interleaving of a full run ends with the first track done and the second one blocked for
  -- unsatisfied dependencies: its worker ends between the main loop's two critical sections.
  pub ready_track_blocked :
      (c : Config) × Reach pair (begin limit (initial pair)) c
      × (c.pc ≡ finished)
      × (c.machine.states t.id ≡ state_of t.id done no_error)
      × (c.machine.states u.id ≡ state_of u.id blocked (unsatisfied_dependencies (t.id ∷ [])))
  ready_track_blocked = (ended, Reach-ended, ended_lem.0, ended_lem.1, ended_lem.2)
