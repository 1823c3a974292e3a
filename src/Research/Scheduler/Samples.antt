-- ===== src/Research/Scheduler/Samples.antt =====
-- internal/skill/research/scheduler.go: runs of small plans, and the theorems at them.
use mathlib.Core.List.{Memᴰ}
use virmux.Prelude.{
  bit, ok, length, All, pos, update, IsDistinct, count, ◌+◌, String, ◌≡◌, refl, ◌≢◌, true, false,
  none, some, List, [], ◌∷◌, arith,
}
use virmux.Research.Plan.{Track}
use virmux.Research.Scheduler.{
  TrackState, no_error, track_started, is_done, is_running, has, done, blocked, failed, message,
  dependency_failed, unsatisfied_dependencies, collect_ready, block_pending, settle, cascade,
  decrement, start_ready, is_ready, block_unsatisfied,
}
use virmux.Research.Scheduler.Build.{build, initial, start, skip_unselected}
use virmux.Research.Scheduler.Run.{
  finished, acquiring, mapping, Config, move_worker, acquire, main_scan, place, finish_first, Reach,
  here, next, begin, scan, idle_section, finish, is_retryable, result,
}
use virmux.Research.Scheduler.Core.{idents, is_open, is_bad, state_of}
use virmux.Research.Scheduler.Invariant.{live}
use virmux.Research.Scheduler.Safety.{started-deps_done, counters_lem, finished-result}
use virmux.Research.Scheduler.Termination.{duplicate_never_finishes}
use virmux.Research.Scheduler.Closure.{Closed}
use virmux.Research.Scheduler.Propagation.{settle-Closed}
use virmux.Research.Scheduler.Race.{track, pair, ready_track_blocked}

program : Unit {0}
unfolding scan idle_section finish begin initial build collect_ready block_pending settle cascade
    decrement start_ready is_ready block_unsatisfied update is_retryable start skip_unselected
    result
program = tt

abbrev two : List Track
two = track "a" [] ∷ track "b" ("a" ∷ []) ∷ []

-- A full run of `two`, up to where the second track has started.
started : Config
unfolding program
started = scan two (begin (pos 1) (initial two))

placed : Config
unfolding started
placed =
    acquire (move_worker started [] [] (record { id = "a"; phase = mapping }) (track_started "a"))

first_done : Config
unfolding placed
first_done = finish two placed [] [] "a" none

second_started : Config
unfolding first_done
second_started = scan two first_done

second_placed : Config
unfolding second_started
second_placed =
    acquire
      (move_worker second_started [] [] (record { id = "b"; phase = mapping }) (track_started "b"))

second_failed : Config
unfolding second_placed
second_failed = finish two second_placed [] [] "b" (some "no answer")

over : Config
unfolding second_failed
over = scan two second_failed

Reach-started : Reach two (begin (pos 1) (initial two)) started
unfolding started
Reach-started = next {e = started} here (main_scan refl refl)

Reach-first_done : Reach two (begin (pos 1) (initial two)) first_done
unfolding first_done
Reach-first_done =
    next {d = placed}
      (next {d = started} (next {e = started} here (main_scan refl refl))
        (place [] [] "a" refl (omega arith) refl))
      (finish_first [] [] "a" (record { retryable = false; error = none }) refl refl refl)

Reach-second_started : Reach two (begin (pos 1) (initial two)) second_started
unfolding second_started
Reach-second_started = next {d = first_done} Reach-first_done (main_scan refl refl)

Reach-over : Reach two (begin (pos 1) (initial two)) over
unfolding over
Reach-over =
    next {d = second_failed}
      (next {d = second_placed}
        (next {d = second_started} Reach-second_started (place [] [] "b" refl (omega arith) refl))
        (finish_first [] [] "b" (record { retryable = false; error = some "no answer" }) refl refl
          refl))
      (main_scan refl refl)

two-IsDistinct : IsDistinct (idents two)
two-IsDistinct = (refl, (refl, tt))

starts_two : start none two [] ≡ ok (initial two)
unfolding start
starts_two = refl

over_states :
    (over.machine.states "a" ≡ state_of "a" done no_error)
    × (over.machine.states "b" ≡ state_of "b" failed (message "no answer"))
    × (over.pc ≡ finished)
unfolding over
over_states = (refl, refl, refl)

started-deps_done_example : All (λ x. has is_done second_started.machine.states x ≡ true) ("a" ∷ [])
unfolding second_started
started-deps_done_example =
    started-deps_done none two [] (pos 1) (initial two) second_started starts_two two-IsDistinct
      Reach-second_started (track "b" ("a" ∷ [])) (Memᴰ.tail (Memᴰ.head refl)) refl refl

counters_lem_example :
    (second_started.machine.completed_count
        + count (has is_open second_started.machine.states) (idents two)
      ≡ 2)
    × (second_started.machine.running_count ≡ length second_started.workers)
    × ((id : String)
        → live second_started.workers id ≡ bit (has is_running second_started.machine.states id))
counters_lem_example =
    counters_lem none two [] (pos 1) (initial two) second_started starts_two two-IsDistinct
      Reach-second_started

finished-result_example :
    (length over.workers ≡ 0)
    × ((sts : List TrackState) × (result two (λ _. none) over ≡ some (ok sts))
        × ((length sts ≡ 2) × All (λ st. is_open st.status ≡ false) sts))
finished-result_example =
    finished-result none two [] (pos 1) (initial two) over starts_two two-IsDistinct Reach-over
      (λ _. none) over_states.2 refl

abbrev twins : List Track
twins = track "a" [] ∷ track "a" [] ∷ []

twins_started :
    Reach twins (begin (pos 1) (initial twins)) (scan twins (begin (pos 1) (initial twins)))
twins_started =
    next {d = begin (pos 1) (initial twins)} here (main_scan (unfold begin in refl) refl)

duplicate_never_finishes_example : (scan twins (begin (pos 1) (initial twins))).pc ≢ finished
duplicate_never_finishes_example =
    duplicate_never_finishes (pos 1) [] (track "a" [] ∷ []) (track "a" [])
      (scan twins (begin (pos 1) (initial twins))) refl twins_started

ready_track_blocked_example :
    (c : Config) × Reach
      (pair (pos 1) (track "a" []) (track "b" []) refl)
      (begin (pos 1) (initial (pair (pos 1) (track "a" []) (track "b" []) refl)))
      c
    × (c.pc ≡ finished)
    × (c.machine.states "a" ≡ state_of "a" done no_error)
    × (c.machine.states "b" ≡ state_of "b" blocked (unsatisfied_dependencies ("a" ∷ [])))
ready_track_blocked_example = ready_track_blocked (pos 1) (track "a" []) (track "b" []) refl

none_bad : (j : String) → has is_bad started.machine.states j ≡ false
unfolding started
none_bad j = ground arith

settle-Closed_example :
    Closed
      (build two).adj
      (λ _. false)
      (settle (build two).adj 2 "a" (some "no answer") started.machine)
settle-Closed_example =
    settle-Closed none two [] (pos 1) (initial two) started starts_two two-IsDistinct Reach-started
      [] [] (record { id = "a"; phase = acquiring }) (some "no answer") (unfold started in refl)
      (λ j d out bad mem. absurd (cc (none_bad j)))

-- What the cascade leaves: the second track is blocked by the failure of the first.
cascades :
    (settle (build two).adj 2 "a" (some "no answer") started.machine).states "b"
    ≡ state_of "b" blocked (dependency_failed "a")
unfolding started
cascades = refl
