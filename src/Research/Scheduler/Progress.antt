-- ===== src/Research/Scheduler/Progress.antt =====
-- internal/skill/research/scheduler.go: the main loop ends, if no two tracks share an ID, and never
-- ends if two do.
use mathlib.Core.Path.{fun_ext}
use virmux.Prelude.{
  ltb, ◌==◌, if◌then◌else◌, ==_iff, Bool-cases, length, length-map, ℤ, IsDistinct, count,
  distinct_self, ℕ, ◌+◌, ◌*◌, ◌≤◌, ◌<◌, String, ◌≡◌, refl, sym, ap, ◌∙◌, ◌≢◌, inl, inr, Bool, false,
  Option, none, some, List, [], ◌∷◌, ◌++◌, arith, is_nil, if_ind, ltb→lt,
}
use virmux.Research.Plan.{Track}
use virmux.Research.Scheduler.{
  Machine, Event, track_started, track_retry, settle, settle_unacquired, has, collect_ready,
}
use virmux.Research.Scheduler.Build.{build}
use virmux.Research.Scheduler.Run.{
  Pc, scanning, idle, waiting, finished, Phase, acquiring, mapping, retrying, Worker, Config,
  broadcast, launch, is_retryable, scan, idle_section, finish, Step, main_scan, main_idle, no_place,
  place, retry, finish_first, finish_second, move_worker, end_worker,
}
use virmux.Research.Scheduler.Core.{idents, keys, is_open}
use virmux.Research.Scheduler.Loops.{
  pending_count, pending_count-collect_ready, pending_count-block_pending,
}
use mathlib.Core.List.{append_assoc}
use virmux.Research.Scheduler.Semaphore.{IsHeld, places, holders, some_holder}
use virmux.Research.Scheduler.Invariant.{
  Inv, AtPc, live, WorkerSettled, settle-Settled, unacquired-Settled,
}

abbrev phase_weight : Phase → ℕ
phase_weight acquiring = 9
phase_weight mapping = 6
phase_weight retrying = 3

abbrev pc_weight : Pc → ℕ
pc_weight scanning = 2
pc_weight idle = 1
pc_weight waiting = 0
pc_weight finished = 0

abbrev weight : List Worker → ℕ
weight [] = 0
weight (w ∷ ws) = phase_weight w.phase + weight ws

-- A bound on the steps that are left.
abbrev pub steps_left : List Track → Config → ℕ
steps_left ts c = 10 * pending_count ts c.machine + weight c.workers + pc_weight c.pc

weight-append : (xs ys : List Worker) → weight (xs ++ ys) ≡ weight xs + weight ys
weight-append [] ys = omega arith
weight-append (w ∷ ws) ys = omega (arith, weight-append ws ys)

weight-launch : (ids : List String) → weight (launch ids) ≡ 9 * length ids
weight-launch [] = refl
weight-launch (i ∷ ids) = omega (arith, weight-launch ids)

broadcast_weight : (p : Pc) → pc_weight (broadcast p) ≤ pc_weight p + 2
broadcast_weight p = ground arith

weight_pos : (p : Phase) → 3 ≤ phase_weight p
weight_pos p = ground arith

live-no_workers : (ws : List Worker) (id : String) → length ws ≡ 0 → live ws id ≡ 0
live-no_workers [] id h = refl
live-no_workers (w ∷ ws) id h = absurd (omega arith)

module _ (ts : List Track) (preset : String → Bool) (c : Config) (inv : Inv ts preset c)
    (distinct_ids : IsDistinct (idents ts)) where
  scan_decreases : c.pc ≡ scanning → steps_left ts (scan ts c) < steps_left ts c
  unfolding scan
  scan_decreases p =
      if_ind (λ d. steps_left ts d < steps_left ts c) (c.machine.completed_count == length ts)
        (λ h. omega (arith, ap pc_weight p)) (λ h. scanned (collect_ready ts c.machine).0 refl)
    where
      scanned :
          (ready : List String)
          → (collect_ready ts c.machine).0 ≡ ready
          → 10 * pending_count ts (collect_ready ts c.machine).1
              + weight (c.workers ++ launch (collect_ready ts c.machine).0)
              + pc_weight (if is_nil (collect_ready ts c.machine).0 then idle else scanning)
            < steps_left ts c
      scanned ready e = ground (
        arith,
        e,
        ap pc_weight p,
        weight-append c.workers (launch ready),
        weight-launch ready,
        pending_count-collect_ready ts preset ts c.machine (live c.workers) inv.core,
      )

  open_is_pending :
      c.machine.running_count ≡ 0
      → count (has is_open c.machine.states) (keys ts) ≡ pending_count ts c.machine
  open_is_pending h =
      ap (λ (f : String → Bool). count f (keys ts))
        (fun_ext λ id.
          ground (arith, inv.core.backed id, live-no_workers c.workers id (sym inv.counted ∙ h)))

  idle_decreases : c.pc ≡ idle → steps_left ts (idle_section ts c) < steps_left ts c
  unfolding idle_section
  idle_decreases p =
      if_ind (λ d. steps_left ts d < steps_left ts c) (ltb c.machine.completed_count (length ts))
        (λ left_over.
          if_ind (λ d. steps_left ts d < steps_left ts c) (c.machine.running_count == 0)
            (λ none_runs. omega (
              arith,
              ap pc_weight p,
              pending_count-block_pending ts c.machine,
              open_is_pending ((==_iff c.machine.running_count 0).0 none_runs),
              inv.core.counted,
              ltb→lt _ _ left_over,
              ap (length {0}) (distinct_self (idents ts) distinct_ids),
              length-map {A = Track} {B = String} (λ t. t.id) ts,
            ))
            (λ some_run. omega (arith, ap pc_weight p)))
        (λ h. omega (arith, ap pc_weight p))

  module _ (before after : List Worker) (w : Worker) (split : c.workers ≡ before ++ w ∷ after) where
    weight-split : weight c.workers ≡ phase_weight w.phase + weight (before ++ after)
    weight-split =
        omega (arith, ap weight split, weight-append before (w ∷ after), weight-append before after)

    move_decreases :
        (phase : Phase) (e : Event)
        → phase_weight phase < phase_weight w.phase
        → steps_left ts (move_worker c before after (record { id = w.id; phase = phase }) e)
          < steps_left ts c
    move_decreases phase e h = omega (
      arith,
      weight-split,
      weight-append before after,
      weight-append before (record { id = w.id; phase = phase } ∷ after),
    )

    end_decreases :
        (m : Machine) (result : Option String)
        → WorkerSettled ts preset c inv before after w split m
        → steps_left ts (end_worker c before after m result) < steps_left ts c
    end_decreases m result settled =
        omega (arith, settled.1, weight-split, broadcast_weight c.pc, weight_pos w.phase)

    unacquired_decreases :
        (e : String)
        → steps_left ts (end_worker c before after (settle_unacquired w.id e c.machine) (some e))
          < steps_left ts c
    unacquired_decreases e =
        end_decreases (settle_unacquired w.id e c.machine) (some e)
          (unacquired-Settled ts preset c inv before after w split e)

    finish_decreases :
        (error : Option String)
        → steps_left ts (finish ts c before after w.id error) < steps_left ts c
    unfolding finish
    finish_decreases error =
        end_decreases (settle (build ts).adj (length ts) w.id error c.machine) none
          (settle-Settled ts preset c inv before after w split error)

  pub Step-steps_left : (d : Config) → Step ts c d → steps_left ts d < steps_left ts c
  Step-steps_left d (main_scan p e) = rw e (scan_decreases p)
  Step-steps_left d (main_idle p e) = rw e (idle_decreases p)
  Step-steps_left d (no_place before after id msg split e) =
      rw e (unacquired_decreases before after _ split msg)
  Step-steps_left d (place before after id split some_free e) =
      rw e (move_decreases before after _ split mapping (track_started id) (omega arith))
  Step-steps_left d (retry before after id a split r e) =
      rw e (move_decreases before after _ split retrying (track_retry id a.error) (omega arith))
  Step-steps_left d (finish_first before after id a split r e) =
      rw e (finish_decreases before after _ split a.error)
  Step-steps_left d (finish_second before after id a split e) =
      rw e (finish_decreases before after _ split a.error)

  -- An idle loop can go on, and behind the loop alone nothing moves.
  pub can-Step : (limit : ℤ) → IsHeld limit c → c.pc ≢ finished → (d : Config) × Step ts c d
  can-Step limit held running_on = at_pc c.pc refl inv.at_pc
    where
      -- A worker that has a place can end.
      holder :
          (before ws : List Worker)
          → c.workers ≡ before ++ ws
          → 0 < holders ws
          → (d : Config) × Step ts c d
      holder before [] e h = absurd (omega (arith, h))
      holder before (w ∷ ws) e h =
          in_phase w.phase refl h
            (holder (before ++ w ∷ []) ws (e ∙ sym (append_assoc before (w ∷ []) ws)))
        where
          as_phase : Phase → List Worker
          as_phase p = before ++ record { id = w.id; phase = p } ∷ ws

          in_phase :
              (p : Phase)
              → w.phase ≡ p
              → 0 < places w.phase + holders ws
              → (0 < holders ws → (d : Config) × Step ts c d)
              → (d : Config) × Step ts c d
          in_phase acquiring q h later = later (omega (arith, h, ap places q))
          in_phase mapping q h later = (
            _,
            finish_first before ws w.id (record { retryable = false; error = none })
                (e ∙ ap as_phase q) (unfold is_retryable in refl) refl,
          )
          in_phase retrying q h later = (
            _,
            finish_second before ws w.id (record { retryable = false; error = none })
                (e ∙ ap as_phase q) refl,
          )

      first_worker :
          (ws : List Worker) → c.workers ≡ ws → 0 < length ws → (d : Config) × Step ts c d
      first_worker [] e h = elim h [ ]
      first_worker (w ∷ ws) e h = elim (Bool-cases (ltb 0 c.free)) [
        | inl some_free ↦ in_phase w.phase refl (ltb→lt 0 c.free some_free)
        | inr none_free ↦ holder [] c.workers refl (some_holder limit c held none_free)
      ]
        where
          as_phase : Phase → List Worker
          as_phase p = record { id = w.id; phase = p } ∷ ws

          in_phase : (p : Phase) → w.phase ≡ p → 0 < c.free → (d : Config) × Step ts c d
          in_phase acquiring q some_free = (_, place [] ws w.id (e ∙ ap as_phase q) some_free refl)
          in_phase mapping q some_free = (
            _,
            finish_first [] ws w.id (record { retryable = false; error = none }) (e ∙ ap as_phase q)
                (unfold is_retryable in refl) refl,
          )
          in_phase retrying q some_free = (
            _,
            finish_second [] ws w.id (record { retryable = false; error = none })
                (e ∙ ap as_phase q) refl,
          )

      at_pc : (p : Pc) → c.pc ≡ p → AtPc ts c p → (d : Config) × Step ts c d
      at_pc scanning e h = (_, main_scan e refl)
      at_pc idle e h = (_, main_idle e refl)
      at_pc waiting e h = first_worker c.workers refl h
      at_pc finished e h = absurd (running_on e)
