-- ===== src/Research/Scheduler/Invariant.antt =====
-- internal/skill/research/scheduler.go: the invariant of the main loop and its workers, in every
-- interleaving.
use virmux.Prelude.{
  ltb, ◌==◌, if◌then◌else◌, bit, length, length-append, length-map, ℤ, count, length-distinct-le, ℕ,
  suc, ◌+◌, ◌≤◌, ◌<◌, String, ◌≡◌, refl, sym, ap, ◌∙◌, Bool, true, false, Option, List, [], ◌∷◌,
  ◌++◌, map, arith, str_eq, eq_refl, is_nil, count_none, if_ind,
}
use virmux.Research.Plan.{Track}
use virmux.Research.Scheduler.{
  Machine, Event, is_running, has, collect_ready, block_unsatisfied, block_pending, settle,
  settle_unacquired,
}
use virmux.Research.Scheduler.Build.{build, initial}
use virmux.Research.Scheduler.Run.{
  Pc, scanning, idle, waiting, finished, Phase, acquiring, mapping, retrying, Worker, Config,
  broadcast, launch, move_worker, end_worker, begin, scan, idle_section, finish, Step, main_scan,
  main_idle, no_place, place, retry, finish_first, finish_second, Reach, here, next,
}
use virmux.Research.Scheduler.Core.{occurrences, keys, idents, is_open, is_present}
use virmux.Research.Scheduler.Initial.{Core-initial}
use virmux.Research.Scheduler.Loops.{
  CoreOf, Core-live, block_pending-Core, collect_ready-Core, collect_ready_counters,
}
use virmux.Research.Scheduler.Moves.{present_of_has}
use virmux.Research.Scheduler.Settle.{Settled, settle-Core, settle_unacquired-Core}

-- How many workers run for a track.
abbrev pub live : List Worker → String → ℕ
live ws id = occurrences id (map (λ w. w.id) ws)

live-append : (xs ys : List Worker) (id : String) → live (xs ++ ys) id ≡ live xs id + live ys id
live-append [] ys id = omega arith
live-append (w ∷ ws) ys id = omega (arith, live-append ws ys id)

live-launch : (ids : List String) (id : String) → live (launch ids) id ≡ occurrences id ids
live-launch [] id = refl
live-launch (i ∷ ids) id = omega (arith, live-launch ids id)

-- What the main loop may rely on where it stands.
abbrev pub AtPc : List Track → Config → Pc → Type 0
AtPc ts c scanning = Unit
AtPc ts c idle = Unit
AtPc ts c waiting = 0 < length c.workers
AtPc ts c finished = length ts ≤ c.machine.completed_count

running_count-block_pending :
    (rest : List Track) (m : Machine) → (block_pending rest m).running_count ≡ m.running_count
unfolding block_pending block_unsatisfied
running_count-block_pending [] m = refl
running_count-block_pending (t ∷ rest) m =
    ground (arith, running_count-block_pending rest (block_unsatisfied t m))

module _ (ts : List Track) (preset : String → Bool) where
  pub record Inv (c : Config) : Type 0 where
    pub core : CoreOf ts preset c.machine (live c.workers)
    pub counted : c.machine.running_count ≡ length c.workers
    pub at_pc : AtPc ts c c.pc

  pub begin-Inv :
      (limit : ℤ) (m : Machine)
      → CoreOf ts preset m (λ _. 0)
      → m.running_count ≡ 0
      → Inv (begin limit m)
  unfolding begin
  begin-Inv limit m core h = record { core = core; counted = h; at_pc = tt }

  module _ (c : Config) (inv : Inv c) where
    scan-Inv : Inv (scan ts c)
    unfolding scan
    scan-Inv =
        if_ind Inv (c.machine.completed_count == length ts)
          (λ h. record { core = inv.core; counted = inv.counted; at_pc = ground arith })
          (λ h. scanned (is_nil (collect_ready ts c.machine).0))
      where
        m : Machine
        m = (collect_ready ts c.machine).1

        ready : List String
        ready = (collect_ready ts c.machine).0

        scanned :
            (none_ready : Bool)
            → Inv (record c {
              machine = record m { running_count = m.running_count + length ready };
              pc = if none_ready then idle else scanning;
              workers = c.workers ++ launch ready;
            })
        scanned none_ready = record {
          core =
              Core-live ts preset
                (λ id.
                  live-append c.workers (launch ready) id
                  ∙ ap (λ k. live c.workers id + k) (live-launch ready id))
                (collect_ready-Core ts preset ts c.machine (live c.workers) inv.core);
          counted = omega (
            arith,
            inv.counted,
            length-append {0} c.workers (launch ready),
            length-map {A = String} {B = Worker} (λ i. record { id = i; phase = acquiring }) ready,
            (collect_ready_counters ts c.machine).1,
          );
          at_pc =
              if_ind
                (AtPc ts (record c {
                  machine = record m { running_count = m.running_count + length ready };
                  pc = if none_ready then idle else scanning;
                  workers = c.workers ++ launch ready;
                }))
                none_ready (λ h. tt) (λ h. tt);
        }

    idle_section-Inv : Inv (idle_section ts c)
    unfolding idle_section
    idle_section-Inv =
        if_ind Inv (ltb c.machine.completed_count (length ts))
          (λ h.
            if_ind Inv (c.machine.running_count == 0)
              (λ none_runs. record {
                core = block_pending-Core ts preset (live c.workers) ts c.machine inv.core;
                counted = running_count-block_pending ts c.machine ∙ inv.counted;
                at_pc = tt;
              })
              (λ some_run. record {
                core = inv.core;
                counted = inv.counted;
                at_pc = ground (arith, inv.counted);
              }))
          (λ h. record { core = inv.core; counted = inv.counted; at_pc = ground arith })

    module _ (before after : List Worker) (w : Worker)
        (split : c.workers ≡ before ++ w ∷ after) where
      pub leaves_of_worker :
          (id : String) → live (before ++ after) id + bit (str_eq w.id id) ≡ live c.workers id
      leaves_of_worker id = omega (
        arith,
        ap (λ ws. live ws id) split,
        live-append before (w ∷ after) id,
        live-append before after id,
      )

      pub runs_of_worker : has is_running c.machine.states w.id ≡ true
      runs_of_worker = ground (arith, inv.core.backed w.id, leaves_of_worker w.id, eq_refl w.id)

      length-split : length c.workers ≡ suc (length (before ++ after))
      length-split = omega (
        arith,
        ap (length {0}) split,
        length-append {0} before (w ∷ after),
        length-append {0} before after,
      )

      -- A worker that only goes on to its next phase.
      move_worker-Inv :
          (phase : Phase) (e : Event)
          → Inv (move_worker c before after (record { id = w.id; phase = phase }) e)
      move_worker-Inv phase e = record {
        core =
            Core-live ts preset
              (λ id. omega (
                arith,
                ap (λ ws. live ws id) split,
                live-append before (w ∷ after) id,
                live-append before (record { id = w.id; phase = phase } ∷ after) id,
              ))
              inv.core;
        counted = omega (
          arith,
          inv.counted,
          length-split,
          length-append {0} before after,
          length-append {0} before (record { id = w.id; phase = phase } ∷ after),
        );
        at_pc = moved c.pc inv.at_pc;
      }
        where
          moved :
              (pc : Pc)
              → AtPc ts c pc
              → AtPc ts (move_worker c before after (record { id = w.id; phase = phase }) e) pc
          moved scanning h = tt
          moved idle h = tt
          moved waiting h =
              omega (arith, length-append {0} before (record { id = w.id; phase = phase } ∷ after))
          moved finished h = h

      -- Behind the loop no worker is left: an open track has not been counted.
      pub not_finished : length ts ≤ c.machine.completed_count → ⊥
      not_finished all =
          let states = c.machine.states in
          let present : has is_present states w.id ≡ true =
            let runs = runs_of_worker in present_of_has is_running states w.id runs in
          let none_open : count (has is_open states) (keys ts) ≡ 0 =
            omega (
              arith,
              inv.core.counted,
              length-distinct-le (idents ts),
              length-map (λ t. t.id) ts,
            ) in
          let closed : has is_open states w.id ≡ false =
            count_none (has is_open states) w.id (keys ts) none_open
              (sym (inv.core.known w.id) ∙ present) in
          ground (arith, closed, runs_of_worker)

      -- What the end of the worker `w` does to the machine.
      abbrev pub WorkerSettled : Machine → Type 0
      WorkerSettled =
          Settled ts preset (live c.workers) (live (before ++ after)) w.id c.machine inv.core
            runs_of_worker leaves_of_worker

      pub settle-Settled :
          (error : Option String)
          → WorkerSettled (settle (build ts).adj (length ts) w.id error c.machine)
      settle-Settled error =
          settle-Core ts preset (live c.workers) (live (before ++ after)) w.id c.machine inv.core
            runs_of_worker leaves_of_worker (length ts) error

      pub unacquired-Settled : (e : String) → WorkerSettled (settle_unacquired w.id e c.machine)
      unacquired-Settled e =
          settle_unacquired-Core ts preset (live c.workers) (live (before ++ after)) w.id c.machine
            inv.core runs_of_worker leaves_of_worker e

      end_worker-Inv :
          (m : Machine) (result : Option String)
          → WorkerSettled m
          → Inv (end_worker c before after m result)
      end_worker-Inv m result (core, less, counts) = record {
        core = core;
        counted = omega (arith, counts, inv.counted, length-split);
        at_pc = woken c.pc inv.at_pc;
      }
        where
          woken :
              (pc : Pc) → AtPc ts c pc → AtPc ts (end_worker c before after m result) (broadcast pc)
          woken scanning h = tt
          woken idle h = tt
          woken waiting h = tt
          woken finished h = absurd (not_finished h)

  -- The semaphore is in no part of the invariant.
  free-Inv : (c : Config) (n : ℕ) → Inv c → Inv (record c { free = n })
  free-Inv c n inv = record {
    core = inv.core;
    counted = inv.counted;
    at_pc = as_before c.pc inv.at_pc;
  }
    where
      as_before : (pc : Pc) → AtPc ts c pc → AtPc ts (record c { free = n }) pc
      as_before scanning h = tt
      as_before idle h = tt
      as_before waiting h = h
      as_before finished h = h

  -- Every step of the main loop and of the workers keeps the invariant.
  pub Step-Inv : (c d : Config) → Inv c → Step ts c d → Inv d
  unfolding finish
  Step-Inv c d inv (main_scan p e) = rw e (scan-Inv c inv)
  Step-Inv c d inv (main_idle p e) = rw e (idle_section-Inv c inv)
  Step-Inv c d inv (no_place before after id msg split e) = rw e (
      end_worker-Inv c inv before after _ split _ _
        (unacquired-Settled c inv before after _ split msg))
  Step-Inv c d inv (place before after id split some_free e) =
      rw e (free-Inv _ _ (move_worker-Inv c inv before after _ split mapping _))
  Step-Inv c d inv (retry before after id a split r e) =
      rw e (move_worker-Inv c inv before after _ split retrying _)
  Step-Inv c d inv (finish_first before after id a split r e) = rw e (
      free-Inv _ _ (
        end_worker-Inv c inv before after _ split _ _
          (settle-Settled c inv before after _ split a.error)))
  Step-Inv c d inv (finish_second before after id a split e) = rw e (
      free-Inv _ _ (
        end_worker-Inv c inv before after _ split _ _
          (settle-Settled c inv before after _ split a.error)))

  pub Reach-Inv : (c d : Config) → Inv c → Reach ts c d → Inv d
  Reach-Inv c d inv here = inv
  Reach-Inv c d inv (next {d = b} r st) = Step-Inv b d (Reach-Inv c b inv r) st

-- For a full run of any plan, from the maps that the first loop fills.
pub Reach-Inv_full :
    (limit : ℤ) (ts : List Track) (d : Config)
    → Reach ts (begin limit (initial ts)) d
    → Inv ts (λ _. false) d
unfolding initial
Reach-Inv_full limit ts d r =
    Reach-Inv ts (λ _. false) _ d
      (begin-Inv ts (λ _. false) limit (initial ts) (Core-initial ts (λ _. false)) refl) r
