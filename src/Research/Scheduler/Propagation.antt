-- ===== src/Research/Scheduler/Propagation.antt =====
-- internal/skill/research/scheduler.go: a failure reaches every track that depends on it.
use virmux.Prelude.{
  Result, ok, length, length-map, ℤ, IsDistinct, length-distinct-le, count-le-length, String, ◌≡◌,
  refl, Bool, true, false, Option, none, some, List, ◌∷◌, ◌++◌, arith,
}
use virmux.Research.Plan.{Track}
use virmux.Research.Scheduler.{
  Machine, done, failed, no_error, message, track_failed, set_state, emit, is_pending, is_running,
  has, settle, settle_failed, settle_done, cascade,
}
use virmux.Research.Scheduler.Build.{build, start}
use virmux.Research.Scheduler.Run.{Config, Worker, Reach, begin}
use virmux.Research.Scheduler.Core.{idents, keys, is_bad, has-update, has-update_self}
use virmux.Research.Scheduler.Moves.{Core-fail}
use virmux.Research.Scheduler.Closure.{Closed, Closes, with_key, cascade_closes}
use virmux.Research.Scheduler.Invariant.{Inv, live, runs_of_worker, leaves_of_worker}
use virmux.Research.Scheduler.Rerun.{is_preset, Reach-Inv_start}

module _ (adj : String → List String) (m : Machine) (x : String)
    (runs : has is_running m.states x ≡ true) (closed : Closed adj (λ _. false) m) where
  Closed-done : Closed adj (λ _. false) (settle_done adj x m)
  unfolding settle_done
  Closed-done j d out bad mem = ground (
    arith,
    has-update is_bad m.states x done no_error j,
    has-update is_pending m.states x done no_error d,
    closed j d refl,
  )

  Closed-failed :
      (e : String) → Closed adj (with_key (λ _. false) x) (set_state x failed (message e) m)
  Closed-failed e j d out bad mem = ground (
    arith,
    has-update is_bad m.states x failed (message e) j,
    has-update is_pending m.states x failed (message e) d,
    closed j d refl,
  )

module _ (artifacts : Option (String → Result String Bool)) (ts : List Track) (only : List String)
    (limit : ℤ) (m : Machine) (c : Config) (starts : start artifacts ts only ≡ ok m)
    (distinct_ids : IsDistinct (idents ts)) (reached : Reach ts (begin limit m) c) where
  -- In a plan with no ID twice, let no pending track depend on a failed or blocked one. After a
  -- worker's last attempt, whatever it answered, this is so again: the cascade has blocked all that
  -- depend on the failed track, directly or not, within the fuel that it is given.
  pub settle-Closed :
      (before after : List Worker) (w : Worker) (error : Option String)
      → c.workers ≡ before ++ w ∷ after
      → Closed (build ts).adj (λ _. false) c.machine
      → Closed (build ts).adj (λ _. false) (settle (build ts).adj (length ts) w.id error c.machine)
  unfolding settle settle_failed
  settle-Closed before after w none split closed =
      Closed-done (build ts).adj c.machine w.id
        (runs_of_worker ts (is_preset only) c inv before after w split) closed
    where
      inv : Inv ts (is_preset only) c
      inv = Reach-Inv_start artifacts ts only limit m c starts distinct_ids reached
  settle-Closed before after w (some e) split closed = closes.closed
    where
      inv : Inv ts (is_preset only) c
      inv = Reach-Inv_start artifacts ts only limit m c starts distinct_ids reached

      runs : has is_running c.machine.states w.id ≡ true
      runs = runs_of_worker ts (is_preset only) c inv before after w split

      marked : Machine
      marked = emit (track_failed w.id e) (set_state w.id failed (message e) c.machine)

      closes :
          Closes
            (build ts).adj
            ts
            (is_preset only)
            (live (before ++ after))
            1
            (λ _. false)
            marked
            (cascade (build ts).adj (length ts) w.id marked)
      closes =
          cascade_closes (build ts).adj ts (is_preset only) (live (before ++ after)) 1 (length ts)
            (λ _. false) w.id marked
            (has-update_self is_bad c.machine.states w.id failed (message e))
            (Core-fail ts (is_preset only) c.machine.states c.machine.in_degree
              c.machine.completed_count (live c.workers) w.id (message e) inv.core runs
              (live (before ++ after))
              (leaves_of_worker ts (is_preset only) c inv before after w split))
            (omega (
              arith,
              count-le-length (has is_pending marked.states) (keys ts),
              length-distinct-le (idents ts),
              length-map {A = Track} {B = String} (λ t. t.id) ts,
            ))
            (Closed-failed (build ts).adj c.machine w.id runs closed e)
