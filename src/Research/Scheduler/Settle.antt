-- ===== src/Research/Scheduler/Settle.antt =====
-- internal/skill/research/scheduler.go: the end of a worker keeps the invariant, and makes no track
-- pending.
use virmux.Prelude.{
  bit, ℕ, ◌+◌, ◌-◌, ◌≤◌, String, ◌≡◌, refl, ap, Bool, true, false, Option, none, some, List, arith,
  str_eq,
}
use virmux.Research.Plan.{Track}
use virmux.Research.Scheduler.{
  TrackStatus, Reason, done, failed, no_error, message, track_failed, Machine, is_pending,
  is_running, has, set_state, emit, cascade, block_dependent, settle_done, settle,
  settle_unacquired,
}
use virmux.Research.Scheduler.Build.{build}
use virmux.Research.Scheduler.Initial.{adj-build}
use virmux.Research.Scheduler.Core.{is_bad, has-update_self}
use virmux.Research.Scheduler.Moves.{present_of_has, Core-fail, Core-finish, count-update}
use virmux.Research.Scheduler.Loops.{CoreOf, pending_count}
use virmux.Research.Scheduler.Cascade.{cascade_inv, cascade-Core}

running_count-cascade :
    (adj : String → List String) (fuel : ℕ) (id : String) (m : Machine)
    → has is_bad m.states id ≡ true
    → (cascade adj fuel id m).running_count ≡ m.running_count
running_count-cascade adj fuel id m bad =
    (cascade_inv adj (λ m'. m'.running_count ≡ m.running_count)
      (λ i d m' b h e. unfold block_dependent in e) fuel id m bad refl).0

module _ (ts : List Track) (preset : String → Bool) (live live' : String → ℕ) (x : String)
    (m : Machine) (core : CoreOf ts preset m live) (runs : has is_running m.states x ≡ true)
    (leaves : (id : String) → live' id + bit (str_eq x id) ≡ live id) where
  -- A running track is not pending, whatever it becomes.
  pending_update :
      (s : TrackStatus) (e : Reason)
      → is_pending s ≡ false
      → pending_count ts (set_state x s e m) ≡ pending_count ts m
  pending_update s e h =
      let not_pending : has is_pending m.states x ≡ false = ground arith in
      omega (
        arith,
        ap bit h,
        ap bit not_pending,
        count-update ts preset m.states m.in_degree m.completed_count live x e core s
            (present_of_has is_running m.states x runs) is_pending,
      )

  abbrev pub Settled : Machine → Type 0
  Settled m' =
      CoreOf ts preset m' live'
      × (pending_count ts m' ≤ pending_count ts m)
      × (m'.running_count ≡ m.running_count - 1)

  pub settle-Core :
      (fuel : ℕ) (error : Option String) → Settled (settle (build ts).adj fuel x error m)
  unfolding settle settle_done
  settle-Core fuel none = (
    rw (adj-build x ts) (
        Core-finish ts preset m.states m.in_degree m.completed_count live x no_error core runs live'
          leaves),
    omega (arith, pending_update done no_error refl),
    refl,
  )
  settle-Core fuel (some e) =
      let m' : Machine = emit (track_failed x e) (set_state x failed (message e) m) in
      let bad = has-update_self is_bad m.states x failed (message e) in
      let (core', le) = cascade-Core ts preset live' (build ts).adj 1 fuel x m' bad (
        Core-fail ts preset m.states m.in_degree m.completed_count live x (message e) core runs
          live' leaves) in
      (
        core',
        omega (arith, le, pending_update failed (message e) refl),
        ap (λ (k : ℕ). k - 1) (running_count-cascade (build ts).adj fuel x m' bad),
      )

  pub settle_unacquired-Core : (e : String) → Settled (settle_unacquired x e m)
  unfolding settle_unacquired
  settle_unacquired-Core e = rw runs (
    Core-fail ts preset m.states m.in_degree m.completed_count live x (message e) core runs live'
        leaves,
    omega (arith, pending_update failed (message e) refl),
    refl,
  )
