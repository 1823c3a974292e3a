-- ===== src/Research/Scheduler/Loops.antt =====
-- internal/skill/research/scheduler.go: the loops of the critical sections keep the invariant, and
-- what each does to the count of pending tracks.
use virmux.Prelude.{
  bit, Bool-cases, length, ℤ, elem, count, elem-distinct, ℕ, ◌+◌, String, ◌≡◌, refl, ap, ◌∙◌, subst,
  inl, inr, Bool, true, false, not, ◌&&◌, List, [], ◌∷◌, arith, str_eq, eq_iff, count_zero,
}
use virmux.Research.Plan.{Track}
use virmux.Research.Scheduler.{
  running, blocked, unsatisfied_dependencies, no_error, States, Machine, is_pending, has, is_ready,
  start_ready, collect_ready, block_unsatisfied, block_pending,
}
use virmux.Research.Scheduler.Core.{idents, keys, Core, occurrences, has-update}
use virmux.Research.Scheduler.Moves.{present_of_has, Core-block, Core-start, count-update}

abbrev pub CoreOf : List Track → (String → Bool) → Machine → (String → ℕ) → Type 0
CoreOf ts preset m live = Core ts preset m.states m.in_degree m.completed_count live

abbrev pub pending_count : List Track → Machine → ℕ
pending_count ts m = count (has is_pending m.states) (keys ts)

module _ (ts : List Track) (preset : String → Bool) (live : String → ℕ) where
  block_unsatisfied-Core :
      (t : Track) (m : Machine)
      → CoreOf ts preset m live
      → CoreOf ts preset (block_unsatisfied t m) live
  unfolding block_unsatisfied
  block_unsatisfied-Core t m core = elim (Bool-cases (has is_pending m.states t.id)) [
    | inl h ↦ rw h (
        Core-block ts preset m.states m.in_degree m.completed_count live t.id
          (unsatisfied_dependencies t.deps) core h)
    | inr h ↦ rw h core
  ]

  pub block_pending-Core :
      (rest : List Track) (m : Machine)
      → CoreOf ts preset m live
      → CoreOf ts preset (block_pending rest m) live
  unfolding block_pending
  block_pending-Core [] m core = core
  block_pending-Core (t ∷ rest) m core =
      block_pending-Core rest (block_unsatisfied t m) (block_unsatisfied-Core t m core)

module _ (ts : List Track) (preset : String → Bool) where
  pub Core-live :
      {states : States} {deg : String → ℤ} {n : ℕ} {live live' : String → ℕ}
      → ((id : String) → live' id ≡ live id)
      → Core ts preset states deg n live
      → Core ts preset states deg n live'
  Core-live h core = record {
    counted = core.counted;
    degrees = core.degrees;
    known = core.known;
    backed = λ id. h id ∙ core.backed id;
    ready = core.ready;
  }

  module _ (t : Track) (m : Machine) (live : String → ℕ) (core : CoreOf ts preset m live) where
    start_ready-Core :
        CoreOf ts preset (start_ready t m) (λ id. live id + bit (str_eq t.id id && is_ready m t))
    unfolding start_ready
    start_ready-Core = elim (Bool-cases (is_ready m t)) [
      | inl h ↦ rw h (
          Core-start ts preset m.states m.in_degree m.completed_count live t.id no_error core
            (unfold is_ready in ground arith) (unfold is_ready in ground arith) _
            (λ id. ground (arith, h)))
      | inr h ↦ rw h (Core-live (λ id. ground (arith, h)) core)
    ]

    pending_count-start_ready :
        pending_count ts (start_ready t m) + bit (is_ready m t) ≡ pending_count ts m
    unfolding start_ready
    pending_count-start_ready = elim (Bool-cases (is_ready m t)) [
      | inl h ↦
          let waits : has is_pending m.states t.id ≡ true = unfold is_ready in ground arith in
          rw h (
            omega (
              arith,
              count-update ts preset m.states m.in_degree m.completed_count live t.id no_error core
                  running (present_of_has is_pending m.states t.id waits) is_pending,
              ap bit waits,
            ))
      | inr h ↦ rw h (omega arith)
    ]

  pub collect_ready-Core :
      (rest : List Track) (m : Machine) (live : String → ℕ)
      → CoreOf ts preset m live
      → CoreOf ts preset
          (collect_ready rest m).1
          (λ id. live id + occurrences id (collect_ready rest m).0)
  unfolding collect_ready
  collect_ready-Core [] m live core = Core-live (λ id. omega arith) core
  collect_ready-Core (t ∷ rest) m live core =
      Core-live (λ id. ground arith)
        (collect_ready-Core rest (start_ready t m) _ (start_ready-Core t m live core))

  -- Each ready track is one pending track less.
  pub pending_count-collect_ready :
      (rest : List Track) (m : Machine) (live : String → ℕ)
      → CoreOf ts preset m live
      → pending_count ts (collect_ready rest m).1 + length (collect_ready rest m).0
        ≡ pending_count ts m
  unfolding collect_ready
  pending_count-collect_ready [] m live core = omega arith
  pending_count-collect_ready (t ∷ rest) m live core = ground (
    arith,
    pending_count-start_ready t m live core,
    pending_count-collect_ready rest (start_ready t m) _ (start_ready-Core t m live core),
  )

-- The loop leaves the counters, and the events, alone.
pub collect_ready_counters :
    (rest : List Track) (m : Machine)
    → ((collect_ready rest m).1.completed_count ≡ m.completed_count)
      × ((collect_ready rest m).1.running_count ≡ m.running_count)
      × ((collect_ready rest m).1.events ≡ m.events)
unfolding collect_ready start_ready
collect_ready_counters [] m = (refl, refl, refl)
collect_ready_counters (t ∷ rest) m = ground (arith, collect_ready_counters rest (start_ready t m))

pending-block_unsatisfied :
    (t : Track) (m : Machine) (j : String)
    → has is_pending (block_unsatisfied t m).states j
      ≡ has is_pending m.states j && not (str_eq t.id j)
unfolding block_unsatisfied
pending-block_unsatisfied t m j = elim (Bool-cases (has is_pending m.states t.id)) [
  | inl h ↦ rw h (
      ground
        (arith, has-update is_pending m.states t.id blocked (unsatisfied_dependencies t.deps) j))
  | inr h ↦ rw h (elim (Bool-cases (str_eq t.id j)) [
    | inl same ↦
        let p : has is_pending m.states j ≡ false =
          subst (λ k. has is_pending m.states k ≡ false) ((eq_iff t.id j).0 same) h in
        rw p refl
    | inr other ↦ ground (arith, other)
  ])
]

pending-block_pending :
    (rest : List Track) (m : Machine) (j : String)
    → has is_pending (block_pending rest m).states j
      ≡ has is_pending m.states j && not (elem j (idents rest))
unfolding block_pending
pending-block_pending [] m j = ground arith
pending-block_pending (t ∷ rest) m j =
    ground
      (arith, pending-block_pending rest (block_unsatisfied t m) j, pending-block_unsatisfied t m j)

pub pending_count-block_pending :
    (ts : List Track) (m : Machine) → pending_count ts (block_pending ts m) ≡ 0
pending_count-block_pending ts m =
    count_zero _ (keys ts)
      (λ x h. ground (arith, pending-block_pending ts m x, elem-distinct x (idents ts)))
