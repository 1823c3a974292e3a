-- ===== src/Research/Scheduler/Closure.antt =====
-- internal/skill/research/scheduler.go, the closure `cascade`: it reaches every dependent, and a fuel
-- of the count of pending tracks is enough for it.
use virmux.Prelude.{
  if◌then◌else◌, bit, Bool-cases, elem, ℕ, zero, suc, ◌+◌, ◌≤◌, String, ◌≡◌, refl, sym, ap, subst,
  inl, inr, Bool, true, false, ◌||◌, List, [], ◌∷◌, arith, str_eq, eq_iff, count_none,
}
use virmux.Research.Plan.{Track}
use virmux.Research.Scheduler.{
  Machine, blocked, dependency_failed, is_pending, has, visit_dependent, cascade_over, cascade,
  block_dependent,
}
use virmux.Research.Scheduler.Core.{keys, is_bad, has-update, has-update_self}
use virmux.Research.Scheduler.Moves.{present_of_has, Core-block, count-update}
use virmux.Research.Scheduler.Loops.{pending_count}
use virmux.Research.Scheduler.Cascade.{CoreAt, Core-count}

abbrev pub with_key : (String → Bool) → String → String → Bool
with_key skip id j = skip j || str_eq id j

module _ (adj : String → List String) where
  -- No dependent of a failed or blocked track is pending, but for the tracks in `skip`.
  abbrev pub Closed : (String → Bool) → Machine → Type 0
  Closed skip m =
      (j d : String)
      → skip j ≡ false
      → has is_bad m.states j ≡ true
      → elem d (adj j) ≡ true
      → has is_pending m.states d ≡ false

  -- Tracks only leave the state pending, and stay failed or blocked.
  pub record Later (m m' : Machine) : Type 0 where
    pub still :
        (j : String) → has is_pending m.states j ≡ false → has is_pending m'.states j ≡ false
    pub bad : (j : String) → has is_bad m.states j ≡ true → has is_bad m'.states j ≡ true

  Later-trans : {m m' m'' : Machine} → Later m m' → Later m' m'' → Later m m''
  Later-trans p q = record {
    still = λ j h. q.still j (p.still j h);
    bad = λ j h. q.bad j (p.bad j h);
  }

  Later-block_dependent : (id d : String) (m : Machine) → Later m (block_dependent id d m)
  unfolding block_dependent
  Later-block_dependent id d m = record {
    still =
        λ j h. ground (arith, has-update is_pending m.states d blocked (dependency_failed id) j);
    bad = λ j h. ground (arith, has-update is_bad m.states d blocked (dependency_failed id) j);
  }

  Closed-block_dependent :
      (skip : String → Bool) (id d : String) (m : Machine)
      → Closed skip m
      → Closed (with_key skip d) (block_dependent id d m)
  Closed-block_dependent skip id d m closed j e out bad_j mem =
      (Later-block_dependent id d m).still e (
        closed j e (ground arith)
          (unfold block_dependent in
            ground (arith, has-update is_bad m.states d blocked (dependency_failed id) j))
          mem)

  module _ (ts : List Track) (preset : String → Bool) (live : String → ℕ) (k : ℕ) where
    pub record Closes (skip : String → Bool) (m m' : Machine) : Type 0 where
      pub core : CoreAt k ts preset m' live
      pub fewer : pending_count ts m' ≤ pending_count ts m
      pub later : Later m m'
      pub closed : Closed skip m'

    abbrev pub Cascades : ℕ → (String → Machine → Machine) → Type 0
    Cascades fuel again =
        (skip : String → Bool) (id : String) (m : Machine)
        → has is_bad m.states id ≡ true
        → CoreAt k ts preset m live
        → pending_count ts m ≤ fuel
        → Closed (with_key skip id) m
        → Closes skip m (again id m)

    none_pending :
        (m : Machine)
        → CoreAt k ts preset m live
        → pending_count ts m ≤ 0
        → (d : String) → has is_pending m.states d ≡ false
    none_pending m core le d = elim (Bool-cases (elem d (keys ts))) [
      | inl key ↦ count_none (has is_pending m.states) d (keys ts) (omega arith) key
      | inr other ↦ ground (arith, core.known d)
    ]

    unchanged :
        (skip : String → Bool) (m : Machine)
        → CoreAt k ts preset m live
        → Closed skip m
        → Closes skip m m
    unchanged skip m core closed = record {
      core = core;
      fewer = omega arith;
      later = record { still = λ j h. h; bad = λ j h. h };
      closed = closed;
    }

    module _ (id d : String) (m : Machine) (core : CoreAt k ts preset m live)
        (waits : has is_pending m.states d ≡ true) where
      block_dependent-Core : CoreAt k ts preset (block_dependent id d m) live
      unfolding block_dependent
      block_dependent-Core = Core-count ts preset live (omega arith) (
          Core-block ts preset m.states m.in_degree (m.completed_count + k) live d
            (dependency_failed id) core waits)

      pending_count-block_dependent :
          pending_count ts (block_dependent id d m) + 1 ≡ pending_count ts m
      unfolding block_dependent
      pending_count-block_dependent = omega (
        arith,
        ap bit waits,
        count-update ts preset m.states m.in_degree (m.completed_count + k) live d
            (dependency_failed id) core blocked (present_of_has is_pending m.states d waits)
            is_pending,
      )

    module _ (fuel : ℕ) (again : String → Machine → Machine) (good : Cascades fuel again)
        (skip : String → Bool) (id : String) where
      -- A visit of `d` in the loop of `id`, which is itself skipped in `skip`.
      abbrev Visited : List String → Machine → Machine → Type 0
      Visited ds m m' =
          Closes skip m m' × ((d : String) → elem d ds ≡ true → has is_pending m'.states d ≡ false)

      visit_pending :
          (d : String) (m : Machine)
          → has is_pending m.states d ≡ true
          → CoreAt k ts preset m live
          → pending_count ts m ≤ suc fuel
          → Closed skip m
          → Closes skip m (again d (block_dependent id d m))
            × (has is_pending (again d (block_dependent id d m)).states d ≡ false)
      visit_pending d m waits core le closed =
          let drop = pending_count-block_dependent id d m core waits in
          let c =
            good skip d (block_dependent id d m)
              (unfold block_dependent in
                has-update_self is_bad m.states d blocked (dependency_failed id))
              (block_dependent-Core id d m core waits) (omega arith)
              (Closed-block_dependent skip id d m closed) in
          (
            record {
              core = c.core;
              fewer = omega (arith, drop, c.fewer);
              later = Later-trans (Later-block_dependent id d m) c.later;
              closed = c.closed;
            },
            c.later.still d (
                unfold block_dependent in
                has-update_self is_pending m.states d blocked (dependency_failed id)),
          )

      cascade_over_closes :
          (ds : List String) (m : Machine)
          → CoreAt k ts preset m live
          → pending_count ts m ≤ suc fuel
          → Closed skip m
          → Visited ds m (cascade_over again id ds m)
      unfolding cascade_over visit_dependent
      cascade_over_closes [] m core le closed = (unchanged skip m core closed, λ d mem. absurd (cc))
      cascade_over_closes (d ∷ ds) m core le closed =
          let (c, gone) = step_one (has is_pending m.states d) refl in
          after_first (has is_pending m.states d) c gone (
            cascade_over_closes ds (one (has is_pending m.states d)) c.core (omega (arith, c.fewer))
              c.closed)
        where
          one : Bool → Machine
          one b = if b then again d (block_dependent id d m) else m

          after_first :
              (b : Bool)
              → Closes skip m (one b)
              → has is_pending (one b).states d ≡ false
              → Visited ds (one b) (cascade_over again id ds (one b))
              → Visited (d ∷ ds) m (cascade_over again id ds (one b))
          after_first b c gone (rest, all) = (
            record {
              core = rest.core;
              fewer = omega (arith, rest.fewer, c.fewer);
              later = Later-trans c.later rest.later;
              closed = rest.closed;
            },
            λ e mem. elim (Bool-cases (str_eq d e)) [
              | inl same ↦
                  subst (λ x. has is_pending (cascade_over again id ds (one b)).states x ≡ false)
                    ((eq_iff d e).0 same) (rest.later.still d gone)
              | inr other ↦ all e (ground arith)
            ],
          )

          step_one :
              (b : Bool)
              → has is_pending m.states d ≡ b
              → Closes skip m (one b) × (has is_pending (one b).states d ≡ false)
          step_one true p = visit_pending d m p core le closed
          step_one false p = (unchanged skip m core closed, p)

    pub cascade_closes : (fuel : ℕ) → Cascades fuel (cascade adj fuel)
    unfolding cascade
    cascade_closes zero skip id m bad core le closed =
        unchanged skip m core (λ j d out bad_j mem. none_pending m core le d)
    cascade_closes (suc fuel) skip id m bad core le closed =
        let (c, all) =
          cascade_over_closes fuel (cascade adj fuel) (cascade_closes fuel) (with_key skip id) id
            (adj id) m core le closed in
        record {
          core = c.core;
          fewer = c.fewer;
          later = c.later;
          closed = λ j d out bad_j mem. elim (Bool-cases (str_eq id j)) [
            | inl same ↦ all d (subst (λ x. elem d (adj x) ≡ true) (sym ((eq_iff id j).0 same)) mem)
            | inr other ↦ c.closed j d (ground arith) bad_j mem
          ];
        }
