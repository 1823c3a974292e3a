-- ===== src/Research/Scheduler/Safety.antt =====
-- internal/skill/research/scheduler.go: what is true of the track states in every interleaving.
use mathlib.Core.List.{Memᴰ}
use virmux.Prelude.{
  bit, Result, ok, length, All, length-map, ℤ, elem, IsDistinct, count, elem-distinct,
  length-distinct-le, distinct_self, suc, ◌+◌, ◌≤◌, String, ◌≡◌, refl, sym, ap, ◌∙◌, subst, Bool,
  true, false, not, Option, none, some, List, [], ◌∷◌, arith, eq_iff, eq_refl, count_none, All-mem,
}
use virmux.Research.Plan.{Track}
use virmux.Research.Scheduler.{TrackState, Machine, is_running, is_done, status_is, has}
use virmux.Research.Scheduler.Build.{start}
use virmux.Research.Scheduler.Run.{finished, Config, begin, Reach, collect_states, result, Worker}
use virmux.Research.Scheduler.Core.{idents, keys, is_open, is_active, is_present, missing}
use virmux.Research.Scheduler.Invariant.{Inv, AtPc, live, not_finished}
use virmux.Research.Scheduler.Rerun.{is_preset, Reach-Inv_start}

count-not_zero :
    (f : String → Bool) (ds : List String)
    → count (λ d. not (f d)) ds ≡ 0
    → All (λ x. f x ≡ true) ds
count-not_zero f [] h = tt
count-not_zero f (d ∷ ds) h = (ground arith, count-not_zero f ds (ground arith))

deps_of_missing :
    (f : String → Bool) (id : String) (ts : List Track)
    → missing f ts id ≡ 0
    → All (λ t. id ≡ t.id → All (λ x. f x ≡ true) t.deps) ts
deps_of_missing f id [] h = tt
deps_of_missing f id (t ∷ ts) h = (
  λ e. count-not_zero f t.deps (ground (arith, eq_iff t.id id)),
  deps_of_missing f id ts (ground arith),
)

elem_of_mem : {t : Track} {ts : List Track} → Memᴰ t ts → elem t.id (idents ts) ≡ true
elem_of_mem {t} (Memᴰ.head {x = u} e) =
    ground (arith, (eq_iff u.id t.id).1 (sym (ap (λ (v : Track). v.id) e)))
elem_of_mem {t} (Memᴰ.tail m) = ground (arith, elem_of_mem m)

-- A list of final states, one for each track of `rest`.
abbrev Final : List Track → List TrackState → Type 0
Final rest sts = (length sts ≡ length rest) × All (λ st. is_open st.status ≡ false) sts

collect-Final :
    (m : Machine) (rest : List Track)
    → ((id : String)
        → elem id (idents rest) ≡ true
        → (has is_present m.states id ≡ true) × (has is_open m.states id ≡ false))
    → (sts : List TrackState) × (collect_states rest m ≡ some sts) × Final rest sts
unfolding collect_states
collect-Final m [] h = ([], refl, (refl, tt))
collect-Final m (t ∷ rest) h =
    let (sts, e, fin) = collect-Final m rest (λ id mem. h id (ground (arith, mem))) in
    let (present, closed) = h t.id (ground (arith, eq_refl t.id)) in
    first (m.states t.id) refl sts e fin present closed
  where
    first :
        (o : Option TrackState)
        → m.states t.id ≡ o
        → (sts : List TrackState) → collect_states rest m ≡ some sts
        → Final rest sts
        → status_is is_present o ≡ true
        → status_is is_open o ≡ false
        → (all : List TrackState) × (collect_states (t ∷ rest) m ≡ some all) × Final (t ∷ rest) all
    first none p sts e fin present closed = absurd (cc)
    first (some st) p sts e fin present closed =
        (st ∷ sts, rw (p, collect_states) (rw e refl), (ap suc fin.0, (closed, fin.1)))

result_of :
    (ts : List Track) (wait : List (Option String) → Option String) (c : Config)
    (sts : List TrackState)
    → wait c.returned ≡ none
    → collect_states ts c.machine ≡ some sts
    → result ts wait c ≡ some (ok sts)
unfolding result
result_of ts wait c sts none_back all = ground arith

module _ (artifacts : Option (String → Result String Bool)) (ts : List Track) (only : List String)
    (limit : ℤ) (m : Machine) (c : Config) (starts : start artifacts ts only ≡ ok m)
    (distinct_ids : IsDistinct (idents ts)) (reached : Reach ts (begin limit m) c) where
  inv : Inv ts (is_preset only) c
  inv = Reach-Inv_start artifacts ts only limit m c starts distinct_ids reached

  -- In a plan with no ID twice, a track that was started in this run and has not failed has all of
  -- its dependencies done, in every interleaving.
  pub started-deps_done :
      (t : Track)
      → Memᴰ t ts
      → is_preset only t.id ≡ false
      → has is_active c.machine.states t.id ≡ true
      → All (λ x. has is_done c.machine.states x ≡ true) t.deps
  started-deps_done t mem free active =
      All-mem _
        (deps_of_missing (has is_done c.machine.states) t.id ts (inv.core.ready t.id free active))
        mem refl

  -- In a plan with no ID twice, `completedCount` is the number of tracks that are done, failed or
  -- blocked, `runningCount` the number of workers, and a track is running exactly while it has a
  -- worker, of which it has one.
  pub counters_lem :
      (c.machine.completed_count + count (has is_open c.machine.states) (idents ts) ≡ length ts)
      × (c.machine.running_count ≡ length c.workers)
      × ((id : String) → live c.workers id ≡ bit (has is_running c.machine.states id))
  counters_lem = (
    subst (λ ks. c.machine.completed_count + count (has is_open c.machine.states) ks ≡ length ts)
        (distinct_self (idents ts) distinct_ids)
        (inv.core.counted
          ∙ ap length (distinct_self (idents ts) distinct_ids)
          ∙ length-map (λ t. t.id) ts),
    inv.counted,
    inv.core.backed,
  )

  -- In a plan with no ID twice, behind the main loop no worker is left, and unless `Wait` gives an
  -- error the result has one state for each track of the plan, which is done, failed or blocked.
  pub finished-result :
      (wait : List (Option String) → Option String)
      → c.pc ≡ finished
      → wait c.returned ≡ none
      → (length c.workers ≡ 0)
        × ((sts : List TrackState) × (result ts wait c ≡ some (ok sts)) × Final ts sts)
  finished-result wait ends no_error_back =
      let all_counted : length ts ≤ c.machine.completed_count = subst (AtPc ts c) ends inv.at_pc in
      let none_open : count (has is_open c.machine.states) (keys ts) ≡ 0 =
        omega
          (arith, inv.core.counted, length-distinct-le (idents ts), length-map (λ t. t.id) ts) in
      let (sts, e, fin) = collect-Final c.machine ts (λ id mem. (
        inv.core.known id ∙ elem-distinct id (idents ts) ∙ mem,
        count_none (has is_open c.machine.states) id (keys ts) none_open
            (elem-distinct id (idents ts) ∙ mem),
      )) in
      (no_workers c.workers refl all_counted, (sts, result_of ts wait c sts no_error_back e, fin))
    where
      no_workers :
          (ws : List Worker)
          → c.workers ≡ ws
          → length ts ≤ c.machine.completed_count
          → length c.workers ≡ 0
      no_workers [] p all = ap length p
      no_workers (w ∷ ws) p all = absurd (not_finished ts (is_preset only) c inv [] ws w p all)
