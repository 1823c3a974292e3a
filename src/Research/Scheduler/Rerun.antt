-- ===== src/Research/Scheduler/Rerun.antt =====
-- internal/skill/research/scheduler.go: a rerun of a subset starts in the invariant too, if no two
-- tracks share an ID.
use virmux.Prelude.{
  Bool-cases, Option-cases, Result, ok, ℤ, elem, IsDistinct, String, ◌≡◌, refl, ◌∙◌, subst, inl,
  inr, Bool, true, false, not, ◌&&◌, Option, List, [], ◌∷◌, arith, eq_refl, is_nil, ne_of_elem,
  Result-cases, ok-injective,
}
use virmux.Research.Plan.{Track}
use virmux.Research.Scheduler.{done, blocked, no_error, no_artifact, Machine, is_pending, has}
use virmux.Research.Scheduler.Build.{
  build, skip_track, skip_unselected, has_track_artifact, unknown_selector, initial, start,
}
use virmux.Research.Scheduler.Run.{Config, begin, Reach}
use virmux.Research.Scheduler.Core.{idents, has-update_ne}
use virmux.Research.Scheduler.Initial.{adj-build, Core-initial, has-initial}
use virmux.Research.Scheduler.Moves.{Core-block, Core-skip}
use virmux.Research.Scheduler.Loops.{CoreOf}
use virmux.Research.Scheduler.Invariant.{Inv, begin-Inv, Reach-Inv}

-- A track that a rerun does not select keeps the outcome of its earlier run.
abbrev pub is_preset : List String → String → Bool
is_preset only id = not (is_nil only) && not (elem id only)

module _ (ts : List Track) (only : List String) where
  abbrev AllPending : List Track → Machine → Type 0
  AllPending rest m =
      (id : String) → elem id (idents rest) ≡ true → has is_pending m.states id ≡ true

  module _ (t : Track) (m : Machine) (waits : has is_pending m.states t.id ≡ true) where
    skip_track-Core :
        (found : Bool)
        → is_preset only t.id ≡ true
        → CoreOf ts (is_preset only) m (λ _. 0)
        → CoreOf ts (is_preset only) (skip_track (build ts).adj t.id found m) (λ _. 0)
    unfolding skip_track
    skip_track-Core true set core = rw (adj-build t.id ts) (
        Core-skip ts (is_preset only) m.states m.in_degree m.completed_count (λ _. 0) t.id no_error
          core waits set)
    skip_track-Core false set core =
        Core-block ts (is_preset only) m.states m.in_degree m.completed_count (λ _. 0) t.id
          no_artifact core waits

    skip_track-AllPending :
        (found : Bool) (rest : List Track)
        → elem t.id (idents rest) ≡ false
        → AllPending (t ∷ rest) m
        → AllPending rest (skip_track (build ts).adj t.id found m)
    unfolding skip_track
    skip_track-AllPending true rest new all id mem =
        has-update_ne is_pending m.states t.id done no_error id
          (ne_of_elem t.id id (idents rest) new mem)
        ∙ all id (ground (arith, mem))
    skip_track-AllPending false rest new all id mem =
        has-update_ne is_pending m.states t.id blocked no_artifact id
          (ne_of_elem t.id id (idents rest) new mem)
        ∙ all id (ground (arith, mem))

    running_count-skip_track :
        (found : Bool) → (skip_track (build ts).adj t.id found m).running_count ≡ m.running_count
    unfolding skip_track
    running_count-skip_track true = refl
    running_count-skip_track false = refl

  module _ (exists : String → Result String Bool) (m' : Machine)
      (some_only : is_nil only ≡ false) where
    skip_unselected-Core :
        (rest : List Track) (m : Machine)
        → IsDistinct (idents rest)
        → AllPending rest m
        → CoreOf ts (is_preset only) m (λ _. 0)
        → skip_unselected (build ts).adj exists only rest m ≡ ok m'
        → CoreOf ts (is_preset only) m' (λ _. 0) × (m'.running_count ≡ m.running_count)
    unfolding skip_unselected
    skip_unselected-Core [] m d all core e =
        let same : m ≡ m' = ok-injective e in
        subst (λ k. CoreOf ts (is_preset only) k (λ _. 0) × (k.running_count ≡ m.running_count))
          same (core, refl)
    skip_unselected-Core (t ∷ rest) m d all core e = elim (Bool-cases (elem t.id only)) [
      | inl chosen ↦
          skip_unselected-Core rest m d.1 (λ id mem. all id (ground (arith, mem))) core
            (rw (chosen, skip_unselected) at e)
      | inr left_out ↦ elim (Result-cases (exists t.id)) [
        | inl (found, p) ↦
            let waits = all t.id (ground (arith, eq_refl t.id)) in
            let (core', counts) =
              skip_unselected-Core rest (skip_track (build ts).adj t.id found m) d.1
                (skip_track-AllPending t m waits found rest d.0 all)
                (skip_track-Core t m waits found (ground (arith, left_out, some_only)) core)
                (rw p at (rw (left_out, skip_unselected) at e)) in
            (core', counts ∙ running_count-skip_track t m waits found)
        | inr (msg, p) ↦ absurd (cc (rw p at (rw (left_out, skip_unselected) at e)))
      ]
    ]

start-Core :
    (artifacts : Option (String → Result String Bool)) (ts : List Track) (only : List String)
    (m : Machine)
    → start artifacts ts only ≡ ok m
    → IsDistinct (idents ts)
    → CoreOf ts (is_preset only) m (λ _. 0) × (m.running_count ≡ 0)
unfolding start
start-Core artifacts ts [] m starts d =
    subst (λ k. CoreOf ts (is_preset []) k (λ _. 0) × (k.running_count ≡ 0)) (ok-injective starts)
      (Core-initial ts (is_preset []), unfold initial in refl)
start-Core artifacts ts (id ∷ only) m starts d =
    elim (Option-cases (unknown_selector (build ts).states (id ∷ only))) [
      | inl known ↦ elim (Result-cases skipped) [
        | inl (m', p) ↦
            let same : m' ≡ m = ok-injective (rw p at (rw (known, start) at starts)) in
            let (core, counts) =
              skip_unselected-Core ts (id ∷ only) (has_track_artifact artifacts) m' refl ts
                (initial ts) d (λ i mem. ground (arith, has-initial is_pending i ts, mem))
                (Core-initial ts (is_preset (id ∷ only))) p in
            subst (λ k. CoreOf ts (is_preset (id ∷ only)) k (λ _. 0) × (k.running_count ≡ 0)) same
              (core, unfold initial in counts)
        | inr (msg, p) ↦ absurd (cc (rw p at (rw (known, start) at starts)))
      ]
      | inr (unknown, p) ↦ absurd (cc (rw (p, start) at starts))
    ]
  where
    skipped : Result String Machine
    skipped =
        skip_unselected (build ts).adj (has_track_artifact artifacts) (id ∷ only) ts (initial ts)

-- Before the main loop the invariant holds, for a full run and for a rerun, and so it does after
-- any steps.
pub Reach-Inv_start :
    (artifacts : Option (String → Result String Bool)) (ts : List Track) (only : List String)
    (limit : ℤ) (m : Machine) (c : Config)
    → start artifacts ts only ≡ ok m
    → IsDistinct (idents ts)
    → Reach ts (begin limit m) c
    → Inv ts (is_preset only) c
Reach-Inv_start artifacts ts only limit m c starts d r =
    let (core, counts) = start-Core artifacts ts only m starts d in
    Reach-Inv ts (is_preset only) (begin limit m) c
      (begin-Inv ts (is_preset only) limit m core counts) r
