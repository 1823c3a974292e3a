-- ===== src/Research/Scheduler/Initial.antt =====
-- internal/skill/research/scheduler.go: the maps that the first loop over the plan fills.
use mathlib.Core.List.{append-nil, append_assoc}
use mathlib.Core.Path.{fun_ext}
use virmux.Prelude.{
  if◌then◌else◌, Bool-cases, pos, inc, update, elem, count, elem-distinct, ℕ, suc, ◌+◌, String, ◌≡◌,
  refl, sym, ap, ◌∙◌, subst, inl, inr, Bool, true, false, List, [], ◌∷◌, ◌++◌, arith, str_eq,
  eq_iff, update_self, update_ne, count_all,
}
use virmux.Research.Plan.{Track}
use virmux.Research.Scheduler.{TrackStatus, pending, no_error, States, has, is_done, is_running}
use virmux.Research.Scheduler.Build.{
  Graph, empty_graph, add_deps, add_track, add_tracks, build, initial,
}
use virmux.Research.Scheduler.Core.{
  idents, keys, missing, listed, dependents, state_of, Core, has-update, is_open, is_present,
  is_active,
}

module _ (id : String) where
  adj-add_deps :
      (x : String) (deps : List String) (g : Graph)
      → (add_deps id deps g).adj x ≡ g.adj x ++ listed x id deps
  unfolding add_deps
  adj-add_deps x [] g = sym (append-nil (g.adj x))
  adj-add_deps x (d ∷ ds) g = elim (Bool-cases (str_eq d x)) [
    | inl same ↦
        let p = (eq_iff d x).0 same in
        adj-add_deps x ds _
        ∙ rw same (
            subst
              (λ k.
                update g.adj d (g.adj d ++ id ∷ []) k ++ listed x id ds
                ≡ g.adj k ++ id ∷ listed x id ds)
              p (rw update_self (append_assoc (g.adj d) (id ∷ []) (listed x id ds))))
    | inr other ↦
        adj-add_deps x ds _ ∙ rw other (rw (update_ne g.adj d (g.adj d ++ id ∷ []) x other) refl)
  ]

  states-add_deps : (deps : List String) (g : Graph) → (add_deps id deps g).states ≡ g.states
  unfolding add_deps
  states-add_deps [] g = refl
  states-add_deps (d ∷ ds) g = states-add_deps ds _

  in_degree-add_deps :
      (j : String) (n : ℕ) (deps : List String) (g : Graph)
      → g.in_degree j ≡ pos n
      → (add_deps id deps g).in_degree j
        ≡ pos (n + (if str_eq id j then count (λ d. true) deps else 0))
  unfolding add_deps
  in_degree-add_deps j n [] g h = ground arith
  in_degree-add_deps j n (d ∷ ds) g h =
      let g' : Graph = record g {
        adj = update g.adj d (g.adj d ++ id ∷ []);
        in_degree = update g.in_degree id (inc (g.in_degree id));
      } in
      elim (Bool-cases (str_eq id j)) [
        | inl same ↦
            let p = (eq_iff id j).0 same in
            let q : update g.in_degree id (inc (g.in_degree id)) j ≡ pos (suc n) =
              subst (λ k. update g.in_degree id (inc (g.in_degree id)) k ≡ pos (suc n)) p
                (rw update_self (rw (← p) at (ap inc h))) in
            ground (arith, in_degree-add_deps j (suc n) ds g' q)
        | inr other ↦
            ground (arith, in_degree-add_deps j n ds g' (update_ne g.in_degree id _ j other ∙ h))
      ]

adj-add_tracks :
    (x : String) (ts : List Track) (g : Graph)
    → (add_tracks ts g).adj x ≡ g.adj x ++ dependents x ts
unfolding add_tracks
adj-add_tracks x [] g = sym (append-nil (g.adj x))
adj-add_tracks x (t ∷ ts) g =
    adj-add_tracks x ts (add_track t g)
    ∙ ap (λ l. l ++ dependents x ts) (adj-add_deps t.id x t.deps _)
    ∙ append_assoc (g.adj x) (listed x t.id t.deps) (dependents x ts)

in_degree-add_tracks :
    (j : String) (ts : List Track) (g : Graph) (n : ℕ)
    → g.in_degree j ≡ pos n
    → (add_tracks ts g).in_degree j ≡ pos (n + missing (λ _. false) ts j)
unfolding add_tracks
in_degree-add_tracks j [] g n h = ground arith
in_degree-add_tracks j (t ∷ ts) g n h = ground (
  arith,
  in_degree-add_tracks j ts (add_track t g)
      (n + (if str_eq t.id j then count (λ d. true) t.deps else 0))
      (in_degree-add_deps t.id j n t.deps
        (record g { states = update g.states t.id (state_of t.id pending no_error) }) h),
)

has-add_track :
    (test : TrackStatus → Bool) (id : String) (t : Track) (g : Graph)
    → has test (add_track t g).states id
      ≡ (if str_eq t.id id then test pending else has test g.states id)
unfolding add_track
has-add_track test id t g =
    ap (λ (f : States). has test f id) (states-add_deps t.id t.deps _)
    ∙ has-update test g.states t.id pending no_error id

has-add_tracks :
    (test : TrackStatus → Bool) (id : String) (ts : List Track) (g : Graph)
    → has test (add_tracks ts g).states id
      ≡ (if elem id (idents ts) then test pending else has test g.states id)
unfolding add_tracks
has-add_tracks test id [] g = refl
has-add_tracks test id (t ∷ ts) g =
    ground (arith, has-add_track test id t g, has-add_tracks test id ts (add_track t g))

-- The adjacency lists are the dependents, in the order of the plan.
pub adj-build : (x : String) (ts : List Track) → (build ts).adj x ≡ dependents x ts
unfolding build
adj-build x ts = adj-add_tracks x ts empty_graph

pub has-initial :
    (test : TrackStatus → Bool) (id : String) (ts : List Track)
    → has test (initial ts).states id ≡ (if elem id (idents ts) then test pending else false)
unfolding initial
has-initial test id ts = has-add_tracks test id ts empty_graph

done-initial : (ts : List Track) → has is_done (initial ts).states ≡ (λ _. false)
done-initial ts = fun_ext λ id. ground (arith, has-initial is_done id ts)

in_degree-initial :
    (ts : List Track) (id : String) → (initial ts).in_degree id ≡ pos (missing (λ _. false) ts id)
unfolding initial
in_degree-initial ts id = ground (arith, in_degree-add_tracks id ts empty_graph 0 refl)

-- What the first loop leaves, for any plan: every track pending, and nothing counted.
pub Core-initial :
    (ts : List Track) (preset : String → Bool)
    → Core ts preset
        (initial ts).states
        (initial ts).in_degree
        (initial ts).completed_count
        (λ _. 0)
Core-initial ts preset = record {
  counted =
      unfold initial in
      omega (
        arith,
        count_all (has is_open (initial ts).states) (keys ts)
            (λ x m. ground (arith, has-initial is_open x ts, elem-distinct x (idents ts))),
      );
  degrees = λ id. rw (done-initial ts) (in_degree-initial ts id);
  known = λ id. ground (arith, has-initial is_present id ts, elem-distinct id (idents ts));
  backed = λ id. ground (arith, has-initial is_running id ts);
  ready = λ id free active. absurd (ground (arith, has-initial is_active id ts));
}
