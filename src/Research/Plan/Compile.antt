-- ===== src/Research/Plan/Compile.antt =====
-- internal/skill/research/planner.go, `DefaultPlanner.Compile` and `DefaultHintProvider`.
-- `p.Hints` is `none` where it is nil; the error of a hint provider is dropped by the code.
-- `strings.ToLower` is the parameter `to_lower`.
use Prim.Native.String.{◌++◌ as concat, len}
use text.Mathlib.Text.{find?}
use text.Mathlib.TextPositions.{len-append}
use virmux.Prelude.{
  ltb, if◌then◌else◌, Bool-cases, All, pos, elem, ◌<◌, String, ◌≡◌, refl, ap, ◌≢◌, inl, inr, Bool,
  true, false, Option, none, some, List, [], ◌∷◌, arith, str_eq, eq_iff,
}
use virmux.Research.Plan.{PlanBudget, Track, Plan, hash, validate}
use virmux.Research.Plan.Valid.{IsValidTrack, IsValidPlan, validate_iff}

abbrev deep_track : String → String → PlanBudget → String → List String → Track
deep_track id q budget stop_rule deps = record {
  id = id;
  q = q;
  kind = "deep";
  targets = [];
  attrs = [];
  rows = [];
  budget = budget;
  stop_rule = stop_rule;
  deps = deps;
  deterministic = none;
}

abbrev one_usd : PlanBudget
one_usd = record { usd = 100; mins = pos 5 }

history_track : String → Track
history_track query =
    deep_track "track-1" (concat "Research history of " query) one_usd "found 1 source" []

state_track : String → Track
state_track query =
    deep_track "track-2" (concat "Research current state of " query) one_usd "found 1 source" []

wide_track : String → Track
wide_track query = record {
  id = "track-wide";
  q = concat "Market scan for " query;
  kind = "wide";
  targets = "TargetA" ∷ "TargetB" ∷ "TargetC" ∷ [];
  attrs = "Attr1" ∷ "Attr2" ∷ "Attr3" ∷ [];
  rows = [];
  budget = record { usd = 200; mins = pos 10 };
  stop_rule = "coverage>=0.8";
  deps = "track-1" ∷ [];
  deterministic = none;
}

synth_track : Track
synth_track =
    deep_track "track-synth" "Synthesize findings" one_usd "done" ("track-1" ∷ "track-2" ∷ [])

-- `isWide` counts the query's bytes.
unfoldable pub compile_tracks : String → List Track
unfolding history_track state_track wide_track synth_track
compile_tracks query =
    history_track query
    ∷ state_track query
    ∷ (if ltb 10 (len query) then wide_track query ∷ synth_track ∷ [] else synth_track ∷ [])

unfoldable pub compile_hints : Option (String → List String) → String → List String
compile_hints none query = []
compile_hints (some get_hints) query = get_hints query

unfoldable pub compile : (Plan → String) → Option (String → List String) → String → Plan
unfolding compile_tracks compile_hints
compile digest provider query =
    let plan : Plan = record {
      plan_id = "";
      goal = query;
      assumptions = [];
      unknowns = "unanswered questions" ∷ compile_hints provider query;
      dims_didnt_ask = "timeline" ∷ "counterevidence" ∷ "operator-cost" ∷ "failure-modes" ∷ [];
      tracks = compile_tracks query;
      reduce = record {
        outputs = "table.csv" ∷ "report.md" ∷ "slides.md" ∷ [];
        rubric = "citation coverage" ∷ "contradictions explicit" ∷ "deterministic formatting" ∷ [];
      };
      revision = pos 0;
    } in
    record plan { plan_id = hash digest plan }

unfoldable pub get_hints : (String → String) → String → List String
get_hints to_lower query = elim (find? (to_lower query) "agent") [
  | some i ↦ "check arXiv 2602.01331v1" ∷ "verify Firecracker isolations" ∷ []
  | none ↦ []
]

-- Each dependency stands before its track, and each ID once.
abbrev pub IsOrdered : List String → List Track → Type 0
IsOrdered seen [] = Unit
IsOrdered seen (t ∷ ts) =
    All (λ d. elem d seen ≡ true) t.deps × (elem t.id seen ≡ false) × IsOrdered (t.id ∷ seen) ts

compile_tracks-IsOrdered : (query : String) → IsOrdered [] (compile_tracks query)
unfolding compile_tracks
compile_tracks-IsOrdered query = elim (Bool-cases (ltb 10 (len query))) [
  | inl w ↦ rw w (ground arith)
  | inr n ↦ rw n (ground arith)
]

concat-ne_empty : (s t : String) → 0 < len s → concat s t ≢ ""
concat-ne_empty s t h e = omega (arith, len-append s t, ap len e)

ne_of_test : (s t : String) → str_eq s t ≡ false → s ≢ t
ne_of_test s t h e = cc ((eq_iff s t).1 e)

deep_track-IsValid :
    (id q : String) (b : PlanBudget) (rule : String) (deps : List String)
    → id ≢ ""
    → q ≢ ""
    → IsValidTrack (deep_track id q b rule deps)
deep_track-IsValid id q b rule deps h k = record {
  id_given = h;
  q_given = k;
  kind_known = inl refl;
}

wide_track-IsValid : (query : String) → IsValidTrack (wide_track query)
unfolding wide_track
wide_track-IsValid query = record {
  id_given = ne_of_test _ _ refl;
  q_given = concat-ne_empty _ query (omega arith);
  kind_known = inr (refl, λ e. cc, λ e. cc, ne_of_test _ _ refl);
}

compile_tracks-IsValid : (query : String) → All IsValidTrack (compile_tracks query)
unfolding compile_tracks
compile_tracks-IsValid query = (
  deep_track-IsValid _ _ _ _ _ (ne_of_test _ _ refl) (concat-ne_empty _ query (omega arith)),
  (
    deep_track-IsValid _ _ _ _ _ (ne_of_test _ _ refl) (concat-ne_empty _ query (omega arith)),
    tail (ltb 10 (len query)),
  ),
)
  where
    synth : IsValidTrack synth_track
    synth = deep_track-IsValid _ _ _ _ _ (ne_of_test _ _ refl) (ne_of_test _ _ refl)

    tail :
        (b : Bool)
        → All IsValidTrack (if b then wide_track query ∷ synth_track ∷ [] else synth_track ∷ [])
    tail true = (wide_track-IsValid query, (synth, tt))
    tail false = (synth, tt)

compile-IsValidPlan :
    (digest : Plan → String) (provider : Option (String → List String)) (query : String)
    → query ≢ ""
    → IsValidPlan (compile digest provider query)
unfolding compile
compile-IsValidPlan digest provider query h = record {
  goal_given = h;
  some_tracks = λ e. unfold compile_tracks in cc;
  four_dims = omega arith;
  some_outputs = λ e. cc;
  tracks_valid = compile_tracks-IsValid query;
}

-- The planner's output for a query that is not empty passes the validation, its tracks stand behind
-- their dependencies with no ID twice, and its plan ID is the hash of the plan that carries it.
pub compile-IsValid :
    (digest : Plan → String) (provider : Option (String → List String)) (query : String)
    → query ≢ ""
    → (validate (compile digest provider query) ≡ none)
      × IsOrdered [] (compile digest provider query).tracks
      × ((compile digest provider query).plan_id ≡ hash digest (compile digest provider query))
compile-IsValid digest provider query h = (
  (validate_iff (compile digest provider query)).1 (compile-IsValidPlan digest provider query h),
  unfold compile in compile_tracks-IsOrdered query,
  unfold compile hash in refl,
)
