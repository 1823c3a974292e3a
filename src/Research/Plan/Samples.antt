-- ===== src/Research/Plan/Samples.antt =====
-- internal/skill/research/planner.go: a compiled plan, and the theorems at it.
use virmux.Prelude.{String, ◌≡◌, refl, ◌↔◌, none, some, List, [], ◌∷◌, map}
use virmux.Research.Plan.{Track, Plan, validate, hash, wide_without_stop_rule}
use virmux.Research.Plan.Valid.{IsValidPlan, validate_iff}
use virmux.Research.Plan.Compile.{compile}

abbrev digest : Plan → String
digest p = "0f3a"

abbrev hints : String → List String
hints query = "check the sources" ∷ []

compiled : Plan
unfolding compile hash
compiled = compile digest (some hints) "virtual machine snapshots"

compiled_ids :
    map (λ t. t.id) compiled.tracks ≡ "track-1" ∷ "track-2" ∷ "track-wide" ∷ "track-synth" ∷ []
unfolding compiled
compiled_ids = refl

rejects_wide :
    validate (record compiled {
      tracks = map (λ (t : Track). record t { stop_rule = "" }) compiled.tracks;
    })
    ≡ some (wide_without_stop_rule "track-wide")
unfolding compiled validate
rejects_wide = refl

validate_iff_example : (validate compiled ≡ none) ↔ IsValidPlan compiled
validate_iff_example = validate_iff compiled
