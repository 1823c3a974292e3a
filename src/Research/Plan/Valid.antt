-- ===== src/Research/Plan/Valid.antt =====
-- internal/skill/research/planner.go, `Validate` and `ParsePlan` against a declarative contract.
use virmux.Prelude.{
  Option-cases, length, All, ◌≤◌, String, ◌≡◌, refl, ◌≢◌, ◌↔◌, ◌⊎◌, inl, inr, none, List, [], ◌∷◌,
  arith, eq_iff,
}
use virmux.Research.Plan.{Track, Plan, validate_track, validate_tracks, validate}

pub record IsValidTrack (t : Track) : Type 0 where
  pub id_given : t.id ≢ ""
  pub q_given : t.q ≢ ""
  pub kind_known :
      (t.kind ≡ "deep") ⊎ (t.kind ≡ "wide") × (t.targets ≢ []) × (t.attrs ≢ []) × (t.stop_rule ≢ "")

pub record IsValidPlan (p : Plan) : Type 0 where
  pub goal_given : p.goal ≢ ""
  pub some_tracks : p.tracks ≢ []
  pub four_dims : 4 ≤ length p.dims_didnt_ask
  pub some_outputs : p.reduce.outputs ≢ []
  pub tracks_valid : All IsValidTrack p.tracks

deep_ne_wide : ◌≢◌ {A = String} "deep" "wide"
deep_ne_wide e = cc ((eq_iff "deep" "wide").1 e)

module _ (t : Track) where
  IsValidTrack-of_none : validate_track t ≡ none → IsValidTrack t
  unfolding validate_track
  IsValidTrack-of_none h = record {
    id_given = ground (arith, eq_iff t.id "");
    q_given = ground (arith, eq_iff t.q "");
    kind_known = ground (arith, eq_iff t.kind "deep", eq_iff t.kind "wide", eq_iff t.stop_rule "");
  }

  none-of_IsValidTrack : IsValidTrack t → validate_track t ≡ none
  unfolding validate_track
  none-of_IsValidTrack v = ground (
    arith,
    eq_iff t.id "",
    eq_iff t.q "",
    eq_iff t.kind "deep",
    eq_iff t.kind "wide",
    eq_iff t.stop_rule "",
    v.id_given,
    v.q_given,
    v.kind_known,
    deep_ne_wide,
  )

All-of_none : (ts : List Track) → validate_tracks ts ≡ none → All IsValidTrack ts
unfolding validate_tracks
All-of_none [] h = tt
All-of_none (t ∷ ts) h = elim (Option-cases (validate_track t)) [
  | inl e ↦ (IsValidTrack-of_none t e, All-of_none ts (rw (e, validate_tracks) at h))
  | inr (e, p) ↦ absurd (ground arith)
]

none-of_All : (ts : List Track) → All IsValidTrack ts → validate_tracks ts ≡ none
unfolding validate_tracks
none-of_All [] h = refl
none-of_All (t ∷ ts) h = ground (arith, none-of_IsValidTrack t h.0, none-of_All ts h.1)

IsValidPlan-of_none : (p : Plan) → validate p ≡ none → IsValidPlan p
unfolding validate
IsValidPlan-of_none p h = record {
  goal_given = ground (arith, eq_iff p.goal "");
  some_tracks = ground arith;
  four_dims = ground arith;
  some_outputs = ground arith;
  tracks_valid = All-of_none p.tracks (ground arith);
}

none-of_IsValidPlan : (p : Plan) → IsValidPlan p → validate p ≡ none
unfolding validate
none-of_IsValidPlan p v =
    ground (arith, eq_iff p.goal "", v.goal_given, none-of_All p.tracks v.tracks_valid)

-- `Validate` accepts a plan exactly when it has a goal, tracks, at least four dimensions, outputs,
-- and every track has an ID, a question, and is deep, or wide with targets, attributes and a stop
-- rule.
pub validate_iff : (p : Plan) → (validate p ≡ none) ↔ IsValidPlan p
validate_iff p = (IsValidPlan-of_none p, none-of_IsValidPlan p)
