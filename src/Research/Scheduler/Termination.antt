-- ===== src/Research/Scheduler/Termination.antt =====
-- internal/skill/research/scheduler.go: the main loop of `runConcurrent` ends if no two tracks share
-- an ID, and never ends if two do.
use mathlib.Core.List.{map-append}
use virmux.Prelude.{
  length, length-map, ℤ, elem, distinct, length-distinct-lt, ℕ, suc, ◌≤◌, ◌<◌, String, ◌≡◌, sym,
  subst, ◌≢◌, true, false, List, ◌∷◌, ◌++◌, arith,
}
use virmux.Research.Plan.{Track}
use virmux.Research.Scheduler.Build.{initial}
use virmux.Research.Scheduler.Run.{finished, Config, Reach, here, next, begin}
use virmux.Research.Scheduler.Core.{idents, keys}
use virmux.Research.Scheduler.Invariant.{Inv, AtPc, Reach-Inv_full}

-- The number of steps of a run.
abbrev pub steps : {ts : List Track} {c d : Config} → Reach ts c d → ℕ
steps here = 0
steps (next r st) = suc (steps r)

duplicate_keys :
    (before after : List Track) (t : Track)
    → elem t.id (idents after) ≡ true
    → length (keys (before ++ t ∷ after)) < length (idents (before ++ t ∷ after))
duplicate_keys before after t twice =
    subst (λ ids. length (distinct ids) < length ids)
      (sym (map-append (λ u. u.id) before (t ∷ after)))
      (length-distinct-lt t.id (idents before) (idents after) twice)

-- If a track's ID stands on a later track too, a full run never leaves its main loop, whatever the
-- workers do: `completedCount` counts IDs and cannot reach the number of tracks.
pub duplicate_never_finishes :
    (limit : ℤ) (before after : List Track) (t : Track) (c : Config)
    → elem t.id (idents after) ≡ true
    → Reach (before ++ t ∷ after) (begin limit (initial (before ++ t ∷ after))) c
    → c.pc ≢ finished
duplicate_never_finishes limit before after t c twice r ends =
    let ts : List Track = before ++ t ∷ after in
    let inv : Inv ts (λ _. false) c = Reach-Inv_full limit ts c r in
    let all : length ts ≤ c.machine.completed_count = subst (AtPc ts c) ends inv.at_pc in
    omega (
      arith,
      all,
      inv.core.counted,
      length-map {A = Track} {B = String} (λ u. u.id) ts,
      duplicate_keys before after t twice,
    )
