-- ===== src/Research/Scheduler/Core.antt =====
-- internal/skill/research/scheduler.go: what the maps and counters of the scheduler mean.
-- `Core` is the part of the invariant that every status change keeps.
use mathlib.Core.Path.{fun_ext}
use virmux.Prelude.{
  if◌then◌else◌, bit, Bool-cases, length, ℤ, pos, update, elem, count, distinct, ℕ, ◌+◌, String,
  ◌≡◌, refl, sym, ap, ◌∙◌, subst, inl, inr, Bool, true, false, not, Option, some, List, [], ◌∷◌,
  ◌++◌, map, arith, str_eq, eq_iff, eq_refl, update_self, update_ne,
}
use virmux.Research.Plan.{Track}
use virmux.Research.Scheduler.{
  TrackStatus, Reason, pending, running, done, failed, blocked, TrackState, States, is_running,
  is_done, status_is, has, decrement,
}

abbrev pub idents : List Track → List String
idents ts = map (λ t. t.id) ts

-- The keys of the `states` map.
abbrev pub keys : List Track → List String
keys ts = distinct (idents ts)

-- Not yet counted as completed.
abbrev pub is_open : TrackStatus → Bool
is_open pending = true
is_open running = true
is_open _ = false

-- Was started, and has not failed.
abbrev pub is_active : TrackStatus → Bool
is_active running = true
is_active done = true
is_active _ = false

abbrev pub is_bad : TrackStatus → Bool
is_bad failed = true
is_bad blocked = true
is_bad _ = false

abbrev pub is_present : TrackStatus → Bool
is_present s = true

-- How often `id` lists a dependency that is not done.
abbrev pub missing : (String → Bool) → List Track → String → ℕ
missing finished [] id = 0
missing finished (t ∷ ts) id =
    (if str_eq t.id id then count (λ d. not (finished d)) t.deps else 0) + missing finished ts id

-- The tracks that list `x`, once for each time.
abbrev pub listed : String → String → List String → List String
listed x id [] = []
listed x id (d ∷ ds) = let rest = listed x id ds in if str_eq d x then id ∷ rest else rest

abbrev pub dependents : String → List Track → List String
dependents x [] = []
dependents x (t ∷ ts) = listed x t.id t.deps ++ dependents x ts

abbrev pub occurrences : String → List String → ℕ
occurrences id = count (λ d. str_eq d id)

occurrences-append :
    (id : String) (xs ys : List String)
    → occurrences id (xs ++ ys) ≡ occurrences id xs + occurrences id ys
occurrences-append id [] ys = omega arith
occurrences-append id (x ∷ xs) ys = ground (arith, occurrences-append id xs ys)

module _ (f g : String → Bool) (x : String) (was : f x ≡ false) (is : g x ≡ true)
    (same : (j : String) → str_eq x j ≡ false → g j ≡ f j) where
  missing_drop_deps :
      (id j : String) (ds : List String)
      → count (λ d. not (f d)) ds ≡ count (λ d. not (g d)) ds + occurrences j (listed x j ds)
  missing_drop_deps id j [] = omega arith
  missing_drop_deps id j (d ∷ ds) =
      ground (arith, missing_drop_deps id j ds, same d, eq_iff x d, eq_iff d x, eq_refl j)

  other_listed :
      (id j : String) (ds : List String) → str_eq j id ≡ false → occurrences id (listed x j ds) ≡ 0
  other_listed id j [] h = omega arith
  other_listed id j (d ∷ ds) h = ground (arith, other_listed id j ds h)

  -- When `x` becomes done, each dependent misses it no longer, as often as it lists it.
  pub missing_drop :
      (id : String) (ts : List Track)
      → missing f ts id ≡ missing g ts id + occurrences id (dependents x ts)
  missing_drop id [] = omega arith
  missing_drop id (t ∷ ts) = ground (
    arith,
    missing_drop id ts,
    missing_drop_deps id t.id t.deps,
    other_listed id t.id t.deps,
    eq_iff t.id id,
    occurrences-append id (listed x t.id t.deps) (dependents x ts),
  )

pub decrement_lem :
    (id : String) (ds : List String) (deg : String → ℤ) (n : ℕ)
    → deg id ≡ pos (n + occurrences id ds)
    → decrement ds deg id ≡ pos n
unfolding decrement update
decrement_lem id [] deg n h = ground (arith)
decrement_lem id (d ∷ ds) deg n h = decrement_lem id ds _ n (ground (arith, eq_iff d id))

module _ (ts : List Track) where
  -- The maps and `completedCount` agree with the statuses; `live id` is the count of workers of
  -- `id`, and `preset id` says that the track was skipped.
  pub record Core (preset : String → Bool) (states : States) (deg : String → ℤ) (n : ℕ)
      (live : String → ℕ) : Type 0 where
    pub counted : n + count (has is_open states) (keys ts) ≡ length (keys ts)
    pub degrees : (id : String) → deg id ≡ pos (missing (has is_done states) ts id)
    pub known : (id : String) → has is_present states id ≡ elem id (keys ts)
    pub backed : (id : String) → live id ≡ bit (has is_running states id)
    pub ready :
        (id : String)
        → preset id ≡ false
        → has is_active states id ≡ true
        → missing (has is_done states) ts id ≡ 0

abbrev pub state_of : String → TrackStatus → Reason → Option TrackState
state_of id s e = some (record { track_id = id; status = s; error = e })

status_is-if :
    (test : TrackStatus → Bool) (b : Bool) (u v : Option TrackState)
    → status_is test (if b then u else v) ≡ (if b then status_is test u else status_is test v)
status_is-if test true u v = refl
status_is-if test false u v = refl

module _ (test : TrackStatus → Bool) (states : States) (x : String) (s : TrackStatus)
    (e : Reason) where
  pub has-update_self : has test (update states x (state_of x s e)) x ≡ test s
  has-update_self = ap (status_is test) (update_self states x (state_of x s e))

  pub has-update :
      (j : String)
      → has test (update states x (state_of x s e)) j
        ≡ (if str_eq x j then test s else has test states j)
  unfolding update
  has-update j = status_is-if test (str_eq x j) (state_of x s e) (states j)

  pub has-update_ne :
      (j : String)
      → str_eq x j ≡ false
      → has test (update states x (state_of x s e)) j ≡ has test states j
  has-update_ne j h = ap (status_is test) (update_ne states x (state_of x s e) j h)

  module _ (unseen : has test states x ≡ test s) where
    -- A status change that the test does not see.
    pub has-update_same :
        (j : String) → has test (update states x (state_of x s e)) j ≡ has test states j
    has-update_same j = elim (Bool-cases (str_eq x j)) [
      | inl same ↦
          let p = (eq_iff x j).0 same in
          subst (λ k. has test (update states x (state_of x s e)) k ≡ has test states k) p
            (has-update_self ∙ sym unseen)
      | inr other ↦ has-update_ne j other
    ]

    pub missing-update_same :
        (ts : List Track) (id : String)
        → missing (has test (update states x (state_of x s e))) ts id
          ≡ missing (has test states) ts id
    missing-update_same ts id = ap (λ f. missing f ts id) (fun_ext has-update_same)
