-- ===== src/Research/Scheduler/Moves.antt =====
-- internal/skill/research/scheduler.go: each kind of status change keeps `Core`.
use virmux.Prelude.{
  bit, Bool-cases, length, ℤ, pos, is_zero, update, elem, count, distinct-IsDistinct, count_change,
  ℕ, ◌+◌, ◌≤◌, String, ◌≡◌, refl, sym, ap, ◌∙◌, subst, inl, inr, Bool, true, false, ◌&&◌, List,
  arith, str_eq, eq_iff, eq_refl,
}
use virmux.Research.Plan.{Track}
use virmux.Research.Scheduler.{
  TrackStatus, Reason, running, done, failed, blocked, States, is_pending, is_running, is_done, has,
  decrement,
}
use virmux.Research.Scheduler.Core.{
  idents, keys, is_open, is_active, is_present, missing, dependents, missing_drop, decrement_lem,
  Core, state_of, has-update_self, has-update_ne, has-update_same, missing-update_same,
}

pub present_of_has :
    (test : TrackStatus → Bool) (states : States) (x : String)
    → has test states x ≡ true
    → has is_present states x ≡ true
present_of_has test states x h = ground arith

-- What the other tests say of a pending and of a running track.
abbrev Tests : Bool → States → String → Type 0
Tests runs states x =
    (has is_present states x ≡ true)
    × (has is_open states x ≡ true)
    × (has is_done states x ≡ false)
    × (has is_running states x ≡ runs)

Tests-of_pending :
    (states : States) (x : String) → has is_pending states x ≡ true → Tests false states x
Tests-of_pending states x h = ground arith

Tests-of_running :
    (states : States) (x : String) → has is_running states x ≡ true → Tests true states x
Tests-of_running states x h = ground arith

module _ (ts : List Track) (preset : String → Bool) (states : States) (deg : String → ℤ) (n : ℕ)
    (live : String → ℕ) (x : String) (e : Reason) (core : Core ts preset states deg n live) where
  key_of_present : has is_present states x ≡ true → elem x (keys ts) ≡ true
  key_of_present h = sym (core.known x) ∙ h

  module _ (s : TrackStatus) (here : has is_present states x ≡ true) where
    -- A status change moves the count of open tracks by the change at its track.
    pub count-update :
        (test : TrackStatus → Bool)
        → count (has test (update states x (state_of x s e))) (keys ts) + bit (has test states x)
          ≡ count (has test states) (keys ts) + bit (test s)
    count-update test = rw (← has-update_self test states x s e) (
        count_change (has test states) (has test (update states x (state_of x s e))) x
          (has-update_ne test states x s e) (keys ts) (distinct-IsDistinct (idents ts))
          (key_of_present here))

    pub known_update :
        (id : String) → has is_present (update states x (state_of x s e)) id ≡ elem id (keys ts)
    known_update id = has-update_same is_present states x s e here id ∙ core.known id

    module _ (was_not_done : has is_done states x ≡ false) where
      -- A change that finishes nothing leaves the in-degrees right.
      degrees_update :
          is_done s ≡ false
          → (id : String)
          → deg id ≡ pos (missing (has is_done (update states x (state_of x s e))) ts id)
      degrees_update h id =
          rw (missing-update_same is_done states x s e (was_not_done ∙ sym h) ts id)
            (core.degrees id)

      -- A change to done, with the loop over `adj[x]`.
      degrees_done :
          is_done s ≡ true
          → (id : String)
          → decrement (dependents x ts) deg id
            ≡ pos (missing (has is_done (update states x (state_of x s e))) ts id)
      degrees_done h id = decrement_lem id (dependents x ts) deg _ (
          core.degrees id
          ∙ ap pos (
              missing_drop (has is_done states) (has is_done (update states x (state_of x s e))) x
                was_not_done (has-update_self is_done states x s e ∙ h)
                (has-update_ne is_done states x s e) id ts))

      -- What is missed only gets less.
      missing_le :
          (id : String)
          → missing (has is_done (update states x (state_of x s e))) ts id
            ≤ missing (has is_done states) ts id
      missing_le id = elim (Bool-cases (is_done s)) [
        | inl h ↦ omega (
          arith,
          missing_drop (has is_done states) (has is_done (update states x (state_of x s e))) x
              was_not_done (has-update_self is_done states x s e ∙ h)
              (has-update_ne is_done states x s e) id ts,
        )
        | inr h ↦
            omega (arith, missing-update_same is_done states x s e (was_not_done ∙ sym h) ts id)
      ]

      ready_update :
          (is_active s ≡ true → preset x ≡ false → missing (has is_done states) ts x ≡ 0)
          → (id : String) → preset id ≡ false
          → has is_active (update states x (state_of x s e)) id ≡ true
          → missing (has is_done (update states x (state_of x s e))) ts id ≡ 0
      ready_update started id free active = elim (Bool-cases (str_eq x id)) [
        | inl same ↦
            let p = (eq_iff x id).0 same in
            let was_ready : missing (has is_done states) ts id ≡ 0 =
              subst (λ k. missing (has is_done states) ts k ≡ 0) p
                (started
                  (sym (has-update_self is_active states x s e)
                    ∙ subst (λ k. has is_active (update states x (state_of x s e)) k ≡ true) (sym p)
                        active)
                  (subst (λ k. preset k ≡ false) (sym p) free)) in
            omega (arith, missing_le id, was_ready)
        | inr other ↦ omega (
          arith,
          missing_le id,
          core.ready id free (sym (has-update_ne is_active states x s e id other) ∙ active),
        )
      ]

  -- The five changes, each from what the tests say of the track before it.
  module _ {runs : Bool} (was : Tests runs states x) where
    counted_open :
        (s : TrackStatus)
        → is_open s ≡ true
        → n + count (has is_open (update states x (state_of x s e))) (keys ts) ≡ length (keys ts)
    counted_open s h =
        omega (arith, core.counted, count-update s was.0 is_open, ap bit was.1, ap bit h)

    counted_closed :
        (s : TrackStatus)
        → is_open s ≡ false
        → n + 1 + count (has is_open (update states x (state_of x s e))) (keys ts)
          ≡ length (keys ts)
    counted_closed s h =
        omega (arith, core.counted, count-update s was.0 is_open, ap bit was.1, ap bit h)

    backed_update :
        (s : TrackStatus) (live' : String → ℕ)
        → ((id : String)
            → live' id + bit (str_eq x id && runs) ≡ live id + bit (str_eq x id && is_running s))
        → (id : String) → live' id ≡ bit (has is_running (update states x (state_of x s e)) id)
    backed_update s live' h id = elim (Bool-cases (str_eq x id)) [
      | inl same ↦
          subst (λ k. live' k ≡ bit (has is_running (update states x (state_of x s e)) k))
            ((eq_iff x id).0 same)
            (ground (arith, h x, core.backed x, eq_refl x, has-update_self is_running states x s e))
      | inr other ↦
          ground (arith, h id, core.backed id, has-update_ne is_running states x s e id other)
    ]

    module _ (live' : String → ℕ) where
      Core-close :
          (s : TrackStatus)
          → is_open s ≡ false
          → is_active s ≡ false
          → is_done s ≡ false
          → ((id : String)
              → live' id + bit (str_eq x id && runs) ≡ live id + bit (str_eq x id && is_running s))
          → Core ts preset (update states x (state_of x s e)) deg (n + 1) live'
      Core-close s closed still unfinished lives = record {
        counted = counted_closed s closed;
        degrees = degrees_update s was.0 was.2 unfinished;
        known = known_update s was.0;
        backed = backed_update s live' lives;
        ready = ready_update s was.0 was.2 (λ a. cc);
      }

      Core-done :
          (preset x ≡ false → missing (has is_done states) ts x ≡ 0)
          → ((id : String)
              → live' id + bit (str_eq x id && runs) ≡ live id + bit (str_eq x id && false))
          → Core ts preset
              (update states x (state_of x done e))
              (decrement (dependents x ts) deg)
              (n + 1)
              live'
      Core-done was_ready lives = record {
        counted = counted_closed done refl;
        degrees = degrees_done done was.0 was.2 refl;
        known = known_update done was.0;
        backed = backed_update done live' lives;
        ready = ready_update done was.0 was.2 (λ a. was_ready);
      }

  -- pending to blocked: the cascade, the unsatisfied rest, and a skipped track with no artifact.
  pub Core-block :
      has is_pending states x ≡ true
      → Core ts preset (update states x (state_of x blocked e)) deg (n + 1) live
  Core-block h =
      Core-close (Tests-of_pending states x h) live blocked refl refl refl (λ id. ground arith)

  -- running to failed.
  pub Core-fail :
      has is_running states x ≡ true
      → (live' : String → ℕ) → ((id : String) → live' id + bit (str_eq x id) ≡ live id)
      → Core ts preset (update states x (state_of x failed e)) deg (n + 1) live'
  Core-fail h live' lives =
      Core-close (Tests-of_running states x h) live' failed refl refl refl
        (λ id. ground (arith, lives id))

  -- running to done, with the loop over `adj`.
  pub Core-finish :
      has is_running states x ≡ true
      → (live' : String → ℕ) → ((id : String) → live' id + bit (str_eq x id) ≡ live id)
      → Core ts preset
          (update states x (state_of x done e))
          (decrement (dependents x ts) deg)
          (n + 1)
          live'
  Core-finish h live' lives =
      Core-done (Tests-of_running states x h) live' (λ free. core.ready x free (ground arith))
        (λ id. ground (arith, lives id))

  -- pending to done, for a skipped track whose artifact is there.
  pub Core-skip :
      has is_pending states x ≡ true
      → preset x ≡ true
      → Core ts preset
          (update states x (state_of x done e))
          (decrement (dependents x ts) deg)
          (n + 1)
          live
  Core-skip h set =
      Core-done (Tests-of_pending states x h) live (λ free. absurd (cc)) (λ id. ground arith)

  -- pending to running, for a track with in-degree 0.
  pub Core-start :
      has is_pending states x ≡ true
      → is_zero (deg x) ≡ true
      → (live' : String → ℕ) → ((id : String) → live' id ≡ live id + bit (str_eq x id))
      → Core ts preset (update states x (state_of x running e)) deg n live'
  Core-start h zeroed live' lives =
      let was = Tests-of_pending states x h in
      record {
        counted = counted_open was running refl;
        degrees = degrees_update running was.0 was.2 refl;
        known = known_update running was.0;
        backed = backed_update was running live' (λ id. ground (arith, lives id));
        ready = ready_update running was.0 was.2 (λ a free. ground (arith, core.degrees x));
      }
