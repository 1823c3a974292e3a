-- ===== src/Research/Scheduler/Cascade.antt =====
-- internal/skill/research/scheduler.go: the closure `cascade` and the end of a worker.
use virmux.Prelude.{
  if◌then◌else◌, bit, Bool-cases, ℤ, ℕ, zero, suc, ◌+◌, ◌≤◌, String, ◌≡◌, sym, ap, subst, inl, inr,
  Bool, true, List, [], ◌∷◌, arith,
}
use virmux.Research.Plan.{Track}
use virmux.Research.Scheduler.{
  blocked, dependency_failed, States, Machine, is_pending, has, block_dependent, visit_dependent,
  cascade_over, cascade,
}
use virmux.Research.Scheduler.Core.{is_bad, Core, has-update_self, has-update}
use virmux.Research.Scheduler.Moves.{present_of_has, Core-block, count-update}
use virmux.Research.Scheduler.Loops.{pending_count}

-- A rule for the cascade: `P` is kept by each blocked dependent of a failed or blocked track.
module _ {ℓ} (adj : String → List String) (P : Machine → Type ℓ) where
  abbrev pub Kept : Type ℓ
  Kept =
      (id d : String) (m : Machine)
      → has is_bad m.states id ≡ true
      → has is_pending m.states d ≡ true
      → P m
      → P (block_dependent id d m)

  -- `again` keeps `P`, and leaves what has failed or is blocked so.
  abbrev Good : (String → Machine → Machine) → Type ℓ
  Good again =
      (id : String) (m : Machine)
      → has is_bad m.states id ≡ true
      → P m
      → P (again id m)
        × ((j : String) → has is_bad m.states j ≡ true → has is_bad (again id m).states j ≡ true)

  bad-block_dependent :
      (id d j : String) (m : Machine)
      → has is_bad m.states j ≡ true
      → has is_bad (block_dependent id d m).states j ≡ true
  unfolding block_dependent
  bad-block_dependent id d j m h =
      ground (arith, has-update is_bad m.states d blocked (dependency_failed id) j)

  blocked-block_dependent :
      (id d : String) (m : Machine) → has is_bad (block_dependent id d m).states d ≡ true
  unfolding block_dependent
  blocked-block_dependent id d m = has-update_self is_bad m.states d blocked (dependency_failed id)

  module _ (keep : Kept) where
    visit_dependent_inv :
        (again : String → Machine → Machine)
        → Good again
        → (d : String) → Good (λ id m. visit_dependent again id d m)
    unfolding visit_dependent
    visit_dependent_inv again good d id m bad p = elim (Bool-cases (has is_pending m.states d)) [
      | inl h ↦
          let blocked_m : Machine = block_dependent id d m in
          let (q, grows) =
            good d blocked_m (blocked-block_dependent id d m) (keep id d m bad h p) in
          subst
            (λ m'.
              P m' × ((j : String) → has is_bad m.states j ≡ true → has is_bad m'.states j ≡ true))
            (sym (ap (λ b. if b then again d blocked_m else m) h))
            (q, λ j b. grows j (bad-block_dependent id d j m b))
      | inr h ↦
          subst
            (λ m'.
              P m' × ((j : String) → has is_bad m.states j ≡ true → has is_bad m'.states j ≡ true))
            (sym (ap (λ b. if b then again d (block_dependent id d m) else m) h)) (p, λ j b. b)
    ]

    cascade_over_inv :
        (again : String → Machine → Machine)
        → Good again
        → (ds : List String) → Good (λ id m. cascade_over again id ds m)
    unfolding cascade_over
    cascade_over_inv again good [] id m bad p = (p, λ j h. h)
    cascade_over_inv again good (d ∷ ds) id m bad p =
        let (q, grows) = visit_dependent_inv again good d id m bad p in
        let (r, grows') =
          cascade_over_inv again good ds id (visit_dependent again id d m) (grows id bad) q in
        (r, λ j b. grows' j (grows j b))

    pub cascade_inv : (fuel : ℕ) → Good (cascade adj fuel)
    unfolding cascade
    cascade_inv zero id m bad p = (p, λ j h. h)
    cascade_inv (suc fuel) id m bad p =
        cascade_over_inv (cascade adj fuel) (cascade_inv fuel) (adj id) id m bad p

-- `Core` with `k` tracks that are still to be counted.
abbrev pub CoreAt : ℕ → List Track → (String → Bool) → Machine → (String → ℕ) → Type 0
CoreAt k ts preset m live = Core ts preset m.states m.in_degree (m.completed_count + k) live

module _ (ts : List Track) (preset : String → Bool) (live : String → ℕ) where
  pub Core-count :
      {states : States} {deg : String → ℤ} {n n' : ℕ}
      → n ≡ n'
      → Core ts preset states deg n live
      → Core ts preset states deg n' live
  Core-count {states} {deg} e core = subst (λ k. Core ts preset states deg k live) e core

  -- The invariant, and that no more tracks are pending than before.
  abbrev Bounded : ℕ → ℕ → Machine → Type 0
  Bounded k most m = CoreAt k ts preset m live × (pending_count ts m ≤ most)

  block_dependent-Bounded :
      (k most : ℕ) (id d : String) (m : Machine)
      → has is_pending m.states d ≡ true
      → Bounded k most m
      → Bounded k most (block_dependent id d m)
  unfolding block_dependent
  block_dependent-Bounded k most id d m h (core, le) = (
    Core-count (omega arith) (
        Core-block ts preset m.states m.in_degree (m.completed_count + k) live d
          (dependency_failed id) core h),
    omega (
      arith,
      le,
      ap bit h,
      count-update ts preset m.states m.in_degree (m.completed_count + k) live d
          (dependency_failed id) core blocked (present_of_has is_pending m.states d h) is_pending,
    ),
  )

  pub cascade-Core :
      (adj : String → List String) (k fuel : ℕ) (id : String) (m : Machine)
      → has is_bad m.states id ≡ true
      → CoreAt k ts preset m live
      → CoreAt k ts preset (cascade adj fuel id m) live
        × (pending_count ts (cascade adj fuel id m) ≤ pending_count ts m)
  cascade-Core adj k fuel id m bad core =
      (cascade_inv adj (Bounded k (pending_count ts m))
        (λ id d m' b h c. block_dependent-Bounded k _ id d m' h c) fuel id m bad
        (core, omega arith)).0
