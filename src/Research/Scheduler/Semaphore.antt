-- ===== src/Research/Scheduler/Semaphore.antt =====
-- internal/skill/research/scheduler.go: the semaphore, whose places are free or with the workers that
-- are behind `sem.Acquire`.
use virmux.Prelude.{
  ltb, ◌==◌, length, ℤ, pos, negsuc, ℕ, zero, suc, ◌+◌, ◌<◌, String, ◌≡◌, refl, ap, false, List, [],
  ◌∷◌, ◌++◌, arith, if_ind,
}
use virmux.Research.Plan.{Track}
use virmux.Research.Scheduler.{Machine, collect_ready}
use virmux.Research.Scheduler.Run.{
  Phase, acquiring, mapping, retrying, Worker, Config, launch, concurrency, begin, scan,
  idle_section, finish, Step, main_scan, main_idle, no_place, place, retry, finish_first,
  finish_second, Reach, here, next,
}

abbrev pub places : Phase → ℕ
places acquiring = 0
places mapping = 1
places retrying = 1

-- How many workers have a place.
abbrev pub holders : List Worker → ℕ
holders [] = 0
holders (w ∷ ws) = places w.phase + holders ws

holders-append : (xs ys : List Worker) → holders (xs ++ ys) ≡ holders xs + holders ys
holders-append [] ys = omega arith
holders-append (w ∷ ws) ys = omega (arith, holders-append ws ys)

holders-launch : (ids : List String) → holders (launch ids) ≡ 0
holders-launch [] = refl
holders-launch (i ∷ ids) = omega (arith, holders-launch ids)

module _ (limit : ℤ) where
  -- No place is lost.
  abbrev pub IsHeld : Config → Type 0
  IsHeld c = c.free + holders c.workers ≡ concurrency limit

  holders-split :
      (c : Config) (before after : List Worker) (w v : Worker)
      → c.workers ≡ before ++ w ∷ after
      → (holders c.workers ≡ places w.phase + holders (before ++ after))
        × (holders (before ++ v ∷ after) ≡ places v.phase + holders (before ++ after))
  holders-split c before after w v split = (
    omega (arith, ap holders split, holders-append before (w ∷ after), holders-append before after),
    omega (arith, holders-append before (v ∷ after), holders-append before after),
  )

  module _ (ts : List Track) (c : Config) (held : IsHeld c) where
    scan-IsHeld : IsHeld (scan ts c)
    unfolding scan
    scan-IsHeld =
        if_ind IsHeld (c.machine.completed_count == length ts) (λ h. held)
          (λ h. omega (
            arith,
            held,
            holders-append c.workers (launch (collect_ready ts c.machine).0),
            holders-launch (collect_ready ts c.machine).0,
          ))

    idle_section-IsHeld : IsHeld (idle_section ts c)
    unfolding idle_section
    idle_section-IsHeld =
        if_ind IsHeld (ltb c.machine.completed_count (length ts))
          (λ h. if_ind IsHeld (c.machine.running_count == 0) (λ q. held) (λ q. held)) (λ h. held)

    pub Step-IsHeld : (d : Config) → Step ts c d → IsHeld d
    unfolding finish
    Step-IsHeld d (main_scan p e) = rw e scan-IsHeld
    Step-IsHeld d (main_idle p e) = rw e idle_section-IsHeld
    Step-IsHeld d (no_place before after id msg split e) = rw e (
        omega (
          arith,
          held,
          holders-split c before after _ (record { id = id; phase = acquiring }) split,
        ))
    Step-IsHeld d (place before after id split some_free e) = rw e (
        omega (
          arith,
          held,
          some_free,
          holders-split c before after _ (record { id = id; phase = mapping }) split,
        ))
    Step-IsHeld d (retry before after id a split r e) = rw e (
        omega (
          arith,
          held,
          holders-split c before after _ (record { id = id; phase = retrying }) split,
        ))
    Step-IsHeld d (finish_first before after id a split r e) = rw e (
        omega
          (arith, held, holders-split c before after _ (record { id = id; phase = mapping }) split))
    Step-IsHeld d (finish_second before after id a split e) = rw e (
        omega
          (arith, held, holders-split c before after _ (record { id = id; phase = mapping }) split))

  pub Reach-IsHeld :
      (ts : List Track) (m : Machine) (c : Config) → Reach ts (begin limit m) c → IsHeld c
  unfolding begin
  Reach-IsHeld ts m c here = omega arith
  Reach-IsHeld ts m c (next {d = b} r st) = Step-IsHeld ts b (Reach-IsHeld ts m b r) c st

pub concurrency_positive : (limit : ℤ) → 0 < concurrency limit
concurrency_positive (pos zero) = omega arith
concurrency_positive (pos (suc n)) = omega arith
concurrency_positive (negsuc n) = omega arith

-- Where no place is free, some worker has one.
pub some_holder :
    (limit : ℤ) (c : Config) → IsHeld limit c → ltb 0 c.free ≡ false → 0 < holders c.workers
some_holder limit c held h = ground (arith, held, h, concurrency_positive limit)
