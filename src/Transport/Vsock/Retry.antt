-- ===== src/Transport/Vsock/Retry.antt =====
-- internal/transport/vsock/vsock.go: what each outcome of the retries says of the attempts.
use virmux.Prelude.{
  ltb, ◌==◌, if◌then◌else◌, ==_iff, Bool-cases, ℤ, pos, negsuc, ℕ, zero, suc, ◌+◌, ◌-◌, ◌*◌, ◌%◌,
  ◌^◌, ◌≤◌, ◌<◌, String, ◌≡◌, refl, sym, subst, inl, inr, Bool, true, false, Option, none, some,
  arith, if_ind,
}
use virmux.Transport.Vsock.{
  DialError, Dialed, dialed, failed, is_retryable, RetryPolicy, Policy, normalize,
  backoff_for_attempt, int64, Outcome, connected, non_retryable, interrupted, exhausted, dial_loop,
  dial_with_retry,
}

module _ (dial : ℕ → Dialed) (sleep : ℕ → ℤ → Option String) (p : Policy) where
  -- Attempt `j` failed in a way that may be retried.
  abbrev pub Retryable : ℕ → DialError → Type 0
  Retryable j e = (closed : Bool) × (dial j ≡ failed e closed) × (is_retryable e ≡ true)

  -- Attempt `j` failed so, and its wait was not cut off.
  abbrev pub Passed : ℕ → Type 0
  Passed j = ((e : DialError) × Retryable j e) × (sleep j (backoff_for_attempt p j) ≡ none)

  abbrev pub AllPassed : ℕ → ℕ → Type 0
  AllPassed from k = (j : ℕ) → from ≤ j → j < k → Passed j

  -- How the loop ends that may make the attempts `from` to `last`.
  abbrev pub Ends : ℕ → ℕ → Outcome → Type 0
  Ends from last (connected k) = (from ≤ k) × (k ≤ last) × (dial k ≡ dialed) × AllPassed from k
  Ends from last (non_retryable k e) =
      (from ≤ k)
      × (k ≤ last)
      × ((closed : Bool) × (dial k ≡ failed e closed) × (is_retryable e ≡ false))
      × AllPassed from k
  Ends from last (interrupted k stop) =
      (from ≤ k)
      × (k < last)
      × ((e : DialError) × Retryable k e)
      × (sleep k (backoff_for_attempt p k) ≡ some stop)
      × AllPassed from k
  Ends from last (exhausted k e) = (k ≡ last) × Retryable k e × AllPassed from k

  none_before : (from : ℕ) → AllPassed from from
  none_before from j le lt = absurd (omega arith)

  one_more : (from k : ℕ) → Passed from → AllPassed (from + 1) k → AllPassed from k
  one_more from k first rest j le lt = elim (Bool-cases (j == from)) [
    | inl same ↦ subst Passed (sym ((==_iff j from).0 same)) first
    | inr other ↦ rest j (ground arith) lt
  ]

  Ends-step :
      (from last : ℕ) → Passed from → (o : Outcome) → Ends (from + 1) last o → Ends from last o
  Ends-step from last first (connected k) h = (omega arith, h.1, h.2, one_more from k first h.3)
  Ends-step from last first (non_retryable k e) h =
      (omega arith, h.1, h.2, one_more from k first h.3)
  Ends-step from last first (interrupted k stop) h =
      (omega arith, h.1, h.2, h.3, one_more from k first h.4)
  Ends-step from last first (exhausted k e) h = (h.0, h.1, one_more from k first h.2)

  dial_loop-Ends :
      (left from last : ℕ) → from + left ≡ last → Ends from last (dial_loop dial sleep p left from)
  unfolding dial_loop
  dial_loop-Ends zero from last e = attempt (dial from) refl
    where
      attempt :
          (d : Dialed)
          → dial from ≡ d
          → Ends from last (elim d [
            | dialed ↦ connected from
            | failed e closed ↦ if is_retryable e then exhausted from e else non_retryable from e
          ])
      attempt dialed q = (omega arith, omega arith, q, none_before from)
      attempt (failed why closed) q =
          if_ind (Ends from last) (is_retryable why)
            (λ r. (omega arith, (closed, q, r), none_before from))
            (λ r. (omega arith, omega arith, (closed, q, r), none_before from))
  dial_loop-Ends (suc left) from last e =
      attempt (dial from) refl (dial_loop dial sleep p left (from + 1))
        (dial_loop-Ends left (from + 1) last (omega arith))
    where
      waited :
          (s : Option String)
          → sleep from (backoff_for_attempt p from) ≡ s
          → (why : DialError) → Retryable from why
          → (rest : Outcome) → Ends (from + 1) last rest
          → Ends from last (elim s [ some stop ↦ interrupted from stop | none ↦ rest ])
      waited (some stop) q why r rest h = (omega arith, omega arith, (why, r), q, none_before from)
      waited none q why r rest h = Ends-step from last ((why, r), q) rest h

      judged :
          (b : Bool) (why : DialError) (closed : Bool)
          → dial from ≡ failed why closed
          → is_retryable why ≡ b
          → (rest : Outcome) → Ends (from + 1) last rest
          → Ends from last (elim b [
            | false ↦ non_retryable from why
            | true ↦ elim (sleep from (backoff_for_attempt p from)) [
              | some stop ↦ interrupted from stop
              | none ↦ rest
            ]
          ])
      judged false why closed q r rest h =
          (omega arith, omega arith, (closed, q, r), none_before from)
      judged true why closed q r rest h = waited _ refl why (closed, q, r) rest h

      attempt :
          (d : Dialed)
          → dial from ≡ d
          → (rest : Outcome) → Ends (from + 1) last rest
          → Ends from last (elim d [
            | dialed ↦ connected from
            | failed why closed ↦ elim (is_retryable why) [
              | false ↦ non_retryable from why
              | true ↦ elim (sleep from (backoff_for_attempt p from)) [
                | some stop ↦ interrupted from stop
                | none ↦ rest
              ]
            ]
          ])
      attempt dialed q rest h = (omega arith, omega arith, q, none_before from)
      attempt (failed why closed) q rest h = judged _ why closed q refl rest h

normalize_lem :
    (policy : RetryPolicy)
    → (0 < (normalize policy).attempts)
      × (0 < (normalize policy).base)
      × ((normalize policy).base ≤ (normalize policy).most)
unfolding normalize
normalize_lem policy = ground arith

-- Every attempt but the last one made failed in a way that may be retried, and was followed by a
-- wait that ran to its end; the last one gives the outcome. There is at least one attempt and at
-- most `MaxAttempts`, and only a run of all of them is reported as exhausted.
pub dial_with_retry-Ends :
    (dial : ℕ → Dialed) (sleep : ℕ → ℤ → Option String) (policy : RetryPolicy)
    → Ends dial sleep
        (normalize policy)
        1
        (normalize policy).attempts
        (dial_with_retry dial sleep policy)
unfolding dial_with_retry
dial_with_retry-Ends dial sleep policy =
    dial_loop-Ends dial sleep (normalize policy) ((normalize policy).attempts - 1) 1 _
      (omega (arith, normalize_lem policy))

int64_small : (n : ℕ) → n < 2 ^ 63 → int64 n ≡ pos n
int64_small n h =
    let whole : n % 2 ^ 64 ≡ n = omega arith in
    subst (λ w. (if ltb w (2 ^ 63) then pos w else negsuc (2 ^ 64 - w - 1)) ≡ pos n) (sym whole)
      (ground arith)

base_le_step : (attempt base : ℕ) → 0 < attempt → base ≤ attempt * attempt * base
base_le_step attempt base h = let square : 1 ≤ attempt * attempt = grind arith in grind arith

module _ (p : Policy) (attempt : ℕ) (fits : attempt * attempt * p.base < 2 ^ 63) where
  backoff_over :
      ltb p.most (attempt * attempt * p.base) ≡ true → backoff_for_attempt p attempt ≡ pos p.most
  unfolding backoff_for_attempt
  backoff_over h = rw (int64_small _ fits) (rw h refl)

  backoff_under :
      ltb p.most (attempt * attempt * p.base) ≡ false
      → backoff_for_attempt p attempt ≡ pos (attempt * attempt * p.base)
  unfolding backoff_for_attempt
  backoff_under h = rw (int64_small _ fits) (rw h refl)

-- Unless the product leaves int64, the wait behind attempt n is n * n times the base, or the
-- maximum where that is less, so it is positive and never above the maximum.
pub backoff_lem :
    (policy : RetryPolicy) (attempt : ℕ)
    → 0 < attempt
    → attempt * attempt * (normalize policy).base < 2 ^ 63
    → (d : ℕ) × (backoff_for_attempt (normalize policy) attempt ≡ pos d)
      × (0 < d)
      × (d ≤ (normalize policy).most)
      × (d ≡ (
          if ltb (normalize policy).most (attempt * attempt * (normalize policy).base)
          then (normalize policy).most
          else attempt * attempt * (normalize policy).base))
backoff_lem policy attempt started fits =
    let p = normalize policy in
    let step : ℕ = attempt * attempt * p.base in
    let grows : p.base ≤ step = base_le_step attempt p.base started in
    elim (Bool-cases (ltb p.most step)) [
      | inl over ↦ (
        p.most,
        backoff_over p attempt fits over,
        omega (arith, normalize_lem policy),
        omega arith,
        rw over refl,
      )
      | inr under ↦ (
        step,
        backoff_under p attempt fits under,
        omega (arith, normalize_lem policy, grows),
        ground (arith, under),
        rw under refl,
      )
    ]
