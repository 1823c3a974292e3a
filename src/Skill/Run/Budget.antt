-- ===== src/Skill/Run/Budget.antt =====
-- internal/skill/run/core.go: `BudgetTracker`. A nil tracker, which allows everything,
-- and a zero time, for which the clock is asked, are left out.
-- An int is an int64, and its sums wrap around. Times are nanoseconds since the epoch; `time.Sub`
-- does not saturate within three centuries of now.
use virmux.Prelude.{
  ltb, if◌then◌else◌, ℤ, pos, negsuc, is_zero, ℕ, ◌+◌, ◌-◌, ◌*◌, ◌%◌, ◌^◌, Bool, true, false, not,
  ◌&&◌, Option, none, some,
}
use virmux.Transport.Vsock.{int64}

pub record Budget : Type 0 where
  pub tool_calls : ℤ
  pub seconds : ℤ
  pub tokens : ℤ

pub data BudgetError : Type 0 where
  tool_calls_exceeded : ℤ → ℤ → BudgetError
  seconds_exceeded : ℤ → BudgetError
  tokens_exceeded : ℤ → ℤ → BudgetError

pub record BudgetTracker : Type 0 where
  pub most : Budget
  pub started : ℤ
  pub used_tool_calls : ℤ
  pub used_tokens : ℤ

-- x > y
abbrev pub int_gt : ℤ → ℤ → Bool
int_gt (pos m) (pos n) = ltb n m
int_gt (pos m) (negsuc n) = true
int_gt (negsuc m) (pos n) = false
int_gt (negsuc m) (negsuc n) = ltb m n

-- The bit pattern of an int64.
abbrev pub pattern_of : ℤ → ℕ
pattern_of (pos n) = n % 2 ^ 64
pattern_of (negsuc n) = 2 ^ 64 - 1 - n % 2 ^ 64

-- x + y, x - y and x * y of int64s.
abbrev pub add_int64 : ℤ → ℤ → ℤ
add_int64 x y = int64 (pattern_of x + pattern_of y)

abbrev pub sub_int64 : ℤ → ℤ → ℤ
sub_int64 x y = int64 (pattern_of x + (2 ^ 64 - pattern_of y))

abbrev pub mul_int64 : ℤ → ℤ → ℤ
mul_int64 x y = int64 (pattern_of x * pattern_of y)

unfoldable pub new_budget_tracker : Budget → ℤ → BudgetTracker
new_budget_tracker b started = record {
  most = b;
  started = started;
  used_tool_calls = pos 0;
  used_tokens = pos 0;
}

-- `none` is no error; the tracker is changed in place.
unfoldable pub before_tool_call : BudgetTracker → BudgetTracker × Option BudgetError
before_tool_call b =
    let next : ℤ = add_int64 b.used_tool_calls (pos 1) in
    if int_gt b.most.tool_calls (pos 0) && int_gt next b.most.tool_calls
    then (b, some (tool_calls_exceeded next b.most.tool_calls))
    else if is_zero b.most.tool_calls
    then (b, some (tool_calls_exceeded (pos 1) (pos 0)))
    else (record b { used_tool_calls = next }, none)

unfoldable pub check_elapsed : BudgetTracker → ℤ → Option BudgetError
check_elapsed b now =
    if not (int_gt b.most.seconds (pos 0))
    then none
    else if int_gt (sub_int64 now b.started) (mul_int64 b.most.seconds (pos 1000000000))
    then some (seconds_exceeded b.most.seconds)
    else none

-- `if n < 0 { n = 0 }`
abbrev pub at_least_zero : ℤ → ℤ
at_least_zero (pos n) = pos n
at_least_zero (negsuc n) = pos 0

unfoldable pub count_token : BudgetTracker → ℤ → BudgetTracker × Option BudgetError
count_token b n =
    let next : ℤ = add_int64 b.used_tokens (at_least_zero n) in
    if not (int_gt b.most.tokens (pos 0))
    then (b, none)
    else if int_gt next b.most.tokens
    then (b, some (tokens_exceeded next b.most.tokens))
    else (record b { used_tokens = next }, none)
