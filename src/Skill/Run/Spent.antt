-- ===== src/Skill/Run/Spent.antt =====
-- internal/skill/run/core.go: the budget that a run spends, against an account in natural numbers.
use virmux.Prelude.{
  ltb, leb, if◌then◌else◌, All, ℤ, pos, negsuc, ℕ, suc, ◌+◌, ◌^◌, ◌≤◌, ◌<◌, ◌≡◌, refl, Bool, true,
  false, Option, none, some, List, [], ◌∷◌, arith, if_ind,
}
use virmux.Skill.Run.Budget.{
  Budget, BudgetError, BudgetTracker, add_int64, at_least_zero, new_budget_tracker,
  before_tool_call, count_token,
}

-- What a run asks the tracker for.
pub data Request : Type 0 where
  tool_call : Request
  tokens : ℤ → Request

abbrev pub granted : BudgetTracker × Option BudgetError → BudgetTracker × Bool
granted (b, none) = (b, true)
granted (b, some e) = (b, false)

abbrev pub ask : Request → BudgetTracker → BudgetTracker × Bool
ask tool_call b = granted (before_tool_call b)
ask (tokens n) b = granted (count_token b n)

-- The answers to a sequence of requests, and the tracker behind them.
abbrev pub ask_all : List Request → BudgetTracker → BudgetTracker × List Bool
ask_all [] b = (b, [])
ask_all (r ∷ rs) b =
    let (b', answer) = ask r b in let (b'', more) = ask_all rs b' in (b'', answer ∷ more)

-- The account: what is spent of `most_calls` and `most_tokens`.
pub record Account : Type 0 where
  pub calls_spent : ℕ
  pub tokens_spent : ℕ

abbrev pub amount : ℤ → ℕ
amount (pos n) = n
amount (negsuc n) = 0

module _ (most_calls most_tokens : ℕ) where
  abbrev pub pay : Request → Account → Account × Bool
  pay tool_call a =
      if ltb a.calls_spent most_calls
      then (record a { calls_spent = suc a.calls_spent }, true)
      else (a, false)
  pay (tokens n) a =
      if leb (a.tokens_spent + amount n) most_tokens
      then (record a { tokens_spent = a.tokens_spent + amount n }, true)
      else (a, false)

  abbrev pub pay_all : List Request → Account → Account × List Bool
  pay_all [] a = (a, [])
  pay_all (r ∷ rs) a =
      let (a', answer) = pay r a in let (a'', more) = pay_all rs a' in (a'', answer ∷ more)

  -- The tracker has these limits, and what is spent lies within them.
  pub record Represents (a : Account) (b : BudgetTracker) : Type 0 where
    pub call_limit : b.most.tool_calls ≡ pos most_calls
    pub token_limit : b.most.tokens ≡ pos most_tokens
    pub calls_used : b.used_tool_calls ≡ pos a.calls_spent
    pub tokens_used : b.used_tokens ≡ pos a.tokens_spent
    pub calls_within : a.calls_spent ≤ most_calls
    pub tokens_within : a.tokens_spent ≤ most_tokens

  -- The same answer, and the tracker shows the account.
  pub Agrees : {Answer : Type 0} → BudgetTracker × Answer → Account × Answer → Type 0
  Agrees asked paid = (asked.1 ≡ paid.1) × Represents paid.0 asked.0

  -- A request whose sum does not overflow.
  abbrev pub Fits : Request → Type 0
  Fits tool_call = most_calls + 1 < 2 ^ 63
  Fits (tokens n) = most_tokens + amount n < 2 ^ 63

add_pos : (m n : ℕ) → m + n < 2 ^ 63 → add_int64 (pos m) (pos n) ≡ pos (m + n)
add_pos m n h = ground arith

at_least_zero_pos : (n : ℤ) → at_least_zero n ≡ pos (amount n)
at_least_zero_pos (pos n) = refl
at_least_zero_pos (negsuc n) = refl

module _ (most_calls most_tokens : ℕ) (some_tokens : 0 < most_tokens) where
  before_tool_call-granted :
      (a : Account) (b : BudgetTracker)
      → most_calls + 1 < 2 ^ 63
      → Represents most_calls most_tokens a b
      → ltb a.calls_spent most_calls ≡ true
      → before_tool_call b ≡ (record b { used_tool_calls = pos (suc a.calls_spent) }, none)
  unfolding before_tool_call
  before_tool_call-granted a b fits rep h =
      rw (rep.call_limit, before_tool_call)
        (rw (rep.calls_used, before_tool_call) (ground (arith, h, add_pos a.calls_spent 1)))

  before_tool_call-refused :
      (a : Account) (b : BudgetTracker)
      → most_calls + 1 < 2 ^ 63
      → Represents most_calls most_tokens a b
      → ltb a.calls_spent most_calls ≡ false
      → granted (before_tool_call b) ≡ (b, false)
  unfolding before_tool_call
  before_tool_call-refused a b fits rep h =
      rw (rep.call_limit, before_tool_call)
        (rw (rep.calls_used, before_tool_call) (ground (arith, h, add_pos a.calls_spent 1)))

  count_token-granted :
      (n : ℤ) (a : Account) (b : BudgetTracker)
      → most_tokens + amount n < 2 ^ 63
      → Represents most_calls most_tokens a b
      → leb (a.tokens_spent + amount n) most_tokens ≡ true
      → count_token b n ≡ (record b { used_tokens = pos (a.tokens_spent + amount n) }, none)
  unfolding count_token
  count_token-granted n a b fits rep h =
      rw (rep.token_limit, count_token)
        (rw (rep.tokens_used, count_token)
          (rw (at_least_zero_pos n, count_token)
            (ground (arith, h, add_pos a.tokens_spent (amount n)))))

  count_token-refused :
      (n : ℤ) (a : Account) (b : BudgetTracker)
      → most_tokens + amount n < 2 ^ 63
      → Represents most_calls most_tokens a b
      → leb (a.tokens_spent + amount n) most_tokens ≡ false
      → granted (count_token b n) ≡ (b, false)
  unfolding count_token
  count_token-refused n a b fits rep h =
      rw (rep.token_limit, count_token)
        (rw (rep.tokens_used, count_token)
          (rw (at_least_zero_pos n, count_token)
            (ground (arith, h, add_pos a.tokens_spent (amount n)))))

  ask-pay :
      (r : Request) (a : Account) (b : BudgetTracker)
      → Fits most_calls most_tokens r
      → Represents most_calls most_tokens a b
      → Agrees most_calls most_tokens (ask r b) (pay most_calls most_tokens r a)
  unfolding Agrees
  ask-pay tool_call a b fits rep =
      if_ind (Agrees most_calls most_tokens (ask tool_call b)) (ltb a.calls_spent most_calls)
        (λ h. rw (before_tool_call-granted a b fits rep h) (
          refl,
          record {
            call_limit = rep.call_limit;
            token_limit = rep.token_limit;
            calls_used = refl;
            tokens_used = rep.tokens_used;
            calls_within = ground (arith, h);
            tokens_within = rep.tokens_within;
          },
        ))
        (λ h. rw (before_tool_call-refused a b fits rep h) (refl, rep))
  ask-pay (tokens n) a b fits rep =
      if_ind (Agrees most_calls most_tokens (ask (tokens n) b))
        (leb (a.tokens_spent + amount n) most_tokens)
        (λ h. rw (count_token-granted n a b fits rep h) (
          refl,
          record {
            call_limit = rep.call_limit;
            token_limit = rep.token_limit;
            calls_used = rep.calls_used;
            tokens_used = refl;
            calls_within = rep.calls_within;
            tokens_within = ground (arith, h);
          },
        ))
        (λ h. rw (count_token-refused n a b fits rep h) (refl, rep))

  ask_all-pay_all :
      (rs : List Request) (a : Account) (b : BudgetTracker)
      → All (Fits most_calls most_tokens) rs
      → Represents most_calls most_tokens a b
      → Agrees most_calls most_tokens (ask_all rs b) (pay_all most_calls most_tokens rs a)
  unfolding Agrees
  ask_all-pay_all [] a b fits rep = (refl, rep)
  ask_all-pay_all (r ∷ rs) a b fits rep =
      let one = ask-pay r a b fits.0 rep in
      let rest = ask_all-pay_all rs (pay most_calls most_tokens r a).0 (ask r b).0 fits.1 one.1 in
      (cc, rest.1)

-- A new tracker answers any tool calls and tokens as an account in natural numbers does that grants
-- a call while fewer than `ToolCalls` were granted, and tokens while their sum stays within `Tokens`;
-- what it shows as used is what was granted. The limits are not negative, `Tokens` is not 0, and no
-- sum exceeds an int64.
pub new_budget_tracker-Agrees :
    (budget : Budget) (started : ℤ) (most_calls most_tokens : ℕ) (rs : List Request)
    → budget.tool_calls ≡ pos most_calls
    → budget.tokens ≡ pos most_tokens
    → 0 < most_tokens
    → All (Fits most_calls most_tokens) rs
    → Agrees most_calls most_tokens
        (ask_all rs (new_budget_tracker budget started))
        (pay_all most_calls most_tokens rs (record { calls_spent = 0; tokens_spent = 0 }))
unfolding new_budget_tracker
new_budget_tracker-Agrees budget started most_calls most_tokens rs calls limit some_tokens fits =
    ask_all-pay_all most_calls most_tokens some_tokens rs
      (record { calls_spent = 0; tokens_spent = 0 }) (new_budget_tracker budget started) fits
      (record {
        call_limit = calls;
        token_limit = limit;
        calls_used = refl;
        tokens_used = refl;
        calls_within = omega arith;
        tokens_within = omega arith;
      })
