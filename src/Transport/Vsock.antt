-- ===== src/Transport/Vsock.antt =====
-- internal/transport/vsock/vsock.go: the dialer with its handshake and its retries.
-- What an error is, as `errors.Is` and `errors.As` answer, is the record `DialError`. The network,
-- the clock and the context are parameters: `dial n` is what attempt `n` finds, and `sleep n d` the
-- error, if any, of the wait of `d` nanoseconds behind it. `HandshakeMS` is left out.
pub mod Retry
use text.Mathlib.Text.{starts_with, find?}
use Prim.Native.String.{String}
use virmux.Prelude.{
  ltb, ◌==◌, if◌then◌else◌, Result, ok, err, ℤ, pos, negsuc, ℕ, zero, suc, ◌+◌, ◌-◌, ◌*◌, ◌%◌, ◌^◌,
  Bool, true, false, ◌||◌, Option, none, some,
}

-- The system call errors that `isRetryable` names.
pub data Errno : Type 0 where
  econnrefused enoent epipe econnreset other_errno : Errno

-- *net.OpError
pub record OpError : Type 0 where
  pub timeout : Bool
  pub errno : Option Errno

pub record DialError : Type 0 where
  pub connect_ack : Bool
  pub canceled : Bool
  pub deadline_exceeded : Bool
  pub eof : Bool
  pub unexpected_eof : Bool
  pub op_error : Option OpError
  pub not_exist : Bool
  -- strings.ToLower(err.Error())
  pub message : String

retryable_errno : Errno → Bool
retryable_errno other_errno = false
retryable_errno _ = true

contains : String → String → Bool
contains s t = elim (find? s t) [ none ↦ false | some i ↦ true ]

retryable_message : String → Bool
unfolding contains
retryable_message msg =
    contains msg "connection reset"
    || contains msg "broken pipe"
    || contains msg "refused"
    || contains msg "no such file"

-- The tests behind the one for `*net.OpError`.
retryable_rest : DialError → Bool
unfolding retryable_message
retryable_rest e = if e.not_exist then true else retryable_message e.message

retryable_op : DialError → Option OpError → Bool
unfolding retryable_errno retryable_rest
retryable_op e none = retryable_rest e
retryable_op e (some op) =
    if op.timeout
    then true
    else elim op.errno [ none ↦ retryable_rest e | some errno ↦ retryable_errno errno ]

unfoldable pub is_retryable : DialError → Bool
unfolding retryable_op
is_retryable e =
    if e.connect_ack
    then false
    else if e.canceled
    then false
    else if e.deadline_exceeded
    then true
    else if e.eof || e.unexpected_eof
    then true
    else retryable_op e e.op_error

-- One attempt: what the dialer and the handshake gave, and whether the connection was closed.
pub data Dialed : Type 0 where
  dialed : Dialed
  failed : DialError → (closed : Bool) → Dialed

-- ErrConnectAck; `isRetryable` does not come to its message, which stands without what was got.
ack_mismatch : DialError
ack_mismatch = record {
  connect_ack = true;
  canceled = false;
  deadline_exceeded = false;
  eof = false;
  unexpected_eof = false;
  op_error = none;
  not_exist = false;
  message = "vsock connect ack mismatch";
}

-- `Dial`: `connect` is the error of `DialContext`, `ack` what `sendConnectAndReadAck` returns.
unfoldable pub dial_once : Option DialError → Result DialError String → Dialed
unfolding ack_mismatch
dial_once (some e) ack = failed e false
dial_once none (err e) = failed e true
dial_once none (ok ack) = if starts_with ack "OK " then dialed else failed ack_mismatch true

-- In nanoseconds.
pub record RetryPolicy : Type 0 where
  pub max_attempts : ℤ
  pub base_backoff : ℤ
  pub max_backoff : ℤ

abbrev is_positive : ℤ → Bool
is_positive (pos n) = ltb 0 n
is_positive (negsuc n) = false

abbrev pub magnitude : ℤ → ℕ
magnitude (pos n) = n
magnitude (negsuc n) = 0

-- The policy behind the defaults of `DialWithRetry`: at least one attempt, and 0 < base ≤ max.
pub record Policy : Type 0 where
  pub attempts : ℕ
  pub base : ℕ
  pub most : ℕ

unfoldable pub normalize : RetryPolicy → Policy
normalize p =
    let base = if is_positive p.base_backoff then magnitude p.base_backoff else 25_000_000 in
    record {
      attempts = if is_positive p.max_attempts then magnitude p.max_attempts else 1;
      base = base;
      most = if ltb (magnitude p.max_backoff) base then base else magnitude p.max_backoff;
    }

abbrev pub default_retry_policy : RetryPolicy
default_retry_policy = record {
  max_attempts = pos 12;
  base_backoff = pos 25_000_000;
  max_backoff = pos 800_000_000;
}

-- The value of an int64 bit pattern.
abbrev pub int64 : ℕ → ℤ
int64 n = let w : ℕ = n % 2 ^ 64 in if ltb w (2 ^ 63) then pos w else negsuc (2 ^ 64 - w - 1)

abbrev pub above : ℤ → ℕ → Bool
above (pos n) m = ltb m n
above (negsuc n) m = false

-- time.Duration(attempt*attempt) * policy.BaseBackoff, capped.
unfoldable pub backoff_for_attempt : Policy → ℕ → ℤ
backoff_for_attempt p attempt =
    let step = int64 (attempt * attempt * p.base) in if above step p.most then pos p.most else step

-- The outcomes of `DialWithRetry`, with `Stats.Attempts`.
pub data Outcome : Type 0 where
  connected : ℕ → Outcome
  non_retryable : ℕ → DialError → Outcome
  interrupted : ℕ → String → Outcome
  exhausted : ℕ → DialError → Outcome

module _ (dial : ℕ → Dialed) (sleep : ℕ → ℤ → Option String) (p : Policy) where
  -- The loop at `attempt`, with `left` attempts behind it. What `rest` binds is run only if the wait
  -- went well.
  unfoldable pub dial_loop : ℕ → ℕ → Outcome
  dial_loop zero attempt = elim (dial attempt) [
    | dialed ↦ connected attempt
    | failed e closed ↦ if is_retryable e then exhausted attempt e else non_retryable attempt e
  ]
  dial_loop (suc left) attempt =
      let rest = dial_loop left (attempt + 1) in
      elim (dial attempt) [
        | dialed ↦ connected attempt
        | failed e closed ↦ elim (is_retryable e) [
          | false ↦ non_retryable attempt e
          | true ↦ elim (sleep attempt (backoff_for_attempt p attempt)) [
            | some stop ↦ interrupted attempt stop
            | none ↦ rest
          ]
        ]
      ]

unfoldable pub dial_with_retry : (ℕ → Dialed) → (ℕ → ℤ → Option String) → RetryPolicy → Outcome
unfolding dial_loop
dial_with_retry dial sleep policy =
    let p = normalize policy in dial_loop dial sleep p (p.attempts - 1) 1

-- `dialAttemptContext`: the timeout of an attempt, in nanoseconds, or the parent context as it is.
-- `done` says that the parent has an error, `remaining` is the time until its deadline.
unfoldable pub dial_attempt_context : (done : Bool) → (remaining : Option ℤ) → Option ℕ
dial_attempt_context true remaining = none
dial_attempt_context false none = some 2_000_000_000
dial_attempt_context false (some (negsuc n)) = none
dial_attempt_context false (some (pos n)) =
    if n == 0 then none else if ltb n 2_000_000_000 then some n else some 2_000_000_000
