-- ===== src/Transport/Samples.antt =====
-- internal/transport/rpc/frame.go and internal/transport/vsock/vsock.go: frames and retries at
-- concrete inputs.
use virmux.Prelude.{
  ltb, if◌then◌else◌, ok, err, length, ℤ, pos, ℕ, zero, suc, ◌*◌, ◌≤◌, ◌<◌, String, ◌≡◌, refl, ap,
  ◌≢◌, true, false, Option, none, [], ◌∷◌, ◌++◌, arith,
}
use virmux.Transport.Frame.{
  Bytes, unexpected_eof, frame_too_large, put_uint32, write_frame, read_frame,
}
use virmux.Transport.Frame.RoundTrip.{
  read_frame-write_frame, write_frame-read_frame, wrapped_length,
}
use virmux.Transport.Vsock.{
  DialError, Dialed, failed, is_retryable, dial_once, default_retry_policy, normalize,
  backoff_for_attempt, connected, exhausted, dial_with_retry,
}
use virmux.Transport.Vsock.Retry.{dial_with_retry-Ends, backoff_lem, Ends}

abbrev greeting : Bytes
greeting = 104 ∷ 105 ∷ []

abbrev framed : Bytes
framed = 2 ∷ 0 ∷ 0 ∷ 0 ∷ 104 ∷ 105 ∷ []

write_greeting : write_frame greeting ≡ ok framed
unfolding write_frame put_uint32
write_greeting = refl

read_greeting : read_frame (framed ++ 7 ∷ []) ≡ ok (greeting, 7 ∷ [])
unfolding read_frame
read_greeting = refl

cut_frame : read_frame (2 ∷ 0 ∷ 0 ∷ 0 ∷ 104 ∷ []) ≡ err unexpected_eof
unfolding read_frame
cut_frame = refl

long_frame : read_frame (0 ∷ 0 ∷ 32 ∷ 0 ∷ []) ≡ err (frame_too_large 2_097_152)
unfolding read_frame
long_frame = refl

read_frame-write_frame_example : read_frame (framed ++ 7 ∷ []) ≡ ok (greeting, 7 ∷ [])
read_frame-write_frame_example =
    read_frame-write_frame greeting (7 ∷ []) (ground arith) write_greeting

write_frame-read_frame_example :
    (out : Bytes) × (write_frame greeting ≡ ok out) × (framed ++ 7 ∷ [] ≡ out ++ 7 ∷ [])
write_frame-read_frame_example =
    write_frame-read_frame (framed ++ 7 ∷ []) (ground arith) read_greeting

-- `n` zero bytes.
zeros : ℕ → Bytes
zeros zero = []
zeros (suc n) = 0 ∷ zeros n

length-zeros : (n : ℕ) → length (zeros n) ≡ n
unfolding zeros
length-zeros zero = refl
length-zeros (suc n) = ap suc (length-zeros n)

wrapped_length_example :
    (out : Bytes) × (write_frame (zeros 4_294_967_296) ≡ ok out)
    × (read_frame (out ++ []) ≢ ok (zeros 4_294_967_296, []))
wrapped_length_example =
    wrapped_length (zeros 4_294_967_296) [] (omega (arith, length-zeros 4_294_967_296))
      (omega (arith, length-zeros 4_294_967_296))

abbrev refused : DialError
refused = record {
  connect_ack = false;
  canceled = false;
  deadline_exceeded = false;
  eof = true;
  unexpected_eof = false;
  op_error = none;
  not_exist = false;
  message = "eof";
}

-- A guest that answers from the third attempt on.
abbrev late : ℕ → Dialed
late n = if ltb n 3 then dial_once none (err refused) else dial_once none (ok "OK 1024")

abbrev sleeps : ℕ → ℤ → Option String
sleeps n d = none

late_connects : dial_with_retry late sleeps default_retry_policy ≡ connected 3
unfolding dial_with_retry dial_once is_retryable normalize
late_connects = refl

gives_up :
    dial_with_retry
      (λ n. failed refused true)
      sleeps
      (record default_retry_policy { max_attempts = pos 4 })
    ≡ exhausted 4 refused
unfolding dial_with_retry is_retryable normalize
gives_up = refl

dial_with_retry-Ends_example :
    Ends late sleeps
      (normalize default_retry_policy)
      1
      (normalize default_retry_policy).attempts
      (dial_with_retry late sleeps default_retry_policy)
dial_with_retry-Ends_example = dial_with_retry-Ends late sleeps default_retry_policy

backoff_lem_example :
    (d : ℕ) × (backoff_for_attempt (normalize default_retry_policy) 3 ≡ pos d)
    × (0 < d)
    × (d ≤ (normalize default_retry_policy).most)
    × (d ≡ (
        if ltb (normalize default_retry_policy).most (3 * 3 * (normalize default_retry_policy).base)
        then (normalize default_retry_policy).most
        else 3 * 3 * (normalize default_retry_policy).base))
backoff_lem_example =
    backoff_lem default_retry_policy 3 (omega arith) (unfold normalize in omega arith)

waits :
    (backoff_for_attempt (normalize default_retry_policy) 3 ≡ pos 225_000_000)
    × (backoff_for_attempt (normalize default_retry_policy) 6 ≡ pos 800_000_000)
unfolding backoff_for_attempt normalize
waits = (refl, refl)
