-- ===== src/Transport/Frame/First.antt =====
-- internal/transport/rpc/frame.go: the first byte of the payload that a read gives.
use virmux.Prelude.{
  ltb, if◌then◌else◌, Result, ok, err, length, length-append, ℕ, zero, suc, ◌+◌, ◌*◌, ◌≤◌, ◌<◌, ◌≡◌,
  refl, ap, subst, false, Option, none, some, [], ◌∷◌, ◌++◌, arith, is_nil, if_ind,
}
use virmux.Transport.Frame.{
  get_uint32, Bytes, FrameError, max_frame_bytes, put_uint32, read_frame, read_payload, read_full,
  take_exactly, eof, unexpected_eof,
}
use virmux.Transport.Frame.RoundTrip.{put_get, Exact, take_exactly-Exact}

abbrev pub first : Bytes → ℕ
first [] = 0
first (b ∷ s) = b

-- What a read of a positive length gives begins with the next byte.
abbrev BeginsWith : ℕ → Result FrameError (Bytes × Bytes) → Type 0
BeginsWith y (err e) = Unit
BeginsWith y (ok (buf, rest)) = first buf ≡ y

read_full-BeginsWith : (n y : ℕ) (s : Bytes) → BeginsWith y (read_full (suc n) (y ∷ s))
unfolding read_full take_exactly
read_full-BeginsWith n y s = go (take_exactly n s)
  where
    go :
        (o : Option (Bytes × Bytes))
        → BeginsWith y
            (elim (elim o as (λ _. Option (Bytes × Bytes)) [
              | none ↦ none
              | some (buf, rest) ↦ some (y ∷ buf, rest)
            ])
              as (λ _. Result FrameError (Bytes × Bytes)) [
                | some r ↦ ok r
                | none ↦ err (if is_nil (y ∷ s) then eof else unexpected_eof)
              ])
    go none = tt
    go (some (buf, rest)) = refl

read_frame-BeginsWith :
    (n y : ℕ) (s : Bytes)
    → suc n < 4_294_967_296
    → BeginsWith y (read_frame (put_uint32 (suc n) ++ y ∷ s))
unfolding read_frame read_payload
read_frame-BeginsWith n y s small =
    rw (put_get (suc n) (y ∷ s) small, read_frame)
      (if_ind (BeginsWith y) (ltb max_frame_bytes (suc n)) (λ h. tt)
        (λ h. read_full-BeginsWith n y s))

-- A frame that is read off a header for a positive length has the byte behind that header first.
pub read_frame-first :
    (n y : ℕ) (s payload rest : Bytes)
    → suc n < 4_294_967_296
    → read_frame (put_uint32 (suc n) ++ y ∷ s) ≡ ok (payload, rest)
    → first payload ≡ y
read_frame-first n y s payload rest small h =
    subst (BeginsWith y) h (read_frame-BeginsWith n y s small)

take_exactly-some :
    (n : ℕ) (s : Bytes)
    → n ≤ length s
    → (buf : Bytes) × (rest : Bytes) × (take_exactly n s ≡ some (buf, rest))
unfolding take_exactly
take_exactly-some zero s h = ([], s, refl)
take_exactly-some (suc n) [] h = absurd (omega (arith, h))
take_exactly-some (suc n) (b ∷ s) h =
    let (buf, rest, q) = take_exactly-some n s (omega (arith, h)) in
    (b ∷ buf, rest, rw (q, take_exactly) refl)

-- Behind a header for no more bytes than are left and than a frame may have, a frame is read.
pub read_frame-some :
    (n : ℕ) (s : Bytes)
    → n ≤ max_frame_bytes
    → n ≤ length s
    → (payload : Bytes) × (rest : Bytes) × (read_frame (put_uint32 n ++ s) ≡ ok (payload, rest))
unfolding read_frame read_payload read_full
read_frame-some n s fits there =
    let (buf, rest, q) = take_exactly-some n s there in
    let small : ltb max_frame_bytes n ≡ false = ground (arith, fits) in
    (
      buf,
      rest,
      rw (put_get n s (omega (arith, fits)), read_frame)
          (rw (small, read_payload) (rw (q, read_full) refl)),
    )

abbrev Shorter : Bytes → Result FrameError (Bytes × Bytes) → Type 0
Shorter s (err e) = Unit
Shorter s (ok (payload, rest)) = length rest + 4 ≤ length s

read_frame-Shorter : (s : Bytes) → Shorter s (read_frame s)
unfolding read_frame get_uint32 read_payload read_full
read_frame-Shorter [] = tt
read_frame-Shorter (a ∷ []) = tt
read_frame-Shorter (a ∷ b ∷ []) = tt
read_frame-Shorter (a ∷ b ∷ c ∷ []) = tt
read_frame-Shorter (a ∷ b ∷ c ∷ d ∷ rest) =
    let n : ℕ = a + 256 * b + 65_536 * c + 16_777_216 * d in
    if_ind (Shorter (a ∷ b ∷ c ∷ d ∷ rest)) (ltb max_frame_bytes n) (λ h. tt)
      (λ h. full n (take_exactly n rest) (take_exactly-Exact n rest))
  where
    full :
        (n : ℕ) (o : Option (Bytes × Bytes))
        → Exact n rest o
        → Shorter
            (a ∷ b ∷ c ∷ d ∷ rest)
            (elim o [ some r ↦ ok r | none ↦ err (if is_nil rest then eof else unexpected_eof) ])
    full n none h = tt
    full n (some (buf, left)) h = omega (arith, ap length h.1, length-append buf left)

-- A read that succeeds takes at least the four bytes of the header.
pub read_frame-shorter :
    (s payload rest : Bytes) → read_frame s ≡ ok (payload, rest) → length rest + 4 ≤ length s
read_frame-shorter s payload rest h = subst (Shorter s) h (read_frame-Shorter s)
