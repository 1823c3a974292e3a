-- ===== src/Transport/Frame/RoundTrip.antt =====
-- internal/transport/rpc/frame.go: what is written is read back, and only that.
use mathlib.Core.List.{append_assoc}
use virmux.Prelude.{
  ltb, if◌then◌else◌, Bool-cases, Result, ok, err, length, All, ℕ, zero, suc, ◌+◌, ◌*◌, ◌/◌, ◌%◌,
  ◌≤◌, ◌<◌, ◌≡◌, refl, sym, ap, ◌∙◌, subst, ◌≢◌, inl, inr, false, Option, none, some, [], ◌∷◌, ◌++◌,
  arith, is_nil, if_ind,
}
use virmux.Transport.Frame.{
  Bytes, max_frame_bytes, uint32, FrameError, eof, unexpected_eof, put_uint32, write_frame,
  get_uint32, take_exactly, read_full, read_payload, read_frame,
}

pub take_exactly-append :
    (n : ℕ) (xs ys : Bytes) → length xs ≡ n → take_exactly n (xs ++ ys) ≡ some (xs, ys)
unfolding take_exactly
take_exactly-append zero [] ys h = refl
take_exactly-append zero (x ∷ xs) ys h = absurd (omega arith)
take_exactly-append (suc n) [] ys h = absurd (omega arith)
take_exactly-append (suc n) (x ∷ xs) ys h = rw (take_exactly-append n xs ys (omega arith)) refl

abbrev pub Exact : ℕ → Bytes → Option (Bytes × Bytes) → Type 0
Exact n s none = Unit
Exact n s (some (buf, rest)) = (length buf ≡ n) × (s ≡ buf ++ rest)

pub take_exactly-Exact : (n : ℕ) (s : Bytes) → Exact n s (take_exactly n s)
unfolding take_exactly
take_exactly-Exact zero s = (refl, refl)
take_exactly-Exact (suc n) [] = tt
take_exactly-Exact (suc n) (b ∷ s) = go (take_exactly n s) (take_exactly-Exact n s)
  where
    go :
        (o : Option (Bytes × Bytes))
        → Exact n s o
        → Exact (suc n) (b ∷ s) (elim o [ none ↦ none | some (buf, rest) ↦ some (b ∷ buf, rest) ])
    go none h = tt
    go (some (buf, rest)) h = (ap suc h.0, ap (λ t. b ∷ t) h.1)

pub put_get :
    (n : ℕ) (rest : Bytes) → n < 4_294_967_296 → get_uint32 (put_uint32 n ++ rest) ≡ ok (n, rest)
unfolding put_uint32 get_uint32
put_get n rest h = ap (λ (k : ℕ). ok (k, rest)) (omega arith)

read_full-append : (n : ℕ) (xs ys : Bytes) → length xs ≡ n → read_full n (xs ++ ys) ≡ ok (xs, ys)
unfolding read_full
read_full-append n xs ys h = rw (take_exactly-append n xs ys h, read_full) refl

read_frame_of :
    (n : ℕ) (payload rest : Bytes)
    → n < 4_294_967_296
    → ltb max_frame_bytes n ≡ false
    → length payload ≡ n
    → read_frame ((put_uint32 n ++ payload) ++ rest) ≡ ok (payload, rest)
unfolding read_frame
read_frame_of n payload rest small fits h = rw append_assoc (
    rw (put_get n (payload ++ rest) small, read_frame)
      (rw (fits, read_payload) (read_full-append n payload rest h)))

-- A frame that was written is read back, with what follows it left on the stream, if its payload is
-- shorter than 4 GiB.
pub read_frame-write_frame :
    (payload rest : Bytes) {out : Bytes}
    → length payload < 4_294_967_296
    → write_frame payload ≡ ok out
    → read_frame (out ++ rest) ≡ ok (payload, rest)
read_frame-write_frame payload rest {out} small written =
    elim (Bool-cases (ltb max_frame_bytes (length payload))) [
      | inl large ↦ absurd (unfold write_frame in ground arith)
      | inr fits ↦
          let e : out ≡ put_uint32 (length payload) ++ payload =
            unfold write_frame in ground arith in
          rw e (read_frame_of (length payload) payload rest small fits refl)
    ]

-- What a read that succeeds has taken off the stream.
abbrev Taken : Bytes → Result FrameError (Bytes × Bytes) → Type 0
Taken s (err e) = Unit
Taken s (ok (payload, rest)) =
    (n : ℕ) × (ltb max_frame_bytes n ≡ false)
    × (length payload ≡ n)
    × (All (λ b. b < 256) s → s ≡ put_uint32 n ++ (payload ++ rest))

put_of_bytes :
    (a b c d : ℕ)
    → a < 256
    → b < 256
    → c < 256
    → d < 256
    → put_uint32 (a + 256 * b + 65_536 * c + 16_777_216 * d) ≡ a ∷ b ∷ c ∷ d ∷ []
unfolding put_uint32
put_of_bytes a b c d ha hb hc hd =
    let n : ℕ = a + 256 * b + 65_536 * c + 16_777_216 * d in
    let ea : n % 256 ≡ a = omega arith in
    let eb : n / 256 % 256 ≡ b = omega arith in
    let ec : n / 65_536 % 256 ≡ c = omega arith in
    let ed : n / 16_777_216 % 256 ≡ d = omega arith in λ i. ea i ∷ eb i ∷ ec i ∷ ed i ∷ []

read_frame-Taken : (s : Bytes) → Taken s (read_frame s)
unfolding read_frame
read_frame-Taken [] = tt
read_frame-Taken (a ∷ []) = tt
read_frame-Taken (a ∷ b ∷ []) = tt
read_frame-Taken (a ∷ b ∷ c ∷ []) = tt
read_frame-Taken (a ∷ b ∷ c ∷ d ∷ rest) =
    if_ind (Taken s) (ltb max_frame_bytes n) (λ h. tt)
      (λ fits. full fits (take_exactly n rest) (take_exactly-Exact n rest))
  where
    n : ℕ
    n = a + 256 * b + 65_536 * c + 16_777_216 * d

    s : Bytes
    s = a ∷ b ∷ c ∷ d ∷ rest

    full :
        ltb max_frame_bytes n ≡ false
        → (o : Option (Bytes × Bytes)) → Exact n rest o
        → Taken s
            (elim o [ some r ↦ ok r | none ↦ err (if is_nil rest then eof else unexpected_eof) ])
    full fits none h = tt
    full fits (some (buf, left)) h = (
      n,
      fits,
      h.0,
      λ bytes.
          rw (put_of_bytes a b c d bytes.0 bytes.1.0 bytes.1.1.0 bytes.1.1.1.0)
            (ap (λ t. a ∷ b ∷ c ∷ d ∷ t) h.1),
    )

pub write_frame_of :
    (n : ℕ) (payload : Bytes)
    → uint32 (length payload) ≡ n
    → ltb max_frame_bytes n ≡ false
    → write_frame payload ≡ ok (put_uint32 n ++ payload)
unfolding write_frame
write_frame_of n payload e fits =
    subst (λ k. write_frame payload ≡ ok (put_uint32 k ++ payload)) e
      (rw (subst (λ k. ltb max_frame_bytes k ≡ false) (sym e) fits, write_frame) refl)

-- A read that succeeds has taken exactly one frame off the stream, the one that writing its payload
-- makes.
pub write_frame-read_frame :
    (s : Bytes) {payload rest : Bytes}
    → All (λ b. b < 256) s
    → read_frame s ≡ ok (payload, rest)
    → (out : Bytes) × (write_frame payload ≡ ok out) × (s ≡ out ++ rest)
write_frame-read_frame s {payload} {rest} bytes h =
    let (n, fits, len, e) = subst (Taken s) h (read_frame-Taken s) in
    (
      put_uint32 n ++ payload,
      write_frame_of n payload (ground (arith, fits, len)) fits,
      e bytes ∙ sym (append_assoc (put_uint32 n) payload rest),
    )

-- A payload of 4 GiB or more passes the guard if the low 32 bits of its length do, and then the
-- frame that is written does not read back as that payload.
pub wrapped_length :
    (payload rest : Bytes)
    → 4_294_967_296 ≤ length payload
    → uint32 (length payload) ≤ max_frame_bytes
    → (out : Bytes) × (write_frame payload ≡ ok out)
      × (read_frame (out ++ rest) ≢ ok (payload, rest))
wrapped_length payload rest large low = (
  put_uint32 (uint32 (length payload)) ++ payload,
  write_frame_of _ payload refl (ground (arith, low)),
  λ h.
      let (n, fits, len, e) = subst (Taken _) h (read_frame-Taken _) in
      ground (arith, fits, len, large),
)
