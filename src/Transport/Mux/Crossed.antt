-- ===== src/Transport/Mux/Crossed.antt =====
-- internal/transport/rpc/mux.go and frame.go: `Call` writes its frame in two writes with no lock,
-- so that the frames of two calls may cross.
use virmux.Prelude.{
  if◌then◌else◌, Result, ok, length, length-append, ℕ, suc, ◌/◌, ◌%◌, ◌≤◌, String, ◌≡◌, refl, sym,
  ap, ◌∙◌, subst, ◌≢◌, false, some, [], ◌∷◌, ◌++◌, arith, int_eq,
}
use virmux.Transport.Frame.{Bytes, max_frame_bytes, uint32, put_uint32, read_frame}
use virmux.Transport.Mux.Branches.{write_header_of}
use virmux.Transport.Frame.First.{first, read_frame-first, read_frame-some}
use virmux.Transport.Mux.{
  Request, registered, header_written, waiting, Client, set_call, set_phase, new_client, register,
  write_header, write_body, call, header, body, Reach, here, next,
}

upper_bytes : ℕ → Bytes
upper_bytes n = n / 256 % 256 ∷ n / 65_536 % 256 ∷ n / 16_777_216 % 256 ∷ []

module _ (marshal : Request → Result String Bytes) (reqs : ℕ → Request) (x : ℕ) (s t : Bytes)
    (other : int_eq (reqs 0).req_id (reqs 1).req_id ≡ false) (one : marshal (reqs 0) ≡ ok (x ∷ s))
    (two : marshal (reqs 1) ≡ ok (x ∷ t)) (fits : suc (length s) ≤ max_frame_bytes)
    (fits2 : suc (length t) ≤ max_frame_bytes) where
  program : Unit {0}
  unfolding new_client register write_header write_body set_phase set_call
  program = tt

  both_registered : Client
  unfolding program
  both_registered = set_phase 1 registered (record (register 0 (new_client reqs)) {
    pending =
        λ k. if int_eq (reqs 1).req_id k then some 1 else (register 0 (new_client reqs)).pending k;
  })

  first_header : Client
  unfolding both_registered
  first_header =
      set_phase 0 (header_written (x ∷ s))
        (record both_registered { wire = [] ++ put_uint32 (uint32 (length (x ∷ s))) })

  both_headers : Client
  unfolding first_header
  both_headers =
      set_phase 1 (header_written (x ∷ t))
        (record first_header { wire = first_header.wire ++ put_uint32 (uint32 (length (x ∷ t))) })

  all_written : Client
  unfolding both_headers
  all_written = write_body 1 (x ∷ t) (write_body 0 (x ∷ s) both_headers)

  Reach-first_header : Reach marshal (new_client reqs) first_header
  unfolding first_header
  Reach-first_header =
      next {d = both_registered}
        (next {d = register 0 (new_client reqs)}
          (next {d = new_client reqs} here (call 0 refl refl)) (call 1 refl (rw other refl)))
        (header 0 refl (sym (write_header_of marshal 0 both_registered (x ∷ s) one fits)))

  Reach-all_written : Reach marshal (new_client reqs) all_written
  unfolding all_written
  Reach-all_written =
      next {d = write_body 0 (x ∷ s) both_headers}
        (next {d = both_headers}
          (next {d = first_header} Reach-first_header
            (header 1 refl (sym (write_header_of marshal 1 first_header (x ∷ t) two fits2))))
          (body 0 (x ∷ s) refl refl))
        (body 1 (x ∷ t) refl refl)

  -- What follows the low byte of the second header.
  behind : Bytes
  unfolding upper_bytes
  behind = (upper_bytes (uint32 (suc (length t))) ++ x ∷ s) ++ x ∷ t

  wire_lem :
      all_written.wire
      ≡ put_uint32 (uint32 (suc (length s))) ++ uint32 (suc (length t)) % 256 ∷ behind
  unfolding all_written put_uint32 behind
  wire_lem = refl

  -- Two calls whose bodies begin with the same byte, the brace of a JSON object, and are not too
  -- long, may write so that the stream begins with a frame that is neither of theirs, unless that
  -- byte is the low byte of the second body's length.
  pub frames_may_cross :
      x ≢ suc (length t) % 256
      → (c : Client) × Reach marshal (new_client reqs) c
        × ((c.calls 0).phase ≡ waiting)
        × ((c.calls 1).phase ≡ waiting)
        × ((payload : Bytes) × (rest : Bytes) × (read_frame c.wire ≡ ok (payload, rest))
            × (payload ≢ x ∷ s)
            × (payload ≢ x ∷ t))
  frames_may_cross differ =
      let whole : uint32 (suc (length s)) ≡ suc (length s) = ground arith in
      let low : uint32 (suc (length t)) % 256 ≡ suc (length t) % 256 = ground arith in
      let long : suc (length s) ≤ length (uint32 (suc (length t)) % 256 ∷ behind) =
        unfold behind in (unfold upper_bytes in omega (arith, length-append (x ∷ s) (x ∷ t))) in
      let (payload, rest, h) =
        read_frame-some (suc (length s)) (uint32 (suc (length t)) % 256 ∷ behind) fits long in
      let begins : first payload ≡ uint32 (suc (length t)) % 256 =
        read_frame-first (length s) (uint32 (suc (length t)) % 256) behind payload rest
          (ground arith) h in
      (
        all_written,
        Reach-all_written,
        unfold all_written in refl,
        unfold all_written in refl,
        (
          payload,
          rest,
          subst (λ w. read_frame w ≡ ok (payload, rest)) (sym wire_lem)
              (subst
                (λ n.
                  read_frame (put_uint32 n ++ uint32 (suc (length t)) % 256 ∷ behind)
                  ≡ ok (payload, rest))
                (sym whole) h),
          λ e. differ (sym (ap first e) ∙ begins ∙ low),
          λ e. differ (sym (ap first e) ∙ begins ∙ low),
        ),
      )
