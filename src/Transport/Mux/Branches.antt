-- ===== src/Transport/Mux/Branches.antt =====
-- internal/transport/rpc/mux.go: the branches of the two steps of a call that may fail.
use virmux.Prelude.{
  if◌then◌else◌, Result, ok, err, length, ℕ, ◌≤◌, String, ◌≡◌, refl, Option, none, some, ◌++◌,
  arith, int_eq,
}
use virmux.Transport.Frame.{Bytes, FrameError, max_frame_bytes, write_frame, uint32, put_uint32}
use virmux.Transport.Frame.RoundTrip.{write_frame_of}
use virmux.Transport.Mux.{
  Request, CallError, req_id_in_use, marshal_failed, frame_failed, registered, header_written,
  leaving, returned, Client, set_phase, register, write_header,
}

-- With a body that marshals and fits, the header is written.
pub write_header_of :
    (marshal : Request → Result String Bytes) (i : ℕ) (c : Client) (b : Bytes)
    → marshal (c.calls i).req ≡ ok b
    → length b ≤ max_frame_bytes
    → write_header marshal i c
      ≡ set_phase i
          (header_written b)
          (record c { wire = c.wire ++ put_uint32 (uint32 (length b)) })
unfolding write_header
write_header_of marshal i c b m fits =
    rw (m, write_header)
      (rw (write_frame_of (length b) b (ground arith) (ground arith), write_header) refl)

module _ (i : ℕ) (c : Client) (P : Client → Type 0) where
  pub register_ind :
      P (set_phase i (returned (err (req_id_in_use (c.calls i).req.req_id))) c)
      → (c.pending (c.calls i).req.req_id ≡ none
          → P (
              set_phase i registered (record c {
                pending = λ k. if int_eq (c.calls i).req.req_id k then some i else c.pending k;
              })))
      → P (register i c)
  unfolding register
  register_ind taken free = go (c.pending (c.calls i).req.req_id) refl
    where
      go :
          (o : Option ℕ)
          → c.pending (c.calls i).req.req_id ≡ o
          → P (elim o [
            | some j ↦ set_phase i (returned (err (req_id_in_use (c.calls i).req.req_id))) c
            | none ↦ set_phase i registered (record c {
              pending = λ k. if int_eq (c.calls i).req.req_id k then some i else c.pending k;
            })
          ])
      go (some j) h = taken
      go none h = free h

  pub write_header_ind :
      (marshal : Request → Result String Bytes)
      → ((e : CallError) → P (set_phase i (leaving (err e)) c))
      → ((b w : Bytes) → P (set_phase i (header_written b) (record c { wire = w })))
      → P (write_header marshal i c)
  unfolding write_header
  write_header_ind marshal fails writes = go (marshal (c.calls i).req)
    where
      framed :
          (b : Bytes) (r : Result FrameError Bytes)
          → P (elim r [
            | err e ↦ set_phase i (leaving (err (frame_failed e))) c
            | ok out ↦
                set_phase i
                  (header_written b)
                  (record c { wire = c.wire ++ put_uint32 (uint32 (length b)) })
          ])
      framed b (err e) = fails (frame_failed e)
      framed b (ok out) = writes b _

      go :
          (r : Result String Bytes)
          → P (elim r [
            | err e ↦ set_phase i (leaving (err (marshal_failed e))) c
            | ok b ↦ elim (write_frame b) [
              | err e ↦ set_phase i (leaving (err (frame_failed e))) c
              | ok out ↦
                  set_phase i
                    (header_written b)
                    (record c { wire = c.wire ++ put_uint32 (uint32 (length b)) })
            ]
          ])
      go (err e) = fails (marshal_failed e)
      go (ok b) = framed b (write_frame b)
