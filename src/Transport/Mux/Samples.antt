-- ===== src/Transport/Mux/Samples.antt =====
-- internal/transport/rpc/mux.go: two calls on one stream.
use virmux.Prelude.{Result, ok, err, ℤ, pos, ℕ, String, ◌≡◌, refl, ◌≢◌, true, some, [], ◌∷◌, arith}
use virmux.Transport.Frame.{Bytes, read_frame}
use virmux.Transport.Mux.Invariant.{in_flight}
use virmux.Transport.Mux.Routing.{routed}
use virmux.Transport.Mux.Crossed.{frames_may_cross}
use virmux.Transport.Mux.Stuck.{reader_may_hang}
use virmux.Transport.Mux.{
  Request, Response, req_id_in_use, waiting, returned, sending, Client, set_call, set_phase,
  new_client, register, unregister, write_header, receive, look_up, deliver, call, Reach, here,
  next,
}

-- The calls have the IDs 0, 1, 2, ...
abbrev requests : ℕ → Request
requests i = record { req_id = pos i; tool = "fs.read"; args = "{}"; allow = [] }

-- `{}` as bytes
abbrev braces : Bytes
braces = 123 ∷ 125 ∷ []

abbrev to_braces : Request → Result String Bytes
to_braces r = ok braces

abbrev reply : Response
reply = record {
  req_id = pos 0;
  is_ok = true;
  rc = pos 0;
  stdout_ref = "";
  stderr_ref = "";
  oh_hash = "";
  dur_ms = pos 3;
  error = "";
  data_text = "";
}

program : Unit {0}
unfolding new_client register set_phase set_call write_header look_up deliver receive unregister
program = tt

one_registered : Client
unfolding program
one_registered = register 0 (new_client requests)

Reach-one_registered : Reach to_braces (new_client requests) one_registered
unfolding one_registered
Reach-one_registered = next {d = new_client requests} here (call 0 refl refl)

-- A second call with the ID of one in flight is refused.
id_taken :
    ((register 1 (register 0 (new_client (λ _. requests 7)))).calls 1).phase
    ≡ returned (err (req_id_in_use (pos 7)))
unfolding program
id_taken = refl

routed_example :
    ((i : ℕ) (res : Response)
      → (one_registered.calls i).phase ≡ returned (ok res)
      → res.req_id ≡ (one_registered.calls i).req.req_id)
    × ((i j : ℕ)
        → in_flight (one_registered.calls i).phase ≡ true
        → in_flight (one_registered.calls j).phase ≡ true
        → (one_registered.calls i).req.req_id ≡ (one_registered.calls j).req.req_id
        → i ≡ j)
    × ((i : ℕ)
        → in_flight (one_registered.calls i).phase ≡ true
        → one_registered.pending (one_registered.calls i).req.req_id ≡ some i)
    × ((k : ℤ) (i : ℕ)
        → one_registered.pending k ≡ some i
        → ((one_registered.calls i).req.req_id ≡ k)
          × (in_flight (one_registered.calls i).phase ≡ true))
routed_example = routed to_braces requests one_registered Reach-one_registered

frames_may_cross_example :
    (c : Client) × Reach to_braces (new_client requests) c
    × ((c.calls 0).phase ≡ waiting)
    × ((c.calls 1).phase ≡ waiting)
    × ((payload : Bytes) × (rest : Bytes) × (read_frame c.wire ≡ ok (payload, rest))
        × (payload ≢ braces)
        × (payload ≢ braces))
frames_may_cross_example =
    frames_may_cross to_braces requests 123 (125 ∷ []) (125 ∷ []) refl refl refl (omega arith)
      (omega arith) (λ e. absurd (omega (arith, e)))

reader_may_hang_example :
    (c : Client) × Reach to_braces (new_client requests) c
    × ((d : Client)
        → Reach to_braces c d
        → (d.reader ≡ sending 0 reply)
          × ((j : ℕ) (r : Response) → (d.calls j).inbox ≡ some r → (c.calls j).inbox ≡ some r))
reader_may_hang_example =
    reader_may_hang to_braces requests braces reply "context canceled" refl (omega arith) refl
