-- ===== src/Transport/Mux/Routing.antt =====
-- internal/transport/rpc/mux.go: a response comes to the call that has its request ID.
use virmux.Prelude.{Result, ok, ℤ, ℕ, String, ◌≡◌, refl, sym, ap, subst, true, Option, none, some}
use virmux.Transport.Mux.{
  Request, Response, Phase, fresh, registered, header_written, waiting, leaving, returned, Reader,
  at_top, reading, sending, gone, Client, set_call, set_phase, new_client, register, unregister,
  write_header, write_body, receive, look_up, deliver, stop_reading, Step, call, header, body,
  header_fails, body_fails, done, stopped, answered, leave, close, reader_ends, reader_reads,
  reader_fails, reader_looks_up, reader_sends, Reach, here, next,
}
use virmux.Transport.Frame.{Bytes}
use virmux.Transport.Mux.Branches.{register_ind, write_header_ind}
use virmux.Transport.Mux.Invariant.{
  in_flight, answer, Inv, InvOf, Inv-call, Inv-phase, Inv-register, Inv-unregister, same_call,
}

module _ (c : Client) (inv : InvOf c) (i : ℕ) where
  Inv-set_phase :
      (p : Phase)
      → in_flight p ≡ in_flight (c.calls i).phase
      → answer p ≡ none
      → InvOf (set_phase i p c)
  unfolding set_phase
  Inv-set_phase p same no_answer = Inv-phase c.pending c.calls c.reader inv i p same no_answer

  Inv-register_step : (c.calls i).phase ≡ fresh → InvOf (register i c)
  Inv-register_step starts =
      register_ind i c InvOf (Inv-set_phase _ (sym (ap in_flight starts)) refl) (λ free.
        unfold set_phase set_call in
        Inv-register c.pending c.calls c.reader inv i (ap in_flight starts) free)

  Inv-header :
      (marshal : Request → Result String Bytes)
      → (c.calls i).phase ≡ registered
      → InvOf (write_header marshal i c)
  Inv-header marshal here_now =
      write_header_ind i c InvOf marshal (λ e. Inv-set_phase _ (sym (ap in_flight here_now)) refl)
        (λ b w.
          unfold set_phase set_call in
          Inv-phase c.pending c.calls c.reader inv i (header_written b)
            (sym (ap in_flight here_now)) refl)

-- The reader alone moves, to a place where it sends nothing.
Inv-reader :
    (c : Client) (r : Reader)
    → ((i : ℕ) (res : Response) → r ≡ sending i res → res.req_id ≡ (c.calls i).req.req_id)
    → InvOf c
    → Inv c.pending c.calls r
Inv-reader c r sends inv = record {
  held = inv.held;
  kept = inv.kept;
  boxed = inv.boxed;
  sent = sends;
  answers = inv.answers;
}

Inv-look_up : (c : Client) (res : Response) → InvOf c → InvOf (look_up res c)
unfolding look_up
Inv-look_up c res inv = Inv-reader c _ (go (c.pending res.req_id) refl) inv
  where
    go :
        (o : Option ℕ)
        → c.pending res.req_id ≡ o
        → (i : ℕ) (r : Response) → elim o [ some j ↦ sending j res | none ↦ at_top ] ≡ sending i r
        → r.req_id ≡ (c.calls i).req.req_id
    go none h i r e = absurd (cc e)
    go (some j) h i r e =
        let own : res.req_id ≡ (c.calls j).req.req_id = sym (inv.held res.req_id j h).0 in cc

module _ (marshal : Request → Result String Bytes) where
  Inv-Step : (c d : Client) → Step marshal c d → InvOf c → InvOf d
  Inv-Step c d (call i h e) inv = subst InvOf (sym e) (Inv-register_step c inv i h)
  Inv-Step c d (header i h e) inv = subst InvOf (sym e) (Inv-header c inv i marshal h)
  Inv-Step c d (body i b h e) inv = subst InvOf (sym e) (
      unfold write_body set_phase in
      Inv-phase c.pending c.calls c.reader inv i waiting (sym (ap in_flight h)) refl)
  Inv-Step c d (header_fails i x h e) inv =
      subst InvOf (sym e) (Inv-set_phase c inv i _ (sym (ap in_flight h)) refl)
  Inv-Step c d (body_fails i b x h e) inv =
      subst InvOf (sym e) (Inv-set_phase c inv i _ (sym (ap in_flight h)) refl)
  Inv-Step c d (done i x h e) inv =
      subst InvOf (sym e) (Inv-set_phase c inv i _ (sym (ap in_flight h)) refl)
  Inv-Step c d (stopped i h s e) inv =
      subst InvOf (sym e) (Inv-set_phase c inv i _ (sym (ap in_flight h)) refl)
  Inv-Step c d (answered i res h box e) inv = subst InvOf (sym e) (
      unfold receive set_call in
      Inv-call c.pending c.calls c.reader inv i (leaving (ok res)) none (sym (ap in_flight h))
        (λ r q. absurd (cc q)) (λ r q. let own = inv.boxed i res box in cc))
  Inv-Step c d (leave i result h e) inv = subst InvOf (sym e) (
      unfold unregister set_phase set_call in
      Inv-unregister c.pending c.calls c.reader inv i result h)
  Inv-Step c d (close e) inv = subst InvOf (sym e) inv
  Inv-Step c d (reader_ends h s e) inv =
      subst InvOf (sym e) (Inv-reader c gone (λ i r q. absurd (cc q)) inv)
  Inv-Step c d (reader_reads h s e) inv =
      subst InvOf (sym e) (Inv-reader c reading (λ i r q. absurd (cc q)) inv)
  Inv-Step c d (reader_fails x h e) inv =
      subst InvOf (sym e) (unfold stop_reading in Inv-reader c gone (λ i r q. absurd (cc q)) inv)
  Inv-Step c d (reader_looks_up res h e) inv = subst InvOf (sym e) (Inv-look_up c res inv)
  Inv-Step c d (reader_sends i res h box e) inv = subst InvOf (sym e) (
      unfold deliver set_call in
      Inv-call c.pending c.calls at_top (Inv-reader c at_top (λ j r q. absurd (cc q)) inv) i
        (c.calls i).phase (some res) refl (λ r q. let own = inv.sent i res h in cc) (inv.answers i))

  Inv-new : (reqs : ℕ → Request) → InvOf (new_client reqs)
  unfolding new_client
  Inv-new reqs = record {
    held = λ k i h. absurd (cc h);
    kept = λ i h. absurd (cc h);
    boxed = λ i res h. absurd (cc h);
    sent = λ i res h. absurd (cc h);
    answers = λ i res h. absurd (cc h);
  }

  Inv-Reach : (c d : Client) → Reach marshal c d → InvOf c → InvOf d
  Inv-Reach c d here inv = inv
  Inv-Reach c d (next {d = m} r st) inv = Inv-Step m d st (Inv-Reach c m r inv)

  -- Whatever the calls, the server, the contexts and the failures of I/O do: a response with which a
  -- call returns has the ID of its request, no two calls in flight have the same ID, and an ID is
  -- taken exactly while a call with that ID is in flight.
  pub routed :
      (reqs : ℕ → Request) (c : Client)
      → Reach marshal (new_client reqs) c
      → ((i : ℕ) (res : Response)
          → (c.calls i).phase ≡ returned (ok res)
          → res.req_id ≡ (c.calls i).req.req_id)
        × ((i j : ℕ)
            → in_flight (c.calls i).phase ≡ true
            → in_flight (c.calls j).phase ≡ true
            → (c.calls i).req.req_id ≡ (c.calls j).req.req_id
            → i ≡ j)
        × ((i : ℕ) → in_flight (c.calls i).phase ≡ true → c.pending (c.calls i).req.req_id ≡ some i)
        × ((k : ℤ) (i : ℕ)
            → c.pending k ≡ some i
            → ((c.calls i).req.req_id ≡ k) × (in_flight (c.calls i).phase ≡ true))
  routed reqs c r =
      let inv = Inv-Reach (new_client reqs) c r (Inv-new reqs) in
      (
        λ i res h. inv.answers i res (ap answer h),
        λ i j f g e. same_call c.pending c.calls c.reader inv i f j g e,
        inv.kept,
        inv.held,
      )
