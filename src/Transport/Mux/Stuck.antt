-- ===== src/Transport/Mux/Stuck.antt =====
-- internal/transport/rpc/mux.go: a channel has one place, and nobody takes from that of a call that
-- has returned.
use virmux.Prelude.{
  ◌==◌, if◌then◌else◌, ==_iff, Bool-cases, Result, ok, err, length, ℕ, ◌≤◌, String, ◌≡◌, refl, sym,
  ap, ◌∙◌, subst, ◌≢◌, inl, inr, false, Option, none, some, [], ◌++◌, arith, int_eq_refl,
}
use virmux.Transport.Frame.{Bytes, max_frame_bytes, uint32, put_uint32}
use virmux.Transport.Mux.Branches.{write_header_of, register_ind, write_header_ind}
use virmux.Transport.Mux.{
  Request, Response, CallError, context_done, Phase, fresh, registered, header_written, waiting,
  leaving, returned, Call, Reader, reading, sending, Client, set_call, set_phase, new_client,
  register, unregister, write_body, receive, look_up, deliver, Step, call, header, body,
  header_fails, body_fails, done, stopped, answered, leave, close, reader_ends, reader_reads,
  reader_fails, reader_looks_up, reader_sends, Reach, here, next,
}

module _ (start : Client) (i : ℕ) (res old : Response) (result : Result CallError Response) where
  -- The reader has a response for call `i`, which has returned and whose channel is full, and no
  -- channel has a response that it did not have at the start.
  record IsStuck (calls : ℕ → Call) (reader : Reader) : Type 0 where
    pub holds : reader ≡ sending i res
    pub full : (calls i).inbox ≡ some old
    pub over : (calls i).phase ≡ returned result
    pub boxes : (j : ℕ) (r : Response) → (calls j).inbox ≡ some r → (start.calls j).inbox ≡ some r

  module _ (c : Client) (st : IsStuck c.calls c.reader) (j : ℕ) where
    ne_of_phase : (p : Phase) → (c.calls j).phase ≡ p → p ≢ returned result → (j == i) ≡ false
    ne_of_phase p h differs = elim (Bool-cases (j == i)) [
      | inl same ↦
          absurd (differs (sym h ∙ ap (λ k. (c.calls k).phase) ((==_iff j i).0 same) ∙ st.over))
      | inr ne ↦ ne
    ]

    -- Another call moves.
    IsStuck-call :
        (p : Phase) (box : Option Response)
        → (j == i) ≡ false
        → ((r : Response) → box ≡ some r → (c.calls j).inbox ≡ some r)
        → IsStuck
            (λ k. if j == k then record (c.calls j) { phase = p; inbox = box } else c.calls k)
            c.reader
    IsStuck-call p box ne kept = record {
      holds = st.holds;
      full = rw ne st.full;
      over = rw ne st.over;
      boxes = λ k r h. ground (arith, st.boxes k r, st.boxes j r, kept r);
    }

    IsStuck-phase :
        (p : Phase) → (j == i) ≡ false → IsStuck (set_phase j p c).calls (set_phase j p c).reader
    unfolding set_phase set_call
    IsStuck-phase p ne = IsStuck-call p (c.calls j).inbox ne (λ r h. h)

  abbrev StuckOf : Client → Type 0
  StuckOf c = IsStuck c.calls c.reader

  module _ (marshal : Request → Result String Bytes) where
    StuckOf-Step : (c d : Client) → Step marshal c d → StuckOf c → StuckOf d
    StuckOf-Step c d (call j h e) st = subst StuckOf (sym e) (
        register_ind j c StuckOf (IsStuck-phase c st j _ (ne_of_phase c st j fresh h (λ q. cc q)))
          (λ free.
            unfold set_phase set_call in
            IsStuck-call c st j registered (c.calls j).inbox
              (ne_of_phase c st j fresh h (λ q. cc q)) (λ r q. q)))
    StuckOf-Step c d (header j h e) st = subst StuckOf (sym e) (
        write_header_ind j c StuckOf marshal
          (λ x. IsStuck-phase c st j _ (ne_of_phase c st j registered h (λ q. cc q)))
          (λ b w.
            unfold set_phase set_call in
            IsStuck-call c st j (header_written b) (c.calls j).inbox
              (ne_of_phase c st j registered h (λ q. cc q)) (λ r q. q)))
    StuckOf-Step c d (body j b h e) st = subst StuckOf (sym e) (
        unfold write_body set_phase set_call in
        IsStuck-call c st j waiting (c.calls j).inbox
          (ne_of_phase c st j (header_written b) h (λ q. cc q)) (λ r q. q))
    StuckOf-Step c d (header_fails j x h e) st =
        subst StuckOf (sym e) (IsStuck-phase c st j _ (ne_of_phase c st j registered h (λ q. cc q)))
    StuckOf-Step c d (body_fails j b x h e) st =
        subst StuckOf (sym e)
          (IsStuck-phase c st j _ (ne_of_phase c st j (header_written b) h (λ q. cc q)))
    StuckOf-Step c d (done j x h e) st =
        subst StuckOf (sym e) (IsStuck-phase c st j _ (ne_of_phase c st j waiting h (λ q. cc q)))
    StuckOf-Step c d (stopped j h s e) st =
        subst StuckOf (sym e) (IsStuck-phase c st j _ (ne_of_phase c st j waiting h (λ q. cc q)))
    StuckOf-Step c d (answered j r h box e) st = subst StuckOf (sym e) (
        unfold receive set_call in
        IsStuck-call c st j (leaving (ok r)) none (ne_of_phase c st j waiting h (λ q. cc q))
          (λ r q. absurd (cc q)))
    StuckOf-Step c d (leave j r h e) st = subst StuckOf (sym e) (
        unfold unregister set_phase set_call in
        IsStuck-call c st j (returned r) (c.calls j).inbox
          (ne_of_phase c st j (leaving r) h (λ q. cc q)) (λ r q. q))
    StuckOf-Step c d (close e) st = subst StuckOf (sym e) st
    StuckOf-Step c d (reader_ends h s e) st = absurd (cc (st.holds, h))
    StuckOf-Step c d (reader_reads h s e) st = absurd (cc (st.holds, h))
    StuckOf-Step c d (reader_fails x h e) st = absurd (cc (st.holds, h))
    StuckOf-Step c d (reader_looks_up r h e) st = absurd (cc (st.holds, h))
    StuckOf-Step c d (reader_sends j r h box e) st =
        let both : sending i res ≡ sending j r = sym st.holds ∙ h in
        let same : i ≡ j = cc in absurd (cc (st.full, box, same))

    StuckOf-Reach : (c d : Client) → Reach marshal c d → StuckOf c → StuckOf d
    StuckOf-Reach c d here st = st
    StuckOf-Reach c d (next {d = m} r s) st = StuckOf-Step m d s (StuckOf-Reach c m r st)

  -- The start itself.
  stuck_at_start :
      start.reader ≡ sending i res
      → (start.calls i).inbox ≡ some old
      → (start.calls i).phase ≡ returned result
      → StuckOf start
  stuck_at_start h f o = record { holds = h; full = f; over = o; boxes = λ j r q. q }

module _ (marshal : Request → Result String Bytes) (reqs : ℕ → Request) (b : Bytes) (res : Response)
    (why : String) (encodes : marshal (reqs 0) ≡ ok b) (fits : length b ≤ max_frame_bytes)
    (mine : res.req_id ≡ (reqs 0).req_id) where
  program : Unit {0}
  unfolding new_client register write_body set_phase set_call deliver look_up unregister
  program = tt

  written : Client
  unfolding program
  written = write_body 0 b (
      set_phase 0 (header_written b)
        (record (register 0 (new_client reqs)) { wire = [] ++ put_uint32 (uint32 (length b)) }))

  found : Client
  unfolding written
  found = record written { reader = sending 0 res }

  filled : Client
  unfolding found
  filled = deliver 0 res found

  found_again : Client
  unfolding filled
  found_again = record filled { reader = sending 0 res }

  left_behind : Client
  unfolding found_again
  left_behind =
      unregister 0 (err (context_done why))
        (set_phase 0 (leaving (err (context_done why))) found_again)

  finds :
      (c : Client)
      → c.pending (reqs 0).req_id ≡ some 0
      → look_up res c ≡ record c { reader = sending 0 res }
  unfolding look_up
  finds c h = rw (ap c.pending mine ∙ h, look_up) refl

  Reach-written : Reach marshal (new_client reqs) written
  unfolding written
  Reach-written =
      next
        (next {d = register 0 (new_client reqs)}
          (next {d = new_client reqs} here (call 0 refl refl))
          (header 0 refl
            (sym (write_header_of marshal 0 (register 0 (new_client reqs)) b encodes fits))))
        (body 0 b refl refl)

  Reach-found_again : Reach marshal (new_client reqs) found_again
  unfolding found_again
  Reach-found_again =
      next {d = record filled { reader = reading }}
        (next {d = filled}
          (next {d = found}
            (next {d = record written { reader = reading }}
              (next {d = written} Reach-written (reader_reads refl refl refl))
              (reader_looks_up res refl (
                sym (
                  finds (record written { reader = reading })
                    (rw (int_eq_refl (reqs 0).req_id) refl)))))
            (reader_sends 0 res refl refl refl))
          (reader_reads refl refl refl))
        (reader_looks_up res refl (
          sym (finds (record filled { reader = reading }) (rw (int_eq_refl (reqs 0).req_id) refl))))

  Reach-left_behind : Reach marshal (new_client reqs) left_behind
  unfolding left_behind
  Reach-left_behind =
      next {d = set_phase 0 (leaving (err (context_done why))) found_again}
        (next {d = found_again} Reach-found_again (done 0 why refl refl))
        (leave 0 (err (context_done why)) refl refl)

  -- Let the server answer the first call twice, and the call give up between the two: then the
  -- reader may wait for the call's channel for ever. No response comes to any call from then on, and
  -- closing the client does not end the reader.
  pub reader_may_hang :
      (c : Client) × Reach marshal (new_client reqs) c
      × ((d : Client)
          → Reach marshal c d
          → (d.reader ≡ sending 0 res)
            × ((j : ℕ) (r : Response) → (d.calls j).inbox ≡ some r → (c.calls j).inbox ≡ some r))
  reader_may_hang = (
    left_behind,
    Reach-left_behind,
    λ d r.
        let st =
          StuckOf-Reach left_behind 0 res res (err (context_done why)) marshal left_behind d r (
            stuck_at_start left_behind 0 res res (err (context_done why))
              (unfold left_behind in refl) (unfold left_behind in refl)
              (unfold left_behind in refl)) in
        (st.holds, st.boxes),
  )
