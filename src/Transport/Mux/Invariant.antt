-- ===== src/Transport/Mux/Invariant.antt =====
-- internal/transport/rpc/mux.go: what the pending map, the channels and the reader say of the calls.
use virmux.Prelude.{
  ◌==◌, if◌then◌else◌, Result, ok, err, ℤ, ℕ, ◌≡◌, refl, sym, ap, ◌∙◌, subst, Bool, true, false,
  Option, none, some, arith, int_eq, int_eq_iff, int_eq_refl,
}
use virmux.Transport.Mux.{
  Response, CallError, Phase, fresh, registered, leaving, returned, Call, Reader, sending, Client,
}

abbrev pub in_flight : Phase → Bool
in_flight fresh = false
in_flight (returned _) = false
in_flight _ = true

-- The response with which a call returns, or is about to.
abbrev pub answer : Phase → Option Response
answer (leaving (ok res)) = some res
answer (returned (ok res)) = some res
answer _ = none

pub record Inv (pending : ℤ → Option ℕ) (calls : ℕ → Call) (reader : Reader) : Type 0 where
  pub held :
      (k : ℤ) (i : ℕ)
      → pending k ≡ some i
      → ((calls i).req.req_id ≡ k) × (in_flight (calls i).phase ≡ true)
  pub kept : (i : ℕ) → in_flight (calls i).phase ≡ true → pending (calls i).req.req_id ≡ some i
  pub boxed :
      (i : ℕ) (res : Response) → (calls i).inbox ≡ some res → res.req_id ≡ (calls i).req.req_id
  pub sent : (i : ℕ) (res : Response) → reader ≡ sending i res → res.req_id ≡ (calls i).req.req_id
  pub answers :
      (i : ℕ) (res : Response)
      → answer (calls i).phase ≡ some res
      → res.req_id ≡ (calls i).req.req_id

abbrev pub InvOf : Client → Type 0
InvOf c = Inv c.pending c.calls c.reader

pub answer-leaving :
    (result : Result CallError Response) → answer (leaving result) ≡ answer (returned result)
answer-leaving (ok res) = refl
answer-leaving (err e) = refl

module _ (pending : ℤ → Option ℕ) (calls : ℕ → Call) (reader : Reader)
    (inv : Inv pending calls reader) (i : ℕ) where
  pub Inv-call :
      (p : Phase) (box : Option Response)
      → in_flight p ≡ in_flight (calls i).phase
      → ((res : Response) → box ≡ some res → res.req_id ≡ (calls i).req.req_id)
      → ((res : Response) → answer p ≡ some res → res.req_id ≡ (calls i).req.req_id)
      → Inv pending
          (λ j. if i == j then record (calls i) { phase = p; inbox = box } else calls j)
          reader
  Inv-call p box same boxed answers = record {
    held = λ k j h. ground (arith, inv.held k j h, same);
    kept = λ j h. ground (arith, inv.kept j, inv.kept i, same);
    boxed = λ j res h. ground (arith, boxed res, inv.boxed j res);
    sent = λ j res h. ground (arith, inv.sent j res h);
    answers = λ j res h. ground (arith, answers res, inv.answers j res);
  }

  -- Only the phase changes, and to one with no answer.
  pub Inv-phase :
      (p : Phase)
      → in_flight p ≡ in_flight (calls i).phase
      → answer p ≡ none
      → Inv pending (λ j. if i == j then record (calls i) { phase = p } else calls j) reader
  Inv-phase p same no_answer = Inv-call p (calls i).inbox same (inv.boxed i) (λ res h. cc)

  -- A key at which call `i` is pending is its own.
  own_key : (k : ℤ) (j : ℕ) → pending k ≡ some j → i ≡ j → int_eq (calls i).req.req_id k ≡ true
  own_key k j h e = (int_eq_iff (calls i).req.req_id k).1 (inv.held k i (h ∙ ap some (sym e))).0

  pub same_call :
      in_flight (calls i).phase ≡ true
      → (j : ℕ) → in_flight (calls j).phase ≡ true
      → (calls i).req.req_id ≡ (calls j).req.req_id
      → i ≡ j
  same_call f j g e =
      let both : some i ≡ some j = sym (inv.kept i f) ∙ ap pending e ∙ inv.kept j g in cc

  pub Inv-register :
      in_flight (calls i).phase ≡ false
      → pending (calls i).req.req_id ≡ none
      → Inv
          (λ k. if int_eq (calls i).req.req_id k then some i else pending k)
          (λ j. if i == j then record (calls i) { phase = registered } else calls j)
          reader
  Inv-register out free = record {
    held = λ k j h. ground (arith, inv.held k j, int_eq_iff (calls i).req.req_id k);
    kept = λ j h.
        let key : ℤ = (calls i).req.req_id in
        let clash : int_eq key (calls j).req.req_id ≡ true → pending (calls j).req.req_id ≡ none =
          λ e. subst (λ k. pending k ≡ none) ((int_eq_iff key (calls j).req.req_id).0 e) free in
        ground (arith, inv.kept j, clash, int_eq_refl key);
    boxed = λ j res h. ground (arith, inv.boxed j res);
    sent = λ j res h. ground (arith, inv.sent j res h);
    answers = λ j res h. ground (arith, inv.answers j res);
  }

  pub Inv-unregister :
      (result : Result CallError Response)
      → (calls i).phase ≡ leaving result
      → Inv
          (λ k. if int_eq (calls i).req.req_id k then none else pending k)
          (λ j. if i == j then record (calls i) { phase = returned result } else calls j)
          reader
  Inv-unregister result leaves =
      let was : in_flight (calls i).phase ≡ true = ap in_flight leaves in
      let moved : answer (calls i).phase ≡ answer (returned result) =
        ap answer leaves ∙ answer-leaving result in
      record {
        held = λ k j h. ground (arith, inv.held k j, own_key k j);
        kept = λ j h.
            let key : ℤ = (calls i).req.req_id in
            let clash : int_eq key (calls j).req.req_id ≡ true
                → in_flight (calls j).phase ≡ true
                → i ≡ j =
              λ e f. same_call was j f ((int_eq_iff key (calls j).req.req_id).0 e) in
            ground (arith, inv.kept j, clash);
        boxed = λ j res h. ground (arith, inv.boxed j res);
        sent = λ j res h. ground (arith, inv.sent j res h);
        answers = λ j res h. ground (arith, inv.answers j res, inv.answers i res, moved);
      }
