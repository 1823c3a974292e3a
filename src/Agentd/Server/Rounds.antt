-- ===== src/Agentd/Server/Rounds.antt =====
-- internal/agentd/server/server.go: the loop ends, and answers each request in its turn.
use virmux.Prelude.{
  Result, ok, length, All, length-append, ℕ, zero, suc, ◌+◌, ◌≤◌, ◌<◌, String, ◌≡◌, refl, ap, ◌∙◌,
  Option, none, some, List, [], ◌∷◌, ◌++◌, map, arith, result_ind, option_ind,
}
use virmux.Transport.Frame.{Bytes, max_frame_bytes, put_uint32, write_frame, read_frame}
use virmux.Transport.Frame.RoundTrip.{read_frame-write_frame, write_frame_of}
use virmux.Transport.Frame.First.{read_frame-shorter}
use virmux.Agentd.Tools.{Response, SystemCall, Os, handle}
use virmux.Agentd.Server.{
  Request, end_of_stream, Served, before, to_call, respond, serve, serve_conn,
}

-- The frame of a body that fits.
abbrev pub frame_of : Bytes → Bytes
frame_of body = put_uint32 (length body) ++ body

length-frame_of : (body : Bytes) → 0 < length (frame_of body)
length-frame_of body = unfold put_uint32 in omega arith

write_frame-frame_of :
    (body : Bytes) → length body ≤ max_frame_bytes → write_frame body ≡ ok (frame_of body)
write_frame-frame_of body fits = write_frame_of (length body) body (ground arith) (ground arith)

read_frame-frame_of :
    (body rest : Bytes)
    → length body ≤ max_frame_bytes
    → read_frame (frame_of body ++ rest) ≡ ok (body, rest)
read_frame-frame_of body rest fits =
    read_frame-write_frame body rest (ground arith) (write_frame-frame_of body fits)

module _ (os : Os) (unmarshal : Bytes → Result String Request)
    (marshal : Response → Result String Bytes) (done : ℕ → Option String) where
  abbrev IsServed : Option Served → Type 0
  IsServed o = (r : Served) × (o ≡ some r)

  serve-IsServed :
      (fuel i : ℕ) (s : Bytes)
      → length s < fuel
      → IsServed (serve os unmarshal marshal done fuel i s)
  unfolding serve
  serve-IsServed zero i s h = absurd (omega arith)
  serve-IsServed (suc fuel) i s h =
      option_ind IsServed (done i)
        (λ go_on.
          result_ind IsServed (read_frame s) (λ e q. (_, refl))
            (λ frame q.
              let (left, e) =
                serve-IsServed fuel (i + 1) frame.1
                  (omega (arith, h, read_frame-shorter s frame.0 frame.1 q)) in
              result_ind IsServed (unmarshal frame.0) (λ x u. (_, refl)) (λ req u. rw e (_, refl))))
        (λ e q. (_, refl))

  respond_fits :
      (calls : List SystemCall) (r : Response) (body : Bytes) (rest : Served)
      → marshal r ≡ ok body
      → length body ≤ max_frame_bytes
      → respond os unmarshal marshal done (calls, r) rest ≡ before calls r (frame_of body) rest
  unfolding respond
  respond_fits calls r body rest m fits =
      rw (m, respond) (rw (write_frame-frame_of body fits, respond) refl)

  serve_round :
      (fuel i : ℕ) (s frame left : Bytes) (req : Request) (rest : Served)
      → done i ≡ none
      → read_frame s ≡ ok (frame, left)
      → unmarshal frame ≡ ok req
      → serve os unmarshal marshal done fuel (i + 1) left ≡ some rest
      → serve os unmarshal marshal done (suc fuel) i s
        ≡ some (respond os unmarshal marshal done (handle os (to_call req)) rest)
  unfolding serve
  serve_round fuel i s frame left req rest going reads u e =
      rw (going, serve) (rw (reads, serve) (rw (u, serve) (rw (e, serve) refl)))

  module _ (encode : Request → Bytes) (answer : Response → Bytes) where
    -- Request `r` is encoded in a frame, and so is the response to it.
    abbrev pub Fits : Request → Type 0
    Fits r =
        (length (encode r) ≤ max_frame_bytes)
        × (unmarshal (encode r) ≡ ok r)
        × (marshal (handle os (to_call r)).1 ≡ ok (answer (handle os (to_call r)).1))
        × (length (answer (handle os (to_call r)).1) ≤ max_frame_bytes)

    abbrev pub requests_on : List Request → Bytes
    requests_on [] = []
    requests_on (r ∷ rs) = frame_of (encode r) ++ requests_on rs

    abbrev pub responses_on : List Request → Bytes
    responses_on [] = []
    responses_on (r ∷ rs) = frame_of (answer (handle os (to_call r)).1) ++ responses_on rs

    abbrev pub calls_of : List Request → List SystemCall
    calls_of [] = []
    calls_of (r ∷ rs) = (handle os (to_call r)).0 ++ calls_of rs

    -- What a connection with these requests makes.
    abbrev pub all_served : List Request → Served
    all_served rs = record {
      calls = calls_of rs;
      responses = map (λ r. (handle os (to_call r)).1) rs;
      out = responses_on rs;
      ends = end_of_stream;
    }

    serve_each :
        (rs : List Request) (fuel i : ℕ)
        → ((j : ℕ) → done j ≡ none)
        → All Fits rs
        → length rs < fuel
        → serve os unmarshal marshal done fuel i (requests_on rs) ≡ some (all_served rs)
    serve_each rs zero i going fits h = absurd (omega arith)
    serve_each [] (suc fuel) i going fits h = unfold serve read_frame in rw (going i, serve) refl
    serve_each (r ∷ rs) (suc fuel) i going fits h =
        serve_round fuel i (requests_on (r ∷ rs)) (encode r) (requests_on rs) r (all_served rs)
          (going i) (read_frame-frame_of (encode r) (requests_on rs) fits.0.0) fits.0.1
          (serve_each rs fuel (i + 1) going fits.1 (omega (arith, h)))
        ∙ ap some (
            respond_fits (handle os (to_call r)).0 (handle os (to_call r)).1
              (answer (handle os (to_call r)).1) (all_served rs) fits.0.2 fits.0.3
            ∙ unfold before in refl)

    length-requests_on : (rs : List Request) → length rs ≤ length (requests_on rs)
    length-requests_on [] = omega arith
    length-requests_on (r ∷ rs) = omega (
      arith,
      length-requests_on rs,
      length-append (frame_of (encode r)) (requests_on rs),
      length-frame_of (encode r),
    )

    -- If no context is cancelled and all requests and the responses to them fit in frames, a
    -- connection with those requests is served to its end: each request is handled once, in order,
    -- and the responses go out as frames in the same order.
    pub serve_conn_lem :
        (rs : List Request)
        → ((j : ℕ) → done j ≡ none)
        → All Fits rs
        → serve_conn os unmarshal marshal done (requests_on rs) ≡ some (all_served rs)
    unfolding serve_conn
    serve_conn_lem rs going fits =
        serve_each rs (suc (length (requests_on rs))) 0 going fits
          (omega (arith, length-requests_on rs))

  -- The loop ends on every stream: the fuel, one more than the bytes of the stream, is enough.
  pub serve_conn_ends :
      (s : Bytes) → (r : Served) × (serve_conn os unmarshal marshal done s ≡ some r)
  unfolding serve_conn
  serve_conn_ends s = serve-IsServed (suc (length s)) 0 s (omega arith)
