-- ===== src/Agentd/Server.antt =====
-- internal/agentd/server/server.go: the loop that serves one connection.
-- The connection is the bytes that come in and the frames that went out; JSON is a parameter, and so
-- is `done i`, whether the context has an error before the i-th round. Writes do not fail.
pub mod Rounds
use virmux.Prelude.{
  Result, ok, err, length, ℤ, ℕ, zero, suc, ◌+◌, String, Option, none, some, List, [], ◌∷◌, ◌++◌,
}
use virmux.Transport.Frame.{
  Bytes, FrameError, eof, unexpected_eof, frame_too_large, write_frame, read_frame,
}
use virmux.Agentd.Tools.{Response, SystemCall, Os, Call, handle}

-- internal/agentd/proto: `Request`; `Args` is its text.
pub record Request : Type 0 where
  pub req_id : ℤ
  pub tool : String
  pub args : String
  pub allow : List String
  pub run_id : String

pub data ServeEnd : Type 0 where
  end_of_stream : ServeEnd
  context_error : String → ServeEnd
  read_error : FrameError → ServeEnd
  unmarshal_error marshal_error : String → ServeEnd
  write_error : FrameError → ServeEnd

pub record Served : Type 0 where
  pub calls : List SystemCall
  pub responses : List Response
  pub out : Bytes
  pub ends : ServeEnd

abbrev stop : ServeEnd → Served
stop e = record { calls = []; responses = []; out = []; ends = e }

-- A round before what the rest of the loop does.
before : List SystemCall → Response → Bytes → Served → Served
before calls r frame rest = record {
  calls = calls ++ rest.calls;
  responses = r ∷ rest.responses;
  out = frame ++ rest.out;
  ends = rest.ends;
}

abbrev to_call : Request → Call
to_call req = record { req_id = req.req_id; tool = req.tool; args = req.args; allow = req.allow }

-- `errors.Is(err, io.EOF) || errors.Is(err, io.ErrUnexpectedEOF)`
read_end : FrameError → ServeEnd
read_end eof = end_of_stream
read_end unexpected_eof = end_of_stream
read_end (frame_too_large n) = read_error (frame_too_large n)

module _ (os : Os) (unmarshal : Bytes → Result String Request)
    (marshal : Response → Result String Bytes) (done : ℕ → Option String) where
  -- Behind `Handle`.
  respond : List SystemCall × Response → Served → Served
  unfolding before
  respond (calls, r) rest = elim (marshal r) [
    | err e ↦ record (stop (marshal_error e)) { calls = calls; responses = r ∷ [] }
    | ok body ↦ elim (write_frame body) [
      | err e ↦ record (stop (write_error e)) { calls = calls; responses = r ∷ [] }
      | ok frame ↦ before calls r frame rest
    ]
  ]

  -- The loop, on fuel; `none` says that the fuel was not enough. A round takes at least the four
  -- bytes of a header off the stream.
  unfoldable pub serve : ℕ → ℕ → Bytes → Option Served
  unfolding respond read_end
  serve zero i s = none
  serve (suc fuel) i s = elim (done i) [
    | some e ↦ some (stop (context_error e))
    | none ↦ elim (read_frame s) [
      | err e ↦ some (stop (read_end e))
      | ok (frame, left) ↦
          let rest = serve fuel (i + 1) left in
          elim (unmarshal frame) [
            | err e ↦ some (stop (unmarshal_error e))
            | ok req ↦ elim rest [
              | none ↦ none
              | some served ↦ some (respond (handle os (to_call req)) served)
            ]
          ]
    ]
  ]

  -- `ServeConn` behind its greeting.
  unfoldable pub serve_conn : Bytes → Option Served
  unfolding serve
  serve_conn s = serve (suc (length s)) 0 s
