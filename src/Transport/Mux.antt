-- ===== src/Transport/Mux.antt =====
-- internal/transport/rpc/mux.go: the client that shares one stream among concurrent calls.
-- `calls i` is the i-th `Call`, made at any time or never; its number stands for its channel, of
-- one place, which is `inbox`. A step is a critical section, one write to the stream, one branch of
-- a `select`, or one round of the reader; `Close` may be called at any time. JSON is the parameter
-- `marshal`, and a response that was unmarshalled is the environment's to choose. JSON fields of
-- `Args`, `Error` and `Data` are their text.
mod Branches
pub mod Invariant
pub mod Routing
pub mod Crossed
pub mod Stuck
mod Samples
use virmux.Prelude.{
  ◌==◌, if◌then◌else◌, Result, ok, err, length, ℤ, ℕ, String, ◌≡◌, Bool, true, false, Option, none,
  some, List, [], ◌++◌, int_eq,
}
use virmux.Transport.Frame.{Bytes, FrameError, uint32, put_uint32, write_frame}

pub record Request : Type 0 where
  pub req_id : ℤ
  pub tool : String
  pub args : String
  pub allow : List String

pub record Response : Type 0 where
  pub req_id : ℤ
  pub is_ok : Bool
  pub rc : ℤ
  pub stdout_ref : String
  pub stderr_ref : String
  pub oh_hash : String
  pub dur_ms : ℤ
  pub error : String
  pub data_text : String

-- `c.readErr`: the frame was refused, or its payload was.
pub data ReadError : Type 0 where
  read_failed : String → ReadError
  unmarshal_failed : String → ReadError

pub data CallError : Type 0 where
  req_id_in_use : ℤ → CallError
  marshal_failed : String → CallError
  frame_failed : FrameError → CallError
  write_failed : String → CallError
  context_done : String → CallError
  stopped_by : ReadError → CallError
  closed : CallError

-- Where a call stands. `leaving` is before its deferred `delete`.
pub data Phase : Type 0 where
  fresh registered : Phase
  header_written : Bytes → Phase
  waiting : Phase
  leaving returned : Result CallError Response → Phase

pub record Call : Type 0 where
  pub req : Request
  pub phase : Phase
  pub inbox : Option Response

-- The reader is at the head of its loop, in `ReadFrame`, before `ch <- res`, or gone.
pub data Reader : Type 0 where
  at_top reading : Reader
  sending : ℕ → Response → Reader
  gone : Reader

pub record Client : Type 0 where
  pub pending : ℤ → Option ℕ
  pub calls : ℕ → Call
  pub reader : Reader
  pub is_stopped : Bool
  pub read_err : Option ReadError
  -- what was written to the stream
  pub wire : Bytes

unfoldable pub set_call : ℕ → Call → Client → Client
set_call i x c = record c { calls = λ j. if i == j then x else c.calls j }

unfoldable pub set_phase : ℕ → Phase → Client → Client
unfolding set_call
set_phase i p c = set_call i (record (c.calls i) { phase = p }) c

unfoldable pub new_client : (ℕ → Request) → Client
new_client reqs = record {
  pending = λ _. none;
  calls = λ i. record { req = reqs i; phase = fresh; inbox = none };
  reader = at_top;
  is_stopped = false;
  read_err = none;
  wire = [];
}

-- The first critical section of `Call`.
unfoldable pub register : ℕ → Client → Client
unfolding set_phase
register i c =
    let key = (c.calls i).req.req_id in
    elim (c.pending key) [
      | some j ↦ set_phase i (returned (err (req_id_in_use key))) c
      | none ↦
          set_phase i registered
            (record c { pending = λ k. if int_eq key k then some i else c.pending k })
    ]

-- The deferred critical section.
unfoldable pub unregister : ℕ → Result CallError Response → Client → Client
unfolding set_phase
unregister i result c =
    let key = (c.calls i).req.req_id in
    set_phase i (returned result)
      (record c { pending = λ k. if int_eq key k then none else c.pending k })

-- json.Marshal, the guard of `WriteFrame` and its first write, of the length.
unfoldable pub write_header : (Request → Result String Bytes) → ℕ → Client → Client
unfolding set_phase
write_header marshal i c = elim (marshal (c.calls i).req) [
  | err e ↦ set_phase i (leaving (err (marshal_failed e))) c
  | ok body ↦ elim (write_frame body) [
    | err e ↦ set_phase i (leaving (err (frame_failed e))) c
    | ok out ↦
        set_phase i (header_written body)
          (record c { wire = c.wire ++ put_uint32 (uint32 (length body)) })
  ]
]

-- The second write of `WriteFrame`, of the payload.
unfoldable pub write_body : ℕ → Bytes → Client → Client
unfolding set_phase
write_body i body c = set_phase i waiting (record c { wire = c.wire ++ body })

-- What a call returns that finds `stopCh` closed.
unfoldable pub stop_error : Client → CallError
stop_error c = elim c.read_err [ some e ↦ stopped_by e | none ↦ closed ]

-- `case res := <-ch`
unfoldable pub receive : ℕ → Response → Client → Client
unfolding set_call
receive i res c = set_call i (record (c.calls i) { phase = leaving (ok res); inbox = none }) c

-- The reader's lookup of the channel.
unfoldable pub look_up : Response → Client → Client
look_up res c = record c {
  reader = elim (c.pending res.req_id) [ some i ↦ sending i res | none ↦ at_top ];
}

-- `ch <- res`
unfoldable pub deliver : ℕ → Response → Client → Client
unfolding set_call
deliver i res c = record (set_call i (record (c.calls i) { inbox = some res }) c) {
  reader = at_top;
}

unfoldable pub stop_reading : ReadError → Client → Client
stop_reading e c = record c { reader = gone; is_stopped = true; read_err = some e }

module _ (marshal : Request → Result String Bytes) where
  pub data Step (c d : Client) : Type 0 where
    call : (i : ℕ) → (c.calls i).phase ≡ fresh → d ≡ register i c → Step c d
    header : (i : ℕ) → (c.calls i).phase ≡ registered → d ≡ write_header marshal i c → Step c d
    body :
        (i : ℕ) (b : Bytes) → (c.calls i).phase ≡ header_written b → d ≡ write_body i b c → Step c d
    header_fails :
        (i : ℕ) (e : String)
        → (c.calls i).phase ≡ registered
        → d ≡ set_phase i (leaving (err (write_failed e))) c
        → Step c d
    body_fails :
        (i : ℕ) (b : Bytes) (e : String)
        → (c.calls i).phase ≡ header_written b
        → d ≡ set_phase i (leaving (err (write_failed e))) c
        → Step c d
    done :
        (i : ℕ) (e : String)
        → (c.calls i).phase ≡ waiting
        → d ≡ set_phase i (leaving (err (context_done e))) c
        → Step c d
    stopped :
        (i : ℕ)
        → (c.calls i).phase ≡ waiting
        → c.is_stopped ≡ true
        → d ≡ set_phase i (leaving (err (stop_error c))) c
        → Step c d
    answered :
        (i : ℕ) (res : Response)
        → (c.calls i).phase ≡ waiting
        → (c.calls i).inbox ≡ some res
        → d ≡ receive i res c
        → Step c d
    leave :
        (i : ℕ) (result : Result CallError Response)
        → (c.calls i).phase ≡ leaving result
        → d ≡ unregister i result c
        → Step c d
    close : d ≡ record c { is_stopped = true } → Step c d
    reader_ends :
        c.reader ≡ at_top → c.is_stopped ≡ true → d ≡ record c { reader = gone } → Step c d
    reader_reads :
        c.reader ≡ at_top → c.is_stopped ≡ false → d ≡ record c { reader = reading } → Step c d
    reader_fails : (e : ReadError) → c.reader ≡ reading → d ≡ stop_reading e c → Step c d
    reader_looks_up : (res : Response) → c.reader ≡ reading → d ≡ look_up res c → Step c d
    reader_sends :
        (i : ℕ) (res : Response)
        → c.reader ≡ sending i res
        → (c.calls i).inbox ≡ none
        → d ≡ deliver i res c
        → Step c d

  pub data Reach (c : Client) : Client → Type 0 where
    here : Reach c c
    next : {d e : Client} → Reach c d → Step d e → Reach c e
