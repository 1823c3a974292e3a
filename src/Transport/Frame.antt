-- ===== src/Transport/Frame.antt =====
-- internal/transport/rpc/frame.go: length-prefixed frames over a byte stream.
-- A writer is what was written to it, a reader the bytes that are left on it; I/O errors other than
-- the end of the stream are not modelled. A byte is a number, and `int` holds any length.
pub mod RoundTrip
pub mod First
use virmux.Prelude.{
  ltb, if◌then◌else◌, Result, ok, err, length, ℕ, zero, suc, ◌+◌, ◌*◌, ◌/◌, ◌%◌, Option, none, some,
  List, [], ◌∷◌, ◌++◌, is_nil,
}

abbrev pub Bytes : Type 0
Bytes = List ℕ

-- 1 << 20
abbrev pub max_frame_bytes : ℕ
max_frame_bytes = 1_048_576

-- uint32(n)
abbrev pub uint32 : ℕ → ℕ
uint32 n = n % 4_294_967_296

pub data FrameError : Type 0 where
  frame_too_large : ℕ → FrameError
  eof unexpected_eof : FrameError

-- binary.Write of a uint32, little endian
unfoldable pub put_uint32 : ℕ → Bytes
put_uint32 n = n % 256 ∷ n / 256 % 256 ∷ n / 65_536 % 256 ∷ n / 16_777_216 % 256 ∷ []

unfoldable pub write_frame : Bytes → Result FrameError Bytes
unfolding put_uint32
write_frame payload =
    if ltb max_frame_bytes (uint32 (length payload))
    then err (frame_too_large (length payload))
    else ok (put_uint32 (uint32 (length payload)) ++ payload)

-- binary.Read of a uint32: EOF before the first byte, ErrUnexpectedEOF behind it.
unfoldable pub get_uint32 : Bytes → Result FrameError (ℕ × Bytes)
get_uint32 [] = err eof
get_uint32 (a ∷ []) = err unexpected_eof
get_uint32 (a ∷ b ∷ []) = err unexpected_eof
get_uint32 (a ∷ b ∷ c ∷ []) = err unexpected_eof
get_uint32 (a ∷ b ∷ c ∷ d ∷ rest) = ok (a + 256 * b + 65_536 * c + 16_777_216 * d, rest)

-- The bytes of `io.ReadFull` into a buffer of `n`, or how many it got.
unfoldable pub take_exactly : ℕ → Bytes → Option (Bytes × Bytes)
take_exactly zero s = some ([], s)
take_exactly (suc n) [] = none
take_exactly (suc n) (b ∷ s) = elim (take_exactly n s) [
  | none ↦ none
  | some (buf, rest) ↦ some (b ∷ buf, rest)
]

-- io.ReadFull: EOF if nothing was read, ErrUnexpectedEOF if less than the buffer was.
unfoldable pub read_full : ℕ → Bytes → Result FrameError (Bytes × Bytes)
unfolding take_exactly
read_full n s = elim (take_exactly n s) [
  | some r ↦ ok r
  | none ↦ err (if is_nil s then eof else unexpected_eof)
]

read_payload : ℕ → Bytes → Result FrameError (Bytes × Bytes)
unfolding read_full
read_payload n s = if ltb max_frame_bytes n then err (frame_too_large n) else read_full n s

unfoldable pub read_frame : Bytes → Result FrameError (Bytes × Bytes)
unfolding get_uint32 read_payload
read_frame s = elim (get_uint32 s) [ err e ↦ err e | ok (n, rest) ↦ read_payload n rest ]
