-- ===== src/Tunnel/Frames.antt =====
-- tunnel/proto/src/lib.rs: the length-prefixed JSON frames. The serializer is an argument; a stream is the
-- bytes that are sent and not yet read, and ends behind them.
pub mod Streams
use pertisk_proxy.Base.{
  ℕ, ◌+◌, ◌*◌, ◌/◌, ◌%◌, Bool, List, [], ◌∷◌, ◌++◌, Option, none, some, Bytes, length, take, drop,
  ltb, leb, if◌then◌else◌,
}

pub data ProtoError : Type 0 where
  io json unexpected_eof : ProtoError
  frame_too_large : ℕ → ProtoError

pub data Received (A : Type 0) : Type 0 where
  ok : A → Received A
  err : ProtoError → Received A

pub record TunnelGranted : Type 0 where
  pub name : Bytes
  pub remote_port : ℕ

pub data ClientControl : Type 0 where
  -- The token and the tunnels that are wanted.
  hello : Bytes → List Bytes → ClientControl
  ping : ClientControl

pub data ServerControl : Type 0 where
  hello_ok : List TunnelGranted → ServerControl
  hello_err : Bytes → ServerControl
  pong : ServerControl

abbrev pub max_frame : ℕ
max_frame = 64 * 1024

-- `put_u32` and `get_u32`: the most significant byte first.
abbrev pub put_u32 : ℕ → Bytes
put_u32 n = n / 16777216 % 256 ∷ n / 65536 % 256 ∷ n / 256 % 256 ∷ n % 256 ∷ []

abbrev pub get_u32 : Bytes → ℕ
get_u32 (a ∷ b ∷ c ∷ d ∷ rest) = a * 16777216 + b * 65536 + c * 256 + d
get_u32 _ = 0

-- `read_exact`: at the end of the stream, what is left is lost.
abbrev pub read_exact : ℕ → Bytes → Option Bytes × Bytes
read_exact n stream =
    if leb n (length stream) then (some (take n stream), drop n stream) else (none, [])

encoded : Option Bytes → Bytes → Option ProtoError × Bytes
encoded none stream = (some json, stream)
encoded (some body) stream =
    if ltb max_frame (length body)
    then (some (frame_too_large (length body)), stream)
    else (none, stream ++ (put_u32 (length body) ++ body))

module _ {A : Type 0} where
  -- The error, and the stream behind it.
  unfoldable pub write_frame : (A → Option Bytes) → A → Bytes → Option ProtoError × Bytes
  unfolding encoded
  write_frame to_vec value stream = encoded (to_vec value) stream

  decoded : Option A → Received A
  decoded none = err json
  decoded (some value) = ok value

  parsed_body : (Bytes → Option A) → Option Bytes → Received A
  unfolding decoded
  parsed_body from_slice none = err io
  parsed_body from_slice (some body) = decoded (from_slice body)

  body_of : (Bytes → Option A) → Option Bytes × Bytes → Received A × Bytes
  unfolding parsed_body
  body_of from_slice (body, stream) = (parsed_body from_slice body, stream)

  framed : (Bytes → Option A) → Option Bytes → Bytes → Received A × Bytes
  unfolding body_of
  framed from_slice none stream = (err unexpected_eof, stream)
  framed from_slice (some hdr) stream =
      let len = get_u32 hdr in
      if ltb max_frame len
      then (err (frame_too_large len), stream)
      else body_of from_slice (read_exact len stream)

  unfoldable pub read_frame : (Bytes → Option A) → Bytes → Received A × Bytes
  unfolding framed
  read_frame from_slice stream = let (hdr, rest) = read_exact 4 stream in framed from_slice hdr rest
