-- ===== src/Tunnel/Frames/Streams.antt =====
-- tunnel/proto/src/lib.rs: what is read of a stream of frames.
use pertisk_proxy.Base.{
  ℕ, zero, suc, ◌+◌, ◌≤◌, ◌<◌, ◌≡◌, refl, sym, ap, ◌∙◌, false, List, [], ◌∷◌, ◌++◌, map, append-nil,
  append_assoc, Option, none, some, arith, Bytes, All, length, take, drop, ltb, leb, ltb_iff,
  leb_iff, length-append, if◌then◌else◌,
}
use pertisk_proxy.Tunnel.Frames.{
  io, unexpected_eof, Received, ok, err, max_frame, put_u32, get_u32, read_exact, encoded,
  write_frame, decoded, parsed_body, body_of, framed, read_frame,
}

take-append : (xs ys : Bytes) → take (length xs) (xs ++ ys) ≡ xs
take-append [] ys = refl
take-append (x ∷ xs) ys = ap (λ zs. x ∷ zs) (take-append xs ys)

drop-append : (xs ys : Bytes) → drop (length xs) (xs ++ ys) ≡ ys
drop-append [] ys = refl
drop-append (x ∷ xs) ys = drop-append xs ys

read_exact-append : (xs ys : Bytes) → read_exact (length xs) (xs ++ ys) ≡ (some xs, ys)
read_exact-append xs ys =
    rw
      (
        (leb_iff (length xs) (length (xs ++ ys))).1 (omega (arith, length-append xs ys)),
        take-append xs ys,
        drop-append xs ys,
      )
      refl

get_u32-put_u32 : (n : ℕ) → n < 4294967296 → get_u32 (put_u32 n) ≡ n
get_u32-put_u32 n small = omega (arith, small)

module _ {A : Type 0} (to_vec : A → Option Bytes) (from_slice : Bytes → Option A) where
  -- The value has a text, which fits a frame and reads back as the value.
  pub record IsSendable (value : A) : Type 0 where
    pub body : Bytes
    pub written : to_vec value ≡ some body
    pub fits : length body ≤ max_frame
    pub reads_back : from_slice body ≡ some value

  abbrev frame : Bytes → Bytes
  frame body = put_u32 (length body) ++ body

  framed-body :
      (hdr body rest : Bytes) (value : A)
      → get_u32 hdr ≡ length body
      → length body ≤ max_frame
      → from_slice body ≡ some value
      → framed from_slice (some hdr) (body ++ rest) ≡ (ok value, rest)
  unfolding framed body_of parsed_body decoded
  framed-body hdr body rest value size fits back =
      let within : ltb max_frame (length body) ≡ false =
        ground (arith, fits, ltb_iff max_frame (length body)) in
      rw (framed, size, within, read_exact-append body rest, back) refl

  read_frame-frame :
      (body rest : Bytes) (value : A)
      → length body ≤ max_frame
      → from_slice body ≡ some value
      → read_frame from_slice (put_u32 (length body) ++ (body ++ rest)) ≡ (ok value, rest)
  unfolding read_frame
  read_frame-frame body rest value fits back =
      ap (λ x. framed from_slice x.0 x.1) (read_exact-append (put_u32 (length body)) (body ++ rest))
      ∙ framed-body (put_u32 (length body)) body rest value
          (get_u32-put_u32 (length body) (omega (arith, fits))) fits back

  -- Frame after frame, until a value cannot be written.
  abbrev pub write_frames : List A → Bytes → Bytes
  write_frames [] stream = stream
  write_frames (value ∷ values) stream = write_frames values (write_frame to_vec value stream).1

  abbrev pub read_frames : ℕ → Bytes → List (Received A) × Bytes
  read_frames zero stream = ([], stream)
  read_frames (suc n) stream =
      let (got, rest) = read_frame from_slice stream in
      let (more, left) = read_frames n rest in (got ∷ more, left)

  write_frame-sent :
      (value : A) (h : IsSendable value) (stream : Bytes)
      → write_frame to_vec value stream ≡ (none, stream ++ frame h.body)
  unfolding write_frame encoded
  write_frame-sent value h stream =
      let within : ltb max_frame (length h.body) ≡ false =
        ground (arith, h.fits, ltb_iff max_frame (length h.body)) in
      rw (write_frame, h.written, within) refl

  abbrev pub AllSendable : List A → Type 0
  AllSendable values = All IsSendable values

  frames : (values : List A) → AllSendable values → Bytes
  frames [] h = []
  frames (value ∷ values) (h, hs) = frame h.body ++ frames values hs

  write_frames-sent :
      (values : List A) (hs : AllSendable values) (stream : Bytes)
      → write_frames values stream ≡ stream ++ frames values hs
  unfolding frames
  write_frames-sent [] hs stream = sym (append-nil stream)
  write_frames-sent (value ∷ values) (h, hs) stream =
      ap (λ x. write_frames values x.1) (write_frame-sent value h stream)
      ∙ write_frames-sent values hs (stream ++ frame h.body)
      ∙ append_assoc stream (frame h.body) (frames values hs)

  read_frames-frames :
      (values : List A) (hs : AllSendable values) (rest : Bytes)
      → read_frames (length values) (frames values hs ++ rest) ≡ (map ok values, rest)
  unfolding frames
  read_frames-frames [] hs rest = refl
  read_frames-frames (value ∷ values) (h, hs) rest =
      ap (read_frames (suc (length values))) (append_assoc (frame h.body) (frames values hs) rest)
      ∙ ap (λ x. (x.0 ∷ (read_frames (length values) x.1).0, (read_frames (length values) x.1).1))
          (read_frame-frame h.body (frames values hs ++ rest) value h.fits h.reads_back)
      ∙ ap (λ y. (ok value ∷ y.0, y.1)) (read_frames-frames values hs rest)

  -- Values that are written one after another are read in their order, each whole, and what follows
  -- them in the stream is left, for a serializer that reads each of them back from at most 65536 bytes.
  pub read_frames-write_frames :
      (values : List A)
      → AllSendable values
      → (rest : Bytes)
      → read_frames (length values) (write_frames values [] ++ rest) ≡ (map ok values, rest)
  read_frames-write_frames values hs rest =
      ap (λ s. read_frames (length values) (s ++ rest)) (write_frames-sent values hs [])
      ∙ read_frames-frames values hs rest

length-take : (n : ℕ) (xs : Bytes) → length (take n xs) ≤ n
length-take zero xs = omega arith
length-take (suc n) [] = omega arith
length-take (suc n) (x ∷ xs) = omega (arith, length-take n xs)

read_exact_short : (n : ℕ) (xs : Bytes) → length xs < n → read_exact n xs ≡ (none, [])
read_exact_short n xs short =
    let fewer : leb n (length xs) ≡ false = ground (arith, short, leb_iff n (length xs)) in
    rw fewer refl

late : (j : ℕ) → ltb (suc (suc (suc (suc j)))) 4 ≡ false
late j = ground (arith, ltb_iff (suc (suc (suc (suc j)))) 4)

module _ {A : Type 0} (from_slice : Bytes → Option A) where
  framed_short :
      (body : Bytes) (j : ℕ)
      → length body ≤ max_frame
      → j < length body
      → (framed from_slice (some (put_u32 (length body))) (take j body)).0 ≡ err io
  unfolding framed body_of parsed_body
  framed_short body j fits short =
      let within : ltb max_frame (length body) ≡ false =
        ground (arith, fits, ltb_iff max_frame (length body)) in
      rw
        (
          framed,
          get_u32-put_u32 (length body) (omega (arith, fits)),
          within,
          read_exact_short (length body) (take j body) (omega (arith, length-take j body, short)),
        )
        refl

  -- Of a frame of at most 65536 bytes that ends too early, `read_frame` gives no value: an unexpected end
  -- within the four bytes of the length, an error of the stream behind them.
  pub read_frame_truncated :
      (body : Bytes) (k : ℕ)
      → length body ≤ max_frame
      → k < 4 + length body
      → (read_frame from_slice (take k (put_u32 (length body) ++ body))).0
        ≡ err (if ltb k 4 then unexpected_eof else io)
  unfolding read_frame framed
  read_frame_truncated body zero fits short = refl
  read_frame_truncated body (suc zero) fits short = refl
  read_frame_truncated body (suc (suc zero)) fits short = refl
  read_frame_truncated body (suc (suc (suc zero))) fits short = refl
  read_frame_truncated body (suc (suc (suc (suc j)))) fits short =
      ap (λ x. (framed from_slice x.0 x.1).0)
        (read_exact-append (put_u32 (length body)) (take j body))
      ∙ framed_short body j fits (omega (arith, short))
      ∙ ap (λ b. err (if b then unexpected_eof else io)) (sym (late j))
