-- ===== src/Edge/Base64.antt =====
-- src/edge/mod.rs: the URL-safe base64 of tokens. Bytes are below 256.
pub mod RoundTrip
use pertisk_proxy.Base.{
  ℕ, ◌+◌, ◌-◌, ◌*◌, ◌/◌, ◌%◌, ◌^◌, Bool, true, false, ◌&&◌, ◌||◌, List, [], ◌∷◌, ◌++◌, Option, none,
  some, ◌==◌, leb, if◌then◌else◌, Bytes, get_elem?,
}
use mathlib.Core.Option
use pertisk_proxy.Text.{codes}

-- `T`.
abbrev pub alphabet : Bytes
alphabet = codes "ABCDEFGHIJKLMNOPQRSTUVWXYZabcdefghijklmnopqrstuvwxyz0123456789-_"

abbrev pub digit_or : Option ℕ → ℕ
digit_or none = 0
digit_or (some c) = c

-- `T[i]`.
unfoldable pub symbol : ℕ → ℕ
symbol i = digit_or (get_elem? alphabet i)

-- `T[n & 63]`: the index is in range.
unfoldable pub digit : ℕ → ℕ
digit n = symbol (n % 64)

-- Three bytes become four digits; one or two at the end become two or three.
unfoldable pub b64url_encode : Bytes → Bytes
unfolding digit
b64url_encode [] = []
b64url_encode (a ∷ []) = let n = a * 2 ^ 16 in digit (n / 2 ^ 18) ∷ digit (n / 2 ^ 12) ∷ []
b64url_encode (a ∷ b ∷ []) =
    let n = a * 2 ^ 16 + b * 2 ^ 8 in
    digit (n / 2 ^ 18) ∷ digit (n / 2 ^ 12) ∷ digit (n / 2 ^ 6) ∷ []
b64url_encode (a ∷ b ∷ c ∷ s) =
    let n = a * 2 ^ 16 + b * 2 ^ 8 + c in
    digit (n / 2 ^ 18) ∷ digit (n / 2 ^ 12) ∷ digit (n / 2 ^ 6) ∷ digit n ∷ b64url_encode s

-- `val`: both alphabets are read.
unfoldable pub val : ℕ → Option ℕ
val c =
    if leb b'A' c && leb c b'Z'
    then some (c - b'A')
    else if leb b'a' c && leb c b'z'
    then some (c - b'a' + 26)
    else if leb b'0' c && leb c b'9'
    then some (c - b'0' + 52)
    else if c == b'-' || c == b'+'
    then some 62
    else if c == b'_' || c == b'/'
    then some 63
    else none

-- The loop: `buf` holds `bits` bits that are not put out yet. `(buf << 6) | v` is `buf * 64 + v`,
-- since `v < 64`; it stays far below `u32::MAX`.
unfoldable pub decode_from : ℕ → ℕ → Bytes → Option Bytes
unfolding val
decode_from buf bits [] = some []
decode_from buf bits (c ∷ s) = if c == b'=' then some [] else elim (val c) [
  | none ↦ none
  | some v ↦
      let full = buf * 64 + v in
      let later = bits + 6 - 8 in
      let emitted =
        Option.map (λ r. full / 2 ^ later % 256 ∷ r) (decode_from (full % 2 ^ later) later s) in
      let kept = decode_from full (bits + 6) s in if leb 8 (bits + 6) then emitted else kept
]

unfoldable pub b64url_decode : Bytes → Option Bytes
unfolding decode_from
b64url_decode s = decode_from 0 0 s
