-- ===== src/Edge/Auth.antt =====
-- src/edge/mod.rs: the credentials of a route. The keyed digest is a parameter, and of the headers the
-- values that are read, where they are texts.
pub mod Payload
pub mod Tokens
use pertisk_proxy.Base.{
  ℕ, ◌+◌, ◌-◌, ◌*◌, ◌%◌, Bool, true, false, not, ◌&&◌, ◌||◌, List, [], ◌∷◌, ◌++◌, map, Option, none,
  some, min, max, ◌==◌, leb, if◌then◌else◌, Bytes, bytes_eq, is_empty, length,
}
use pertisk_proxy.Text.{
  codes, trim, trim_start, strip_prefix, split, split_once, before, is_digit, parse, print, u64_max,
  from_utf8_lossy,
}
use pertisk_proxy.Edge.Base64.{b64url_encode, b64url_decode}

-- `String::from_utf8`: just the valid texts are left as they are by the lossy reading.
unfoldable pub from_utf8 : Bytes → Option Bytes
unfolding from_utf8_lossy
from_utf8 s = if bytes_eq (from_utf8_lossy s) s then some s else none

cons_left : ℕ → Option (Bytes × Bytes) → Option (Bytes × Bytes)
cons_left c none = none
cons_left c (some (a, b)) = some (c ∷ a, b)

-- At the first occurrence of a pattern that is not empty: what is before and behind it.
unfoldable pub split_at_text : Bytes → Bytes → Option (Bytes × Bytes)
unfolding cons_left
split_at_text pattern [] = none
split_at_text pattern (c ∷ s) =
    let rest = split_at_text pattern s in
    elim (strip_prefix pattern (c ∷ s)) [ some r ↦ some ([], r) | none ↦ cons_left c rest ]

up_to : Option (Bytes × Bytes) → Bytes → Bytes
up_to none whole = whole
up_to (some (a, b)) whole = a

piece_behind : Bytes → Option (Bytes × Bytes) → Option Bytes
unfolding split_at_text up_to
piece_behind pattern none = none
piece_behind pattern (some (a, b)) = some (up_to (split_at_text pattern b) b)

-- `split(pattern).nth(1)`.
unfoldable pub second_piece : Bytes → Bytes → Option Bytes
unfolding split_at_text piece_behind
second_piece pattern s = piece_behind pattern (split_at_text pattern s)

-- The first piece between characters that are no digits.
unfoldable pub leading_digits : Bytes → Bytes
leading_digits [] = []
leading_digits (c ∷ s) = let rest = leading_digits s in if is_digit c then c ∷ rest else []

exp_in : Option Bytes → Option ℕ
unfolding leading_digits
exp_in none = none
exp_in (some s) = parse u64_max (leading_digits (trim_start s))

unfoldable pub exp_of : Bytes → Option ℕ
unfolding second_piece exp_in
exp_of raw = exp_in (second_piece (codes "\"exp\":") raw)

is_running : Option ℕ → ℕ → Bool
is_running none now = false
is_running (some exp) now = leb now exp

text_of : Option Bytes → Option Bytes
unfolding from_utf8
text_of none = from_utf8 []
text_of (some s) = from_utf8 s

payload_runs : Option Bytes → ℕ → Bool
unfolding exp_of is_running
payload_runs none now = false
payload_runs (some raw) now = is_running (exp_of raw) now

-- `saturating_add` and `saturating_mul`.
abbrev saturated : ℕ → ℕ
saturated n = min n u64_max

unfoldable pub jwt_expiry : ℕ → ℕ → ℕ
jwt_expiry valid_minutes now = saturated (now + max (saturated (valid_minutes * 60)) 60)

unfoldable pub jwt_payload : Bytes → ℕ → Bytes
jwt_payload owner exp =
    codes "{\"sub\":\"" ++ (owner ++ (codes "\",\"exp\":" ++ (print exp ++ codes "}")))

abbrev pub jwt_header : Bytes
jwt_header = codes "{\"alg\":\"HS256\",\"typ\":\"JWT\"}"

module _ (hmac : Bytes → Bytes → Bytes) where
  unfoldable pub sign_hs256 : Bytes → Bytes → Bytes
  sign_hs256 secret msg = b64url_encode (hmac secret msg)

  is_digest : Option Bytes → Bytes → Bytes → Bool
  is_digest none secret msg = false
  is_digest (some bytes) secret msg = bytes_eq bytes (hmac secret msg)

  unfoldable pub hmac_eq : Bytes → Bytes → Bytes → Bool
  unfolding is_digest
  hmac_eq secret msg sig = is_digest (b64url_decode sig) secret msg

  -- At the second `now`.
  unfoldable pub issue_jwt : Bytes → Bytes → ℕ → ℕ → Bytes
  unfolding sign_hs256 jwt_expiry jwt_payload
  issue_jwt secret owner valid_minutes now =
      let header = b64url_encode jwt_header in
      let payload = b64url_encode (jwt_payload owner (jwt_expiry valid_minutes now)) in
      let signing = header ++ (b'.' ∷ payload) in signing ++ (b'.' ∷ sign_hs256 secret signing)

  unfoldable pub verify_parts : Bytes → List Bytes → ℕ → Bool
  unfolding hmac_eq text_of payload_runs
  verify_parts secret (header ∷ payload ∷ sig ∷ []) now =
      hmac_eq secret (header ++ (b'.' ∷ payload)) sig
      && payload_runs (text_of (b64url_decode payload)) now
  verify_parts secret _ now = false

  unfoldable pub verify_jwt : Bytes → Bytes → ℕ → Bool
  unfolding verify_parts
  verify_jwt secret token now = verify_parts secret (split b'.' token) now
