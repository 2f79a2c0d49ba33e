-- ===== src/Edge/Credentials.antt =====
-- src/edge/mod.rs: the credentials that a route asks for. Of the headers the values are given that the
-- check reads, where they are texts; the keyed digest is a parameter.
use pertisk_proxy.Base.{
  ℕ, ◌-◌, ◌%◌, Bool, false, ◌&&◌, ◌||◌, List, [], ◌∷◌, ◌++◌, map, Option, none, some, ◌==◌,
  if◌then◌else◌, Bytes, bytes_eq, is_empty, length, take,
}
use pertisk_proxy.Text.{codes, trim, strip_prefix, split, split_once}
use pertisk_proxy.Edge.Base64.{b64url_decode}
use pertisk_proxy.Edge.Auth.{from_utf8, verify_jwt}
use pertisk_proxy.Edge.Policy.{RouteAuth, basic, api_key, jwt, forward}

-- `replace` of both characters of the standard alphabet.
url_safe : ℕ → ℕ
url_safe c = if c == b'+' then b'-' else if c == b'/' then b'_' else c

unfoldable pub b64url_decode_std : Bytes → Option Bytes
unfolding url_safe b64url_decode
b64url_decode_std data_in =
    let text = map url_safe (trim data_in) in
    b64url_decode (text ++ take ((4 - length text % 4) % 4) (codes "==="))

pair_of : Option Bytes → Option (Bytes × Bytes)
pair_of none = none
pair_of (some text) = split_once b':' text

decoded_text : Option Bytes → Option Bytes
unfolding from_utf8
decoded_text none = none
decoded_text (some raw) = from_utf8 raw

basic_pair : Option Bytes → Option (Bytes × Bytes)
unfolding pair_of decoded_text b64url_decode_std
basic_pair none = none
basic_pair (some encoded) = pair_of (decoded_text (b64url_decode_std (trim encoded)))

unfoldable pub basic_credentials : Option Bytes → Option (Bytes × Bytes)
unfolding basic_pair
basic_credentials none = none
basic_credentials (some header) = basic_pair (strip_prefix (codes "Basic ") (trim header))

trimmed : Option Bytes → Option Bytes
trimmed none = none
trimmed (some s) = some (trim s)

unfoldable pub bearer_token : Option Bytes → Option Bytes
unfolding trimmed
bearer_token none = none
bearer_token (some header) = trimmed (strip_prefix (codes "Bearer ") (trim header))

-- The name and the value of a pair, split at its first `=`.
named_value : Bytes → Bytes → Option (Bytes × Bytes) → Option Bytes
named_value key pair none = if bytes_eq pair key then some [] else none
named_value key pair (some (name, value)) = if bytes_eq name key then some value else none

first_param : Bytes → List Bytes → Option Bytes
unfolding named_value
first_param key [] = none
first_param key (pair ∷ pairs) =
    let rest = first_param key pairs in
    elim (named_value key pair (split_once b'=' pair)) [ some value ↦ some value | none ↦ rest ]

unfoldable pub query_param : Bytes → Bytes → Option Bytes
unfolding first_param
query_param query key = first_param key (split b'&' query)

filled_or : Option Bytes → Option Bytes → Option Bytes
filled_or none o = o
filled_or (some v) o = if is_empty v then o else some v

unfoldable pub query_token : Bytes → Option Bytes
unfolding query_param filled_or
query_token query =
    filled_or (query_param query (codes "pertisk_token"))
      (filled_or (query_param query (codes "araleztoken")) none)

is_login : Bytes → Bytes → Option (Bytes × Bytes) → Bool
is_login username password none = false
is_login username password (some (user, pass)) = bytes_eq user username && bytes_eq pass password

is_text : Bytes → Option Bytes → Bool
is_text key none = false
is_text key (some s) = bytes_eq s key

module _ (hmac : Bytes → Bytes → Bytes) (now : ℕ) where
  verify_maybe : Bytes → Option Bytes → Bool
  unfolding verify_jwt
  verify_maybe secret none = false
  verify_maybe secret (some token) = verify_jwt hmac secret token now

  -- On the values of `Authorization` and `X-API-Key`.
  unfoldable pub auth_header_ok : RouteAuth → Option Bytes → Option Bytes → Bytes → Bool
  unfolding basic_credentials bearer_token query_token verify_maybe is_login is_text
  auth_header_ok (basic username password) authorization x_api_key query =
      is_login username password (basic_credentials authorization)
  auth_header_ok (api_key key) authorization x_api_key query = is_text key x_api_key
  auth_header_ok (jwt secret) authorization x_api_key query =
      verify_maybe secret (bearer_token authorization) || verify_maybe secret (query_token query)
  auth_header_ok (forward url) authorization x_api_key query = false
