-- ===== src/Proxy/Session.antt =====
-- src/proxy/mod.rs, src/health.rs, src/deny.rs: what is read of a request and its connection, and what
-- is done before any route is looked for.
use pertisk_proxy.Base.{
  ℕ, ◌+◌, ◌*◌, Bool, true, false, not, ◌&&◌, ◌||◌, List, [], ◌∷◌, map, Option, none, some, ◌==◌,
  if◌then◌else◌, Bytes, bytes_eq, any, keep, is_empty,
}
use pertisk_proxy.Text.{codes, trim, to_lower, before, split, split_once, has_byte}
use pertisk_proxy.Security.Waf.{from_hex}
use pertisk_proxy.Edge.Auth.{from_utf8}
use pertisk_proxy.Router.Upstream.{trim_end_byte}
use pertisk_proxy.Proxy.Headers.{Headers, header}
use pertisk_proxy.Proxy.ClientIp.{IpAddr, resolve_client_ip}
use pertisk_proxy.Proxy.Grpc.{get_method}

-- The request line, the headers, and of the connection its protocol, whether it is encrypted, and the
-- address of the peer, from `client_addr` alone, and as `socket_ip` from the digest where that has none.
-- `authority` is the host of that part of the URI.
pub record Session : Type 0 where
  pub method : Bytes
  pub path : Bytes
  pub query : Option Bytes
  pub path_and_query : Option Bytes
  pub authority : Option Bytes
  pub scheme : Option Bytes
  pub headers : Headers
  pub http2 : Bool
  pub encrypted : Bool
  pub client_addr : Option Bytes
  pub socket_ip : Option Bytes

authority_or_empty : Option Bytes → Bytes
authority_or_empty none = []
authority_or_empty (some host) = host

host_or_authority : Option Bytes → Option Bytes → Bytes
unfolding authority_or_empty
host_or_authority none authority = authority_or_empty authority
host_or_authority (some host) authority =
    if is_empty (trim host) then authority_or_empty authority else before b':' (trim host)

unfoldable pub request_host : Session → Bytes
unfolding host_or_authority
request_host s = host_or_authority (header (codes "host") s.headers) s.authority

-- `path_and_query().map(as_str).unwrap_or(path)`.
abbrev whole_or : Option Bytes → Bytes → Bytes
whole_or none path = path
whole_or (some pq) path = pq

abbrev pub path_q : Session → Bytes
path_q s = whole_or s.path_and_query s.path

abbrev text_or_empty : Option Bytes → Bytes
text_or_empty none = []
text_or_empty (some s) = s

abbrev pub query_of : Session → Bytes
query_of s = text_or_empty s.query

is_value : Bytes → Option Bytes → Bool
is_value v none = false
is_value v (some s) = bytes_eq s v

encrypted_scheme : Option Bytes → Bool
unfolding is_value
encrypted_scheme scheme = is_value (codes "https") scheme || is_value (codes "wss") scheme

unfoldable pub is_downstream_tls : Session → Bool
unfolding encrypted_scheme is_value
is_downstream_tls s =
    s.encrypted
    || (s.http2
        || (encrypted_scheme s.scheme
            || is_value (codes "https") (header (codes "x-forwarded-proto") s.headers)))

unfoldable pub is_plain_http : Session → Bool
unfolding encrypted_scheme is_value
is_plain_http s =
    not (is_value (codes "https") (header (codes "x-forwarded-proto") s.headers))
    && not (encrypted_scheme s.scheme)

unfoldable pub session_client_ip :
    (Bytes → Option IpAddr) → (IpAddr → Bytes) → Session → Option Bytes
session_client_ip parse_ip print_ip s =
    resolve_client_ip parse_ip print_ip s.socket_ip (header (codes "x-forwarded-for") s.headers)
      (header (codes "x-real-ip") s.headers)

plus_as_space : ℕ → ℕ
plus_as_space c = if c == b'+' then b' ' else c

cons_some : ℕ → Option Bytes → Option Bytes
cons_some c none = none
cons_some c (some s) = some (c ∷ s)

cons_escape : Option ℕ → Option ℕ → Option Bytes → Option Bytes
unfolding cons_some
cons_escape (some h) (some l) rest = cons_some (h * 16 + l) rest
cons_escape _ _ rest = none

-- The bytes; none at an escape without two hex digits. A `%` with fewer than two bytes behind it stays.
decoded_bytes : Bytes → Option Bytes
unfolding plus_as_space cons_some cons_escape
decoded_bytes [] = some []
decoded_bytes (c ∷ []) = some (plus_as_space c ∷ [])
decoded_bytes (c ∷ d ∷ []) = some (plus_as_space c ∷ plus_as_space d ∷ [])
decoded_bytes (c ∷ h ∷ l ∷ s) = elim (c == b'%') [
  | true ↦ cons_escape (from_hex h) (from_hex l) (decoded_bytes s)
  | false ↦ cons_some (plus_as_space c) (decoded_bytes (h ∷ l ∷ s))
]

text_from : Option Bytes → Option Bytes
text_from none = none
text_from (some s) = from_utf8 s

unfoldable pub urlencoding_decode : Bytes → Option Bytes
unfolding decoded_bytes text_from
urlencoding_decode input = text_from (decoded_bytes input)

decoded_or_plain : Bytes → Option Bytes → Bytes
unfolding plus_as_space
decoded_or_plain v none = map plus_as_space v
decoded_or_plain v (some text) = text

named_param : Bytes → Bytes → Option (Bytes × Bytes) → Option Bytes
named_param key pair none = if bytes_eq pair key then some [] else none
named_param key pair (some (name, value)) = if bytes_eq name key then some value else none

first_named : Bytes → List Bytes → Option Bytes
unfolding named_param
first_named key [] = none
first_named key (pair ∷ pairs) =
    let rest = first_named key pairs in
    elim (named_param key pair (split_once b'=' pair)) [ some v ↦ some v | none ↦ rest ]

decoded_maybe : Option Bytes → Option Bytes
unfolding decoded_or_plain urlencoding_decode
decoded_maybe none = none
decoded_maybe (some v) = some (decoded_or_plain v (urlencoding_decode v))

-- `query_param` of the proxy: the value is decoded.
unfoldable pub decoded_query_param : Bytes → Bytes → Option Bytes
unfolding first_named decoded_maybe
decoded_query_param query key = decoded_maybe (first_named key (split b'&' query))

unfoldable pub is_health_path : Bytes → Bool
is_health_path path = any (bytes_eq path) (
    codes "/api/health"
    ∷ codes "/health"
    ∷ codes "/healthz"
    ∷ codes "/readyz"
    ∷ codes "/live"
    ∷ codes "/ready"
    ∷ [])

-- Whether `try_respond_health` answers.
unfoldable pub responds_health : Bytes → Bytes → Bool
unfolding is_health_path
responds_health method path =
    is_health_path path && (bytes_eq method get_method || bytes_eq method (codes "HEAD"))

-- `deny::enabled` on the variable of the environment.
unfoldable pub deny_enabled : Option Bytes → Bool
deny_enabled none = true
deny_enabled (some raw) =
    let v = to_lower (trim raw) in
    not (any (bytes_eq v) (codes "0" ∷ codes "false" ∷ codes "off" ∷ codes "no" ∷ []))

installer_name : Bytes → Bytes
installer_name s = to_lower (trim_end_byte b':' (trim_end_byte b'.' (trim s)))

unfoldable pub installer_hosts_from : Bytes → List Bytes
unfolding installer_name
installer_hosts_from raw =
    keep (λ s. not (is_empty s) && not (has_byte b'/' s)) (map installer_name (split b',' raw))

-- On the variable of the environment, which is empty where it is missing.
unfoldable pub is_installer_host : Bytes → Bytes → Bool
unfolding installer_hosts_from
is_installer_host raw host =
    let h = to_lower (trim_end_byte b'.' (trim (before b':' host))) in
    if is_empty h
    then false
    else any (λ configured. bytes_eq configured h) (installer_hosts_from raw)

-- 421 for an encrypted connection, else 404.
unfoldable pub unknown_host_status : Bool → ℕ
unknown_host_status tls = if tls then 421 else 404
