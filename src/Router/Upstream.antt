-- ===== src/Router/Upstream.antt =====
-- src/router.rs: the backend that an upstream text names. The URL parser is another crate's: a
-- parameter, which gives the parts of a URL or refuses the text.
use pertisk_proxy.Base.{
  ℕ, ◌≤◌, ◌≡◌, refl, ap, ◌∙◌, Bool, false, ◌&&◌, [], ◌∷◌, ◌++◌, Option, none, some, arith, ◌==◌,
  if◌then◌else◌, Bytes, bytes_eq, is_empty,
}
use pertisk_proxy.Text.{
  codes, trim, before, before_whole, rsplit_once, rsplit_once-append, parse, print, parse-print,
  print-AreDigits, AreDigits-has_byte, has_byte, has_byte-append, eq_ignore_case, contains, u16_max,
  is_digit,
}
use pertisk_proxy.Router.{Backend}

-- What the proxy reads of a parsed URL; `known_port` is its port or that of its scheme.
pub record Url : Type 0 where
  pub scheme : Bytes
  pub host : Option Bytes
  pub path : Bytes
  pub port : Option ℕ
  pub known_port : Option ℕ

unfoldable pub normalize_upstream_host : Bytes → Bytes
normalize_upstream_host host =
    if eq_ignore_case host (codes "localhost") then codes "127.0.0.1" else host

-- `format!("{host}:{port}")`.
abbrev pub address_of : Bytes → ℕ → Bytes
address_of host port = host ++ (b':' ∷ print port)

abbrev plain_backend : Bytes → ℕ → Bool → Backend
plain_backend host port use_tls = record {
  address = address_of host port;
  port = port;
  use_tls = use_tls;
}

port_given : Bytes → Option ℕ → Option Backend
port_given host none = none
port_given host (some port) = some (plain_backend (normalize_upstream_host host) port false)

host_and_port : Bytes → Option (Bytes × Bytes) → Option Backend
unfolding port_given normalize_upstream_host
host_and_port whole (some (host, port)) = port_given host (parse u16_max port)
host_and_port whole none = some (plain_backend (normalize_upstream_host whole) 80 false)

unfoldable pub parse_host_port : Bytes → Option Backend
unfolding host_and_port
parse_host_port raw = host_and_port (before b'/' raw) (rsplit_once b':' (before b'/' raw))

-- `trim_start_matches` and `trim_end_matches` of one character.
trim_start_byte : ℕ → Bytes → Bytes
trim_start_byte c [] = []
trim_start_byte c (x ∷ s) = let rest = trim_start_byte c s in if x == c then rest else x ∷ s

unfoldable pub trim_end_byte : ℕ → Bytes → Bytes
trim_end_byte c [] = []
trim_end_byte c (x ∷ s) =
    let rest = trim_end_byte c s in if x == c && is_empty rest then [] else x ∷ rest

port_or : ℕ → Option ℕ → ℕ
port_or default none = default
port_or default (some port) = port

abbrev named_backend : Bytes → Backend
named_backend address = record { address = address; port = 0; use_tls = false }

file_backend : Url → Option Backend
file_backend url =
    if is_empty url.path then none else some (named_backend (codes "file:" ++ url.path))

consul_name : Url → Option Bytes → Bytes
unfolding trim_start_byte trim_end_byte
consul_name url none = trim_end_byte b'/' (trim_start_byte b'/' url.path)
consul_name url (some host) =
    if is_empty host then trim_end_byte b'/' (trim_start_byte b'/' url.path) else host

consul_backend : Url → Option Backend
unfolding consul_name
consul_backend url =
    let name = consul_name url url.host in
    if is_empty name then none else some (named_backend (codes "consul:" ++ name))

auto_backend : Url → Option Bytes → Option Backend
unfolding port_or normalize_upstream_host
auto_backend url none = none
auto_backend url (some host) =
    let port = port_or 443 url.port in
    some (record {
      address = codes "auto:" ++ address_of (normalize_upstream_host host) port;
      port = port;
      use_tls = false;
    })

web_backend : Url → Option Bytes → Option Backend
unfolding port_or normalize_upstream_host
web_backend url none = none
web_backend url (some host) =
    let use_tls = bytes_eq url.scheme (codes "https") in
    let port = port_or (if use_tls then 443 else 80) url.known_port in
    some (plain_backend (normalize_upstream_host host) port use_tls)

unfoldable pub url_backend : Url → Option Backend
unfolding file_backend consul_backend auto_backend web_backend
url_backend url =
    if bytes_eq url.scheme (codes "file")
    then file_backend url
    else if bytes_eq url.scheme (codes "consul")
    then consul_backend url
    else if bytes_eq url.scheme (codes "auto")
    then auto_backend url url.host
    else web_backend url url.host

module _ (parse_url : Bytes → Option Url) where
  trimmed_upstream : Bytes → Bytes
  unfolding trim_end_byte
  trimmed_upstream raw = trim (trim_end_byte b';' (trim raw))

  unfoldable pub parse_upstream : Bytes → Option Backend
  unfolding trimmed_upstream url_backend parse_host_port
  parse_upstream raw =
      let trimmed = trimmed_upstream raw in
      if is_empty trimmed
      then none
      else if contains (codes "://") trimmed
      then (elim (parse_url trimmed) [
        | some url ↦ url_backend url
        | none ↦ parse_host_port trimmed
      ])
      else parse_host_port trimmed

no_slash : (n : ℕ) → has_byte b'/' (print n) ≡ false
no_slash n = AreDigits-has_byte b'/' (print n) (unfold is_digit in refl) (print-AreDigits n)

no_colon : (n : ℕ) → has_byte b':' (print n) ≡ false
no_colon n = AreDigits-has_byte b':' (print n) (unfold is_digit in refl) (print-AreDigits n)

-- A host without a slash, with a port of 16 bits, is read back from its address: the same host
-- (127.0.0.1 for localhost), the same port, and no TLS; colons in the host do no harm.
pub parse_host_port-address_of :
    (host : Bytes) (port : ℕ)
    → has_byte b'/' host ≡ false
    → port ≤ u16_max
    → parse_host_port (address_of host port)
      ≡ some (record {
        address = address_of (normalize_upstream_host host) port;
        port = port;
        use_tls = false;
      })
unfolding parse_host_port host_and_port
parse_host_port-address_of host port slash small =
    let clean : has_byte b'/' (address_of host port) ≡ false =
      has_byte-append b'/' host (b':' ∷ print port)
      ∙ rw slash (unfold has_byte in ground (arith, no_slash port)) in
    let whole = before_whole b'/' (address_of host port) clean in
    ap (λ r. host_and_port r (rsplit_once b':' r)) whole
    ∙ ap (host_and_port (address_of host port))
        (rsplit_once-append b':' host (print port) (no_colon port))
    ∙ ap (port_given host) (parse-print u16_max port small)
    ∙ unfold port_given in refl
