-- ===== src/Proxy/Registry/Trust.antt =====
-- src/proxy/registry.rs: whose word the upstream of a registry takes for where a request comes from.
use pertisk_proxy.Base.{
  ◌≡◌, refl, ap, ◌∙◌, inl, inr, Bool, true, false, ◌||◌, List, [], ◌∷◌, ◌++◌, Option, none, some,
  arith, if◌then◌else◌, Bytes, bytes_eq, is_empty, Bool-cases,
}
use pertisk_proxy.Text.{codes}
use pertisk_proxy.Proxy.Headers.{
  Headers, header_all, remove_header, remove_headers, insert_header, insert_headers,
  header_all-remove_header, header_all-insert_header,
}
use pertisk_proxy.Proxy.Registry.{
  forward_proto_port_ssl, ip_pairs, is_registry_blob_upload, registry_upstream_header_pairs,
  forwarding_names, prepare_registry_upstream_request,
}

-- Of the values written one after another, the last is left; without one, the old values.
over : List Bytes → List Bytes → List Bytes
over [] old = old
over (v ∷ vs) old = over vs (v ∷ [])

header_all-insert_headers :
    (name : Bytes) (pairs hs : Headers)
    → header_all name (insert_headers pairs hs) ≡ over (header_all name pairs) (header_all name hs)
unfolding insert_headers header_all over
header_all-insert_headers name [] hs = refl
header_all-insert_headers name ((n, v) ∷ more) hs =
    header_all-insert_headers name more (insert_header n v hs)
    ∙ ap (over (header_all name more)) (header_all-insert_header n v name hs)
    ∙ (elim (Bool-cases (bytes_eq n name)) [ inl same ↦ rw same refl | inr other ↦ rw other refl ])

unfoldable pub is_one_of : Bytes → List Bytes → Bool
is_one_of name [] = false
is_one_of name (n ∷ ns) = bytes_eq n name || is_one_of name ns

pub header_all-remove_headers :
    (name : Bytes) (names : List Bytes) (hs : Headers)
    → header_all name (remove_headers names hs)
      ≡ (if is_one_of name names then [] else header_all name hs)
unfolding remove_headers is_one_of
header_all-remove_headers name [] hs = refl
header_all-remove_headers name (n ∷ ns) hs =
    header_all-remove_headers name ns (remove_header n hs)
    ∙ ap (λ vs. if is_one_of name ns then [] else vs) (header_all-remove_header n name hs)
    ∙ ground arith

abbrev pub ips : Option Bytes → List Bytes
ips none = []
ips (some ip) = if is_empty ip then [] else ip ∷ []

-- What a list of headers tells of the sender: the scheme, the port and the TLS mark follow from the
-- flag, and the host and the client are those given, each in one header; and there are no cookies.
pub record IsProxyWord (host : Bytes) (client_ip : Option Bytes) (downstream_tls : Bool)
    (hs : Headers) : Type 0 where
  pub proto :
      header_all (codes "x-forwarded-proto") hs
      ≡ codes (if downstream_tls then "https" else "http") ∷ []
  pub port :
      header_all (codes "x-forwarded-port") hs ≡ codes (if downstream_tls then "443" else "80") ∷ []
  pub ssl :
      header_all (codes "x-forwarded-ssl") hs ≡ codes (if downstream_tls then "on" else "off") ∷ []
  pub forwarded_host : header_all (codes "x-forwarded-host") hs ≡ host ∷ []
  pub real_ip : header_all (codes "x-real-ip") hs ≡ ips client_ip
  pub client_address : header_all (codes "x-forwarded-for") hs ≡ ips client_ip
  pub cookies : header_all (codes "cookie") hs ≡ []

-- The headers that are replaced or dropped.
abbrev pub written_names : List Bytes
written_names = codes "cookie" ∷ codes "accept-encoding" ∷ codes "connection" ∷ forwarding_names

prepared :
    (method path host : Bytes) (client_ip : Option Bytes) (downstream_tls : Bool)
    (headers : Headers) (name : Bytes)
    → header_all name
        (prepare_registry_upstream_request method path host client_ip downstream_tls headers)
      ≡ over
          (header_all name
            (registry_upstream_header_pairs host method path client_ip downstream_tls))
          (if is_one_of name forwarding_names
            then []
            else if bytes_eq (codes "cookie") name
            then []
            else header_all name headers)
unfolding prepare_registry_upstream_request
prepared method path host client_ip downstream_tls headers name =
    let pairs = registry_upstream_header_pairs host method path client_ip downstream_tls in
    let fewer = remove_header (codes "cookie") headers in
    header_all-insert_headers name pairs (remove_headers forwarding_names fewer)
    ∙ ap (over (header_all name pairs)) (
        header_all-remove_headers name forwarding_names fewer
        ∙ ap (λ vs. if is_one_of name forwarding_names then [] else vs)
            (header_all-remove_header (codes "cookie") name headers))

abbrev closing : Bool → Headers
closing upload = if upload then (codes "connection", codes "close") ∷ [] else []

header_all-closing :
    (name : Bytes) (upload : Bool)
    → bytes_eq (codes "connection") name ≡ false
    → header_all name (closing upload) ≡ []
unfolding header_all
header_all-closing name true other = rw other refl
header_all-closing name false other = refl

-- The headers behind the five that are always written.
abbrev others : Option Bytes → Bool → Headers
others client_ip upload = ip_pairs client_ip ++ closing upload

absent :
    (name : Bytes) (client_ip : Option Bytes) (upload : Bool)
    → bytes_eq (codes "x-real-ip") name ≡ false
    → bytes_eq (codes "x-forwarded-for") name ≡ false
    → bytes_eq (codes "connection") name ≡ false
    → header_all name (others client_ip upload) ≡ []
unfolding header_all ip_pairs
absent name none upload real for close = header_all-closing name upload close
absent name (some ip) upload real for close = elim (Bool-cases (is_empty ip)) [
  | inl nothing ↦ rw nothing (header_all-closing name upload close)
  | inr given ↦ rw (given, real, for) (header_all-closing name upload close)
]

real_ip_of :
    (client_ip : Option Bytes) (upload : Bool)
    → (header_all (codes "x-real-ip") (others client_ip upload) ≡ ips client_ip)
      × (header_all (codes "x-forwarded-for") (others client_ip upload) ≡ ips client_ip)
unfolding header_all ip_pairs bytes_eq
real_ip_of none true = (refl, refl)
real_ip_of none false = (refl, refl)
real_ip_of (some []) true = (refl, refl)
real_ip_of (some []) false = (refl, refl)
real_ip_of (some (c ∷ ip)) true = (refl, refl)
real_ip_of (some (c ∷ ip)) false = (refl, refl)

over_one : (vs : List Bytes) (v : Bytes) → vs ≡ [] → over vs (v ∷ []) ≡ v ∷ []
unfolding over
over_one vs v e = rw e refl

over_none :
    (client_ip : Option Bytes) (vs : List Bytes) → vs ≡ ips client_ip → over vs [] ≡ ips client_ip
unfolding over
over_none none vs e = rw e refl
over_none (some []) vs e = rw e refl
over_none (some (c ∷ ip)) vs e = rw e refl

told_of :
    (tls : Bool)
    → ((forward_proto_port_ssl tls).0 ≡ codes (if tls then "https" else "http"))
      × ((forward_proto_port_ssl tls).1 ≡ codes (if tls then "443" else "80"))
      × ((forward_proto_port_ssl tls).2 ≡ codes (if tls then "on" else "off"))
unfolding forward_proto_port_ssl
told_of true = (refl, refl, refl)
told_of false = (refl, refl, refl)

-- Whatever the headers before: the registry gets each of the scheme, the port, the TLS mark and the host
-- in one header, with the value that is given, the address of the client in one header of each of its
-- two names, or in none where it is not known, and no cookie.
pub prepare_registry_upstream_request-IsProxyWord :
    (method path host : Bytes) (client_ip : Option Bytes) (downstream_tls : Bool)
    (headers : Headers)
    → IsProxyWord host client_ip downstream_tls
        (prepare_registry_upstream_request method path host client_ip downstream_tls headers)
unfolding registry_upstream_header_pairs header_all is_one_of bytes_eq over
prepare_registry_upstream_request-IsProxyWord method path host client_ip downstream_tls headers =
    let told = prepared method path host client_ip downstream_tls headers in
    let upload = is_registry_blob_upload method path in
    let (real, for) = real_ip_of client_ip upload in
    record {
      proto =
          told (codes "x-forwarded-proto")
          ∙ over_one _ (forward_proto_port_ssl downstream_tls).0
              (absent (codes "x-forwarded-proto") client_ip upload refl refl refl)
          ∙ ap (λ v. v ∷ []) (told_of downstream_tls).0;
      port =
          told (codes "x-forwarded-port")
          ∙ over_one _ (forward_proto_port_ssl downstream_tls).1
              (absent (codes "x-forwarded-port") client_ip upload refl refl refl)
          ∙ ap (λ v. v ∷ []) (told_of downstream_tls).1;
      ssl =
          told (codes "x-forwarded-ssl")
          ∙ over_one _ (forward_proto_port_ssl downstream_tls).2
              (absent (codes "x-forwarded-ssl") client_ip upload refl refl refl)
          ∙ ap (λ v. v ∷ []) (told_of downstream_tls).2;
      forwarded_host =
          told (codes "x-forwarded-host")
          ∙ over_one _ _ (absent (codes "x-forwarded-host") client_ip upload refl refl refl);
      real_ip = told (codes "x-real-ip") ∙ over_none client_ip _ real;
      client_address = told (codes "x-forwarded-for") ∙ over_none client_ip _ for;
      cookies =
          told (codes "cookie")
          ∙ ap (λ vs. over vs []) (absent (codes "cookie") client_ip upload refl refl refl);
    }
