-- ===== src/Proxy/Registry.antt =====
-- src/proxy/registry.rs: the paths of an image registry, and the headers of its requests and responses.
pub mod Trust
use pertisk_proxy.Base.{
  ℕ, Bool, true, false, not, ◌&&◌, ◌||◌, List, [], ◌∷◌, ◌++◌, Option, none, some, if◌then◌else◌,
  Bytes, bytes_eq, is_empty,
}
use pertisk_proxy.Text.{codes, before, contains, starts_with, strip_prefix}
use pertisk_proxy.Proxy.Headers.{
  Headers, header, remove_header, remove_headers, insert_header, insert_headers,
}
use pertisk_proxy.Proxy.Grpc.{get_method, post_method}

unfoldable pub is_oci_registry_path : Bytes → Bool
is_oci_registry_path path =
    let path_only = before b'?' path in
    bytes_eq path_only (codes "/v2")
    || (starts_with (codes "/v2/") path_only || bytes_eq path_only (codes "/service/token"))

unfoldable pub is_registry_blob_upload : Bytes → Bytes → Bool
is_registry_blob_upload method path =
    let path_only = before b'?' path in
    (bytes_eq method (codes "PUT") || bytes_eq method (codes "PATCH"))
    && ((bytes_eq path_only (codes "/v2") || contains (codes "/v2/") path_only)
        && contains (codes "/blobs/uploads/") path_only)

unfoldable pub forward_proto_port_ssl : Bool → Bytes × Bytes × Bytes
forward_proto_port_ssl downstream_tls =
    if downstream_tls
    then (codes "https", codes "443", codes "on")
    else (codes "http", codes "80", codes "off")

pub ip_pairs : Option Bytes → Headers
ip_pairs none = []
ip_pairs (some ip) =
    if is_empty ip then [] else (codes "x-real-ip", ip) ∷ ((codes "x-forwarded-for", ip) ∷ [])

unfoldable pub registry_upstream_header_pairs :
    Bytes → Bytes → Bytes → Option Bytes → Bool → Headers
unfolding forward_proto_port_ssl ip_pairs is_registry_blob_upload
registry_upstream_header_pairs host method path client_ip downstream_tls =
    let (proto, port, ssl) = forward_proto_port_ssl downstream_tls in
    (codes "x-forwarded-proto", proto)
    ∷ (codes "x-forwarded-host", host)
    ∷ (codes "x-forwarded-port", port)
    ∷ (codes "x-forwarded-ssl", ssl)
    ∷ (codes "accept-encoding", codes "identity")
    ∷ (ip_pairs client_ip
        ++ (if is_registry_blob_upload method path
            then (codes "connection", codes "close") ∷ []
            else []))

abbrev pub forwarding_names : List Bytes
forwarding_names =
    codes "x-forwarded-host"
    ∷ codes "x-forwarded-port"
    ∷ codes "x-forwarded-proto"
    ∷ codes "x-forwarded-ssl"
    ∷ codes "x-real-ip"
    ∷ codes "x-forwarded-for"
    ∷ []

-- Cookies and the forwarding headers of the client are dropped, and those of the proxy written.
unfoldable pub prepare_registry_upstream_request :
    Bytes → Bytes → Bytes → Option Bytes → Bool → Headers → Headers
unfolding registry_upstream_header_pairs
prepare_registry_upstream_request method path host client_ip downstream_tls headers =
    insert_headers (registry_upstream_header_pairs host method path client_ip downstream_tls)
      (remove_headers forwarding_names (remove_header (codes "cookie") headers))

text_or : Bytes → Option Bytes → Bytes
text_or d none = d
text_or d (some s) = s

some_text : Option Bytes → Bool
some_text none = false
some_text (some q) = not (is_empty q)

-- The method and the headers of a token request, of which the path and the query are given.
unfoldable pub normalize_registry_token_request :
    Bytes → Option Bytes → Bytes × Headers → Bytes × Headers
unfolding text_or some_text
normalize_registry_token_request path query (method, headers) =
    let content_length = text_or (codes "0") (header (codes "content-length") headers) in
    let body_empty = bytes_eq content_length (codes "0") || is_empty content_length in
    if not (bytes_eq method post_method) || not (bytes_eq path (codes "/service/token"))
    then (method, headers)
    else if some_text query || body_empty
    then (get_method, remove_header (codes "content-length") headers)
    else (method, headers)

https_behind : Option Bytes → Option Bytes
https_behind none = none
https_behind (some rest) = some (codes "https://" ++ rest)

unfoldable pub rewrite_registry_location_value : Bytes → Bool → Option Bytes
unfolding https_behind
rewrite_registry_location_value loc downstream_tls =
    if downstream_tls then https_behind (strip_prefix (codes "http://") loc) else none

relocated : Option Bytes → Headers → Headers
relocated none headers = headers
relocated (some https) headers = insert_header (codes "location") https headers

https_location : Option Bytes → Option Bytes
unfolding rewrite_registry_location_value
https_location none = none
https_location (some loc) = rewrite_registry_location_value loc true

unfoldable pub prepare_registry_response_headers : Bool → Headers → Headers
unfolding relocated https_location
prepare_registry_response_headers downstream_tls headers =
    let cleared =
      insert_header (codes "alt-svc") (codes "clear")
        (remove_header (codes "set-cookie") headers) in
    if downstream_tls
    then relocated (https_location (header (codes "location") cleared)) cleared
    else cleared
