-- ===== src/Proxy/Upstream.antt =====
-- src/proxy/mod.rs: `upstream_request_filter`, what is done to a request before it is sent to its peer.
-- Whether a text is a path that the URI type takes is an argument.
pub mod Registries
use pertisk_proxy.Base.{
  Bool, true, false, not, ◌&&◌, ◌||◌, List, [], ◌∷◌, ◌++◌, map, Option, none, some, if◌then◌else◌,
  Bytes, bytes_eq, Map, is_empty,
}
use pertisk_proxy.Text.{codes, to_lower, strip_prefix}
use pertisk_proxy.Proxy.ClientIp.{forwarded_client_ip_header_pairs}
use pertisk_proxy.Proxy.Headers.{Headers, header, insert_header, insert_headers}
use pertisk_proxy.Proxy.Session.{Session, request_host, is_downstream_tls, session_client_ip}
use pertisk_proxy.Proxy.Grpc.{
  merge_cookie_headers, prepare_upstream_streaming_request, rewrite_upstream_grpc_path,
  prepare_upstream_request,
}
use pertisk_proxy.Proxy.Registry.{
  is_oci_registry_path, normalize_registry_token_request, prepare_registry_upstream_request,
}
use pertisk_proxy.Proxy.Context.{Outside, RequestCtx}

pub record UpstreamRequest : Type 0 where
  pub method : Bytes
  pub path : Bytes
  pub query : Option Bytes
  pub headers : Headers

lower_pairs : Map Bytes → Headers
lower_pairs entries = map (λ h. (to_lower h.0, h.1)) entries

name_host : Bytes → Headers → Headers
name_host host headers =
    if is_empty host then headers else insert_header (codes "host") host headers

name_scheme : Bool → Bytes → Headers → Headers
name_scheme applies host headers =
    if applies
    then insert_header (codes "x-forwarded-host") host
        (insert_header (codes "x-forwarded-proto") (codes "https") headers)
    else headers

inject_forwarded_client_ip : Bytes → Headers → Headers
unfolding lower_pairs
inject_forwarded_client_ip client_ip headers =
    insert_headers
      (lower_pairs
        (forwarded_client_ip_header_pairs client_ip (header (codes "x-forwarded-for") headers)))
      headers

name_client : Bool → Option Bytes → Headers → Headers
unfolding inject_forwarded_client_ip
name_client applies none headers = headers
name_client applies (some ip) headers =
    if applies then inject_forwarded_client_ip ip headers else headers

-- The path is rebuilt without the query.
stripped_to : (Bytes → Bool) → Option Bytes → UpstreamRequest → Option UpstreamRequest
stripped_to valid_path none u = some u
stripped_to valid_path (some rest) u =
    let new_path = if is_empty rest then codes "/" else rest in
    if valid_path new_path then some (record u { path = new_path; query = none }) else none

strip_request : (Bytes → Bool) → Bool → Option Bytes → UpstreamRequest → Option UpstreamRequest
unfolding stripped_to
strip_request valid_path skip none u = some u
strip_request valid_path skip (some prefix) u =
    if skip then some u else stripped_to valid_path (strip_prefix prefix u.path) u

client_addr_of : Session → Option Bytes
client_addr_of s = s.client_addr

registry_step : Session → UpstreamRequest → UpstreamRequest
unfolding client_addr_of
registry_step s u =
    let (method, headers) = normalize_registry_token_request u.path u.query (u.method, u.headers) in
    if is_oci_registry_path u.path
    then record u {
      method = method;
      headers =
          prepare_registry_upstream_request method u.path (request_host s) (client_addr_of s)
            (is_downstream_tls s) headers;
    }
    else u

streaming_step : RequestCtx → UpstreamRequest → UpstreamRequest
streaming_step ctx u =
    if ctx.is_grpc || ctx.is_long_lived_stream
    then record u { headers = prepare_upstream_streaming_request u.headers }
    else u

grpc_step : (Bytes → Bool) → RequestCtx → UpstreamRequest → Option UpstreamRequest
grpc_step valid_path ctx u =
    let sent = prepare_upstream_request ctx.is_grpc_web u.headers in
    let new_path = rewrite_upstream_grpc_path u.path in
    if not ctx.is_grpc
    then some u
    else if ctx.is_grpc_web
    then some (record u { headers = sent })
    else if valid_path new_path || bytes_eq new_path u.path
    then some (record u { path = new_path; headers = sent })
    else none

-- The headers of the client's request, with the host, the scheme and the client that the proxy knows.
announced : Outside → Session → RequestCtx → Headers → Headers
unfolding name_host name_scheme name_client
announced o s ctx headers =
    name_client (not ctx.is_registry) (session_client_ip o.parse_ip o.print_ip s) (
      name_scheme (not ctx.is_registry && is_downstream_tls s) (request_host s)
        (name_host (request_host s) headers))

-- What follows the stripped path.
finish : (Bytes → Bool) → Session → RequestCtx → Option UpstreamRequest → Option UpstreamRequest
unfolding registry_step streaming_step grpc_step lower_pairs
finish valid_path s ctx none = none
finish valid_path s ctx (some u) =
    let headers =
      merge_cookie_headers (insert_headers (lower_pairs ctx.action.request_headers) u.headers) in
    grpc_step valid_path ctx (streaming_step ctx (registry_step s (record u { headers = headers })))

unfoldable pub upstream_request_filter :
    Outside → (Bytes → Bool) → Session → RequestCtx → UpstreamRequest → Option UpstreamRequest
unfolding announced strip_request finish
upstream_request_filter o valid_path s ctx u = finish valid_path s ctx (
    strip_request valid_path ctx.is_grpc_web ctx.action.strip_prefix
      (record u { headers = announced o s ctx u.headers }))
