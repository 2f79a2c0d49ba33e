-- ===== src/Proxy/Response.antt =====
-- src/proxy/mod.rs: what is done to the response of an upstream. The header of the program's name and
-- the label of the protocol are arguments.
pub mod Blank
pub mod Collected
use pertisk_proxy.Base.{
  ℕ, ◌+◌, ◌*◌, min, max, Bool, true, false, not, ◌&&◌, ◌||◌, List, [], ◌∷◌, ◌++◌, map, Option, none,
  some, ◌==◌, leb, ltb, if◌then◌else◌, Bytes, Map, is_empty, length,
}
use pertisk_proxy.Text.{codes, print, to_lower, starts_with, contains, u64_max}
use pertisk_proxy.Edge.Limits.{Window, note_4xx}
use pertisk_proxy.Edge.Cache.{CachedResponse, CacheEntry, CacheInner, cache_put, one_mib}
use pertisk_proxy.Proxy.Headers.{Headers, header, insert_header, insert_headers}
use pertisk_proxy.Proxy.Session.{Session, request_host, is_downstream_tls}
use pertisk_proxy.Proxy.Grpc.{
  is_machine_api_host, is_grpc_server_streaming, prepare_streaming_response_headers,
  strip_hop_by_hop_response_headers,
}
use pertisk_proxy.Proxy.Registry.{is_oci_registry_path, prepare_registry_response_headers}
use pertisk_proxy.Proxy.Context.{Gateway, RequestCtx}

pub record Response : Type 0 where
  pub status : ℕ
  pub headers : Headers

starts_sse : Option Bytes → Bool
starts_sse none = false
starts_sse (some ct) = starts_with (codes "text/event-stream") ct

is_sse_response : Response → Bool
unfolding starts_sse
is_sse_response r = starts_sse (header (codes "content-type") r.headers)

mark_sse : Response → RequestCtx → RequestCtx
unfolding is_sse_response
mark_sse r ctx = if is_sse_response r then record ctx { is_long_lived_stream = true } else ctx

allows_cache : Option Bytes → Bool
allows_cache none = true
allows_cache (some v) =
    not (contains (codes "no-store") (to_lower v)) && not (contains (codes "private") (to_lower v))

is_cacheable : Response → Bool
unfolding allows_cache
is_cacheable r =
    (leb 200 r.status && ltb r.status 300)
    && allows_cache (header (codes "cache-control") r.headers)

type_or_stream : Option Bytes → Bytes
type_or_stream none = codes "application/octet-stream"
type_or_stream (some ct) = ct

-- The headers that a kind of response keeps.
response_headers_of : Session → Response → RequestCtx → Headers
response_headers_of s r ctx =
    let streaming = ctx.is_long_lived_stream || (ctx.is_grpc && is_grpc_server_streaming s.path) in
    if ctx.is_websocket || r.status == 101
    then r.headers
    else if streaming && (leb 200 r.status && ltb r.status 300)
    then prepare_streaming_response_headers r.headers
    else if ctx.is_grpc || (ctx.is_long_lived_stream || s.http2)
    then strip_hop_by_hop_response_headers r.headers
    else r.headers

-- Whether the body is collected, and its type.
mark_cacheable : Response → RequestCtx → RequestCtx
unfolding is_cacheable type_or_stream
mark_cacheable r ctx =
    if ctx.cache_collect
    then (if is_cacheable r
        then record ctx {
          cache_collect = true;
          cache_type = type_or_stream (header (codes "content-type") r.headers);
        }
        else record ctx { cache_collect = false })
    else ctx

note_client : ℕ → Option Bytes → Option Bytes → Map Window → Map Window
note_client sec (some ip) (some host) m = note_4xx sec ip host m
note_client sec _ _ m = m

-- At the second `sec`, over the windows of the clients' errors.
unfoldable pub response_filter :
    ℕ → Session → Response × RequestCtx × Map Window → Response × RequestCtx × Map Window
unfolding mark_sse response_headers_of mark_cacheable note_client
response_filter sec s (r, ctx, windows) =
    let ctx1 = mark_sse r ctx in
    let r1 = record r { headers = response_headers_of s r ctx1 } in
    let ctx2 = mark_cacheable r1 (record ctx1 { cache_status = r1.status }) in
    (
      r1,
      ctx2,
      if leb 400 r1.status && ltb r1.status 500
          then note_client sec ctx2.rate_client ctx2.rate_host windows
          else windows,
    )

unfoldable pub alt_svc_header_value : Bool → ℕ → Bytes → RequestCtx → Option Bytes
alt_svc_header_value enable_h3 h3_port host ctx =
    if ctx.is_grpc || (ctx.is_long_lived_stream || is_machine_api_host host)
    then some (codes "clear")
    else if enable_h3
    then some (
        codes "h3=\":"
        ++ (print h3_port
            ++ (codes "\"; ma=86400; persist=1, h3-29=\":"
                ++ (print h3_port ++ codes "\"; ma=86400; persist=1"))))
    else none

advertise : Bool → Option Bytes → Headers → Headers
advertise tls (some alt_svc) headers = insert_header (codes "alt-svc") alt_svc headers
advertise tls none headers =
    if tls then insert_header (codes "alt-svc") (codes "clear") headers else headers

-- A header map takes a name in any case.
lower_names : Map Bytes → Headers
lower_names entries = map (λ h. (to_lower h.0, h.1)) entries

unfoldable pub upstream_response_filter :
    Bytes → Bytes → Gateway → Session → Response × RequestCtx → Response × RequestCtx
unfolding mark_sse alt_svc_header_value advertise lower_names
upstream_response_filter protocol app_name g s (r, ctx) =
    let named =
      insert_header (codes "x-app-name") app_name
        (insert_header (codes "server") (codes "pertisk-proxy/" ++ protocol) r.headers) in
    let ctx1 = mark_sse (record r { headers = named }) ctx in
    let routed =
      if is_oci_registry_path s.path
      then prepare_registry_response_headers (is_downstream_tls s) named
      else advertise (is_downstream_tls s)
          (alt_svc_header_value g.enable_h3 g.h3_port (request_host s) ctx1) named in
    (record r { headers = insert_headers (lower_names ctx1.action.response_headers) routed }, ctx1)

add_chunk : Option Bytes → RequestCtx → RequestCtx
add_chunk none ctx = ctx
add_chunk (some chunk) ctx =
    if leb (length ctx.cache_body + length chunk) one_mib
    then record ctx { cache_body = ctx.cache_body ++ chunk }
    else record ctx { cache_collect = false; cache_body = [] }

abbrev pub cached_response : RequestCtx → CachedResponse
cached_response ctx = record {
  status = ctx.cache_status;
  headers =
      (codes "content-type", ctx.cache_type)
      ∷ (codes "content-length", print (length ctx.cache_body))
      ∷ [];
  body = ctx.cache_body;
}

-- At the steady time `now`, in nanoseconds; `next_key` is the key that the cache drops to make room.
module _ (next_key : Map CacheEntry → Option Bytes) (now : ℕ) (g : Gateway) where
  abbrev pub put_response : Bytes → CachedResponse → CacheInner → CacheInner
  put_response key response cache =
      cache_put next_key now key response (max g.table.globals.cache_ttl_secs 1 * 1000000000)
        (min (g.table.globals.cache_size_mb * 1048576) u64_max) cache

  put_collected : Option Bytes → RequestCtx × CacheInner → RequestCtx × CacheInner
  put_collected none (ctx, cache) = (ctx, cache)
  put_collected (some key) (ctx, cache) =
      (record ctx { cache_body = [] }, put_response key (cached_response ctx) cache)

  unfoldable pub response_body_filter :
      Option Bytes → Bool → RequestCtx × CacheInner → RequestCtx × CacheInner
  unfolding add_chunk put_collected
  response_body_filter body end_of_stream (ctx, cache) =
      let ctx1 = add_chunk body ctx in
      if ctx.cache_collect
      then (if end_of_stream && ctx1.cache_collect
          then put_collected ctx1.cache_key (ctx1, cache)
          else (ctx1, cache))
      else (ctx, cache)
