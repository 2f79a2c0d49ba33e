-- ===== src/Proxy/Grpc.antt =====
-- src/proxy/grpc.rs: which requests are gRPC, gRPC-Web, server-sent events or WebSockets, and the headers
-- of such requests.
use pertisk_proxy.Base.{
  ℕ, Bool, false, not, ◌&&◌, ◌||◌, List, [], ◌∷◌, ◌++◌, map, Option, none, some, ◌==◌, ltb, leb,
  if◌then◌else◌, Bytes, bytes_eq, any, keep, is_empty, length, has_key,
}
use pertisk_proxy.Text.{
  codes, trim, before, split, has_byte, starts_with, ends_with, strip_prefix, eq_ignore_case, parse,
  u64_max,
}
use pertisk_proxy.Proxy.Headers.{Headers, header, header_all, insert_header, remove_headers}

abbrev pub post_method : Bytes
post_method = codes "POST"

abbrev pub get_method : Bytes
get_method = codes "GET"

abbrev content_type : Headers → Option Bytes
content_type headers = header (codes "content-type") headers

-- `is_some_and`.
abbrev pub some_and : Option Bytes → (Bytes → Bool) → Bool
some_and none p = false
some_and (some s) p = p s

unfoldable pub is_grpc_request : Headers → Bool
is_grpc_request headers = some_and (content_type headers) (λ ct.
    starts_with (codes "application/grpc") ct
    && not (starts_with (codes "application/grpc-web") ct))

unfoldable pub is_grpc_rpc_path : Bytes → Bool
is_grpc_rpc_path path =
    let path_only = before b'?' path in
    starts_with (codes "/api/") path_only
    && (ltb 5 (length path_only) && (has_byte b'.' path_only && has_byte b'/' path_only))

unfoldable pub is_machine_api_host : Bytes → Bool
is_machine_api_host host = eq_ignore_case (trim (before b':' host)) (codes "api.omni.pertisk.com")

unfoldable pub is_h2c_only_upstream : Bytes → ℕ → Bool
unfolding is_machine_api_host
is_h2c_only_upstream host port = port == 8090 || is_machine_api_host host

unfoldable pub is_grpc_web_request : Headers → Bytes → Bytes → Bool
unfolding is_grpc_rpc_path
is_grpc_web_request headers method path =
    let on_rpc = bytes_eq method post_method && is_grpc_rpc_path path in
    if some_and (content_type headers) (starts_with (codes "application/grpc-web"))
    then on_rpc
    else if some_and (header (codes "x-grpc-web") headers) (λ v. bytes_eq (trim v) (codes "1"))
    then on_rpc
    else on_rpc && any (λ h. starts_with (codes "grpc-metadata-") h.0) headers

-- Whether a request is gRPC, and whether it is gRPC-Web.
unfoldable pub classify_grpc_request : Headers → Bytes → Bytes → Bytes → Bool × Bool
unfolding is_grpc_rpc_path is_grpc_web_request is_grpc_request is_machine_api_host
classify_grpc_request headers method path host =
    let on_api_rpc = bytes_eq method post_method && is_grpc_rpc_path path in
    let forced = on_api_rpc && (is_grpc_request headers && not (is_machine_api_host host)) in
    let is_grpc_web = forced || is_grpc_web_request headers method path in
    (is_grpc_request headers || is_grpc_web, is_grpc_web)

unfoldable pub is_connect_request : Headers → Bool
is_connect_request headers =
    has_key (codes "connect-protocol-version") headers
    || some_and (content_type headers) (starts_with (codes "application/connect"))

unfoldable pub is_sse_request : Bytes → Bytes → Headers → Bool
is_sse_request method path headers =
    bytes_eq method get_method
    && (some_and (header (codes "accept") headers)
          (λ a. any (λ p. starts_with (codes "text/event-stream") (trim p)) (split b',' a))
        || (let path_only = before b'?' path in
            bytes_eq path_only (codes "/events")
            || (bytes_eq path_only (codes "/api/events") || ends_with (codes "/events") path_only)))

-- The last piece of `rsplit('/')`, unless it is empty.
last_or : Bytes → List Bytes → Bytes
last_or d [] = d
last_or d (p ∷ ps) = last_or p ps

unfoldable pub grpc_rpc_method : Bytes → Option Bytes
unfolding last_or
grpc_rpc_method path =
    let m = last_or [] (split b'/' (before b'?' path)) in if is_empty m then none else some m

abbrev streaming_methods : List Bytes
streaming_methods =
    codes "Watch"
    ∷ codes "Subscribe"
    ∷ codes "Listen"
    ∷ codes "Stream"
    ∷ codes "Tail"
    ∷ codes "Events"
    ∷ []

unfoldable pub is_grpc_server_streaming : Bytes → Bool
unfolding grpc_rpc_method
is_grpc_server_streaming path =
    some_and (grpc_rpc_method path) (λ m. any (bytes_eq m) streaming_methods)

unfoldable pub is_long_lived_api_stream : Bytes → Bytes → Headers → Bool
unfolding is_sse_request is_grpc_rpc_path is_grpc_server_streaming is_connect_request
is_long_lived_api_stream method path headers =
    let path_only = before b'?' path in
    is_sse_request method path headers
    || ((bytes_eq method get_method && bytes_eq path_only (codes "/api/live"))
        || (bytes_eq method post_method
            && (is_grpc_rpc_path path_only
                && (is_grpc_server_streaming path_only || is_connect_request headers))))

abbrev lists : Bytes → Bytes → Bool
lists token value = any (λ p. eq_ignore_case (trim p) token) (split b',' value)

unfoldable pub is_websocket_upgrade : Bytes → Headers → Bool
is_websocket_upgrade method headers =
    bytes_eq method get_method
    && (some_and (header (codes "upgrade") headers) (lists (codes "websocket"))
        && some_and (header (codes "connection") headers) (lists (codes "upgrade")))

unfoldable pub is_grpc_like_request : Headers → Bytes → Bytes → Bool
unfolding is_grpc_request is_grpc_web_request
is_grpc_like_request headers method path =
    is_grpc_request headers || is_grpc_web_request headers method path

unfoldable pub is_h3_incompatible_request : Headers → Bytes → Bytes → Bool
unfolding is_sse_request is_grpc_like_request is_grpc_rpc_path
is_h3_incompatible_request headers method path =
    is_sse_request method path headers
    || (is_grpc_like_request headers method path
        || (bytes_eq method post_method && is_grpc_rpc_path path))

unfoldable pub uses_h2c_upstream : Bool → Bool → Bool
uses_h2c_upstream is_grpc is_grpc_web = is_grpc && not is_grpc_web

-- The message of an error, or none.
unfoldable pub validate_downstream : Bytes → Bool → Bool → Option Bytes
validate_downstream method http2 is_grpc_web =
    if not (bytes_eq method post_method)
    then some (codes "gRPC requires POST")
    else if not is_grpc_web && not http2
    then some (codes "gRPC requires HTTP/2")
    else none

trim_slashes : Bytes → Bytes
trim_slashes [] = []
trim_slashes (c ∷ s) = let rest = trim_slashes s in if c == b'/' then rest else c ∷ s

api_stripped : Bytes → Option Bytes → Bytes
unfolding trim_slashes
api_stripped path (some rest) = if is_empty rest then codes "/" else b'/' ∷ trim_slashes rest
api_stripped path none = if bytes_eq path (codes "/api") then codes "/" else path

-- The path that `rewrite_upstream_grpc_path` leaves; the query stays.
unfoldable pub rewrite_upstream_grpc_path : Bytes → Bytes
unfolding api_stripped
rewrite_upstream_grpc_path path = api_stripped path (strip_prefix (codes "/api/") path)

unfoldable pub prepare_upstream_request : Bool → Headers → Headers
unfolding remove_headers insert_header
prepare_upstream_request is_grpc_web headers =
    let stripped =
      remove_headers
        (codes "connection"
          ∷ codes "upgrade"
          ∷ codes "transfer-encoding"
          ∷ codes "keep-alive"
          ∷ codes "proxy-connection"
          ∷ [])
        headers in
    if not is_grpc_web && not (has_key (codes "te") stripped)
    then insert_header (codes "te") (codes "trailers") stripped
    else stripped

unfoldable pub strip_hop_by_hop_response_headers : Headers → Headers
unfolding remove_headers
strip_hop_by_hop_response_headers headers =
    remove_headers
      (codes "transfer-encoding"
        ∷ codes "connection"
        ∷ codes "keep-alive"
        ∷ codes "proxy-connection"
        ∷ [])
      headers

unfoldable pub prepare_streaming_response_headers : Headers → Headers
unfolding strip_hop_by_hop_response_headers remove_headers insert_header
prepare_streaming_response_headers headers = insert_header (codes "alt-svc") (codes "clear") (
    insert_header (codes "x-accel-buffering") (codes "no") (
      insert_header (codes "cache-control") (codes "no-cache, no-transform") (
        remove_headers (codes "content-length" ∷ codes "content-encoding" ∷ [])
          (strip_hop_by_hop_response_headers headers))))

unfoldable pub prepare_upstream_streaming_request : Headers → Headers
unfolding insert_header
prepare_upstream_streaming_request headers =
    insert_header (codes "accept-encoding") (codes "identity") headers

join_semicolons : List Bytes → Bytes
join_semicolons [] = []
join_semicolons (s ∷ []) = s
join_semicolons (s ∷ t ∷ ts) = s ++ (codes "; " ++ join_semicolons (t ∷ ts))

unfoldable pub merge_cookie_headers : Headers → Headers
unfolding join_semicolons remove_headers insert_header header_all
merge_cookie_headers headers =
    let values = keep (λ s. not (is_empty s)) (map trim (header_all (codes "cookie") headers)) in
    if leb (length values) 1
    then headers
    else insert_header (codes "cookie") (join_semicolons values)
        (remove_headers (codes "cookie" ∷ []) headers)

-- The seconds that the environment gives; none stands for no limit.
seconds_or : ℕ → Option ℕ → ℕ
seconds_or d none = d
seconds_or d (some n) = n

timeout_of : Option Bytes → ℕ
unfolding seconds_or
timeout_of none = 3600
timeout_of (some v) = seconds_or 3600 (parse u64_max (trim v))

unfoldable pub grpc_upstream_timeout : Option Bytes → Option ℕ
unfolding timeout_of
grpc_upstream_timeout env = if timeout_of env == 0 then none else some (timeout_of env)
