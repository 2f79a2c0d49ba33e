-- ===== src/Proxy/Forward.antt =====
-- src/proxy/forward.rs: the plan by which a request is forwarded, over the state of the Consul endpoints
-- and of the TLS probes.

pub mod Plans
use pertisk_proxy.Base.{
  ℕ, Bool, true, false, List, [], ◌∷◌, ◌++◌, Option, none, some, if◌then◌else◌, Bytes, Map,
  is_empty,
}
use pertisk_proxy.Text.{codes, before, split_once, rsplit_once, strip_prefix, parse, print, u16_max}
use pertisk_proxy.Geoip.{GeoIpPolicy, geoip_default}
use pertisk_proxy.Security.Pipeline.{SecurityPolicy, security_default}
use pertisk_proxy.Edge.Policy.{EdgePolicy, edge_default}
use pertisk_proxy.Edge.Consul.{ConsulState, TlsProbe, consul_pick, probe_upstream_tls}
use pertisk_proxy.Router.{
  Backend, Middleware, Route, RouteTable, match_route_entry, strip_prefix_of, request_headers,
  response_headers,
}
use pertisk_proxy.Router.Edges.{edge_for}

pub record MiddlewareAction : Type 0 where
  pub strip_prefix : Option Bytes
  pub request_headers : Map Bytes
  pub response_headers : Map Bytes
  pub forward_client_ip : Bool
  pub geoip : GeoIpPolicy
  pub security : SecurityPolicy
  pub edge : EdgePolicy
  pub file_root : Option Bytes

-- `MiddlewareAction::default`.
abbrev pub action_default : MiddlewareAction
action_default = record {
  strip_prefix = none;
  request_headers = [];
  response_headers = [];
  forward_client_ip = true;
  geoip = geoip_default;
  security = security_default;
  edge = edge_default;
  file_root = none;
}

apply_middleware : Middleware → MiddlewareAction → MiddlewareAction
apply_middleware (strip_prefix_of prefix) action = record action { strip_prefix = some prefix }
apply_middleware (request_headers headers) action = record action {
  request_headers = action.request_headers ++ headers;
}
apply_middleware (response_headers headers) action = record action {
  response_headers = action.response_headers ++ headers;
}

-- The rest of the middlewares, on what was gathered.
apply_from : List Middleware → MiddlewareAction → MiddlewareAction
unfolding apply_middleware
apply_from [] action = action
apply_from (mw ∷ mws) action = apply_from mws (apply_middleware mw action)

unfoldable pub apply_middlewares : List Middleware → MiddlewareAction
unfolding apply_from
apply_middlewares middlewares = apply_from middlewares action_default

pub record ForwardPlan : Type 0 where
  pub peer_host : Bytes
  pub peer_port : ℕ
  pub upstream_url : Bytes
  pub use_tls : Bool
  pub middleware : MiddlewareAction

-- 404, 503 and an internal error.
pub data ForwardError : Type 0 where
  no_route no_endpoint invalid_port : ForwardError

pub data Forwarded : Type 0 where
  planned : ForwardPlan → Forwarded
  failed : ForwardError → Forwarded

stripped_or_whole : Option Bytes → Bytes → Bytes
stripped_or_whole none path = path
stripped_or_whole (some rest) path = rest

-- A path that is stripped to nothing is the root.
strip_path : Bytes → Bytes → Bytes
unfolding stripped_or_whole
strip_path path prefix =
    let stripped = stripped_or_whole (strip_prefix prefix path) path in
    if is_empty stripped then codes "/" else stripped

strip_parts : Option (Bytes × Bytes) → Bytes → Bytes → Bytes
unfolding strip_path
strip_parts (some (path, query)) whole prefix = strip_path path prefix ++ (b'?' ∷ query)
strip_parts none whole prefix = strip_path whole prefix

unfoldable pub strip_path_prefix : Bytes → Bytes → Bytes
unfolding strip_parts
strip_path_prefix path_and_query prefix =
    strip_parts (split_once b'?' path_and_query) path_and_query prefix

abbrev pub scheme_of : Bool → Bytes
scheme_of use_tls = if use_tls then codes "https" else codes "http"

unfoldable pub build_upstream_url : Backend → Bytes → Bytes
build_upstream_url backend path_and_query =
    scheme_of backend.use_tls ++ (codes "://" ++ (backend.address ++ path_and_query))

peer_at : Bytes → Option ℕ → Option (Bytes × ℕ)
peer_at host none = none
peer_at host (some port) = some (host, port)

peer_parts : Option (Bytes × Bytes) → Bytes → ℕ → Option (Bytes × ℕ)
unfolding peer_at
peer_parts (some (host, port)) address fallback_port = peer_at host (parse u16_max port)
peer_parts none address fallback_port = some (address, fallback_port)

-- None for an invalid port.
unfoldable pub parse_backend_peer : Bytes → ℕ → Option (Bytes × ℕ)
unfolding peer_parts
parse_backend_peer address fallback_port =
    peer_parts (rsplit_once b':' address) address fallback_port

pub record EdgeState : Type 0 where
  pub consul : ConsulState
  pub probes : Map TlsProbe

-- `upstream_path`.
unfoldable pub upstream_path_of : Option Bytes → Bytes → Bytes
unfolding strip_path_prefix
upstream_path_of (some prefix) path_and_query = strip_path_prefix path_and_query prefix
upstream_path_of none path_and_query = path_and_query

unfoldable pub middleware_of : RouteTable → Bytes → Route → MiddlewareAction
unfolding apply_middlewares
middleware_of table host route = record (apply_middlewares route.middlewares) {
  forward_client_ip = route.forward_client_ip;
  geoip = route.geoip;
  security = route.security;
  edge = edge_for table host route.path;
}

file_plan : Bytes → Bytes → MiddlewareAction → ForwardPlan
file_plan root path middleware = record {
  peer_host = codes "127.0.0.1";
  peer_port = 9;
  upstream_url = codes "file:" ++ (root ++ path);
  use_tls = false;
  middleware = record middleware { file_root = some root };
}

-- The backend at a peer that was chosen for the request.
at_peer : Backend → Bytes × ℕ → Backend
at_peer backend (host, port) = record backend { address = host ++ (b':' ∷ print port); port = port }

abbrev pub plan_for : Bytes × ℕ → Backend → Bytes → MiddlewareAction → ForwardPlan
plan_for (host, port) backend path middleware = record {
  peer_host = host;
  peer_port = port;
  upstream_url = build_upstream_url backend path;
  use_tls = backend.use_tls;
  middleware = middleware;
}

unfoldable pub consul_plan : Backend → Bytes → MiddlewareAction → Option (Bytes × ℕ) → Forwarded
unfolding at_peer build_upstream_url
consul_plan backend path middleware none = failed no_endpoint
consul_plan backend path middleware (some peer) =
    planned (plan_for peer (at_peer backend peer) path middleware)

unfoldable pub direct_plan : Backend → Bytes → MiddlewareAction → Option (Bytes × ℕ) → Forwarded
unfolding build_upstream_url
direct_plan backend path middleware none = failed invalid_port
direct_plan backend path middleware (some peer) = planned (plan_for peer backend path middleware)

module _ (tcp_looks_like_tls : Bytes → ℕ → Bool) (now later : ℕ) where
  auto_plan :
      Backend → Bytes → MiddlewareAction → Option (Bytes × ℕ) → EdgeState → Forwarded × EdgeState
  unfolding at_peer build_upstream_url probe_upstream_tls
  auto_plan backend path middleware none s = (failed invalid_port, s)
  auto_plan backend path middleware (some (host, port)) s =
      let (use_tls, probes) = probe_upstream_tls tcp_looks_like_tls host port now later s.probes in
      let there = record (at_peer backend (host, port)) { use_tls = use_tls } in
      (planned (plan_for (host, port) there path middleware), record s { probes = probes })

  plan_route :
      Backend
      → Bytes
      → MiddlewareAction
      → Option Bytes
      → Option Bytes
      → Option Bytes
      → EdgeState
      → Forwarded × EdgeState
  unfolding file_plan consul_pick consul_plan parse_backend_peer auto_plan direct_plan
  plan_route backend path middleware (some root) service rest s =
      (planned (file_plan root path middleware), s)
  plan_route backend path middleware none (some service) rest s =
      let (peer, consul) = consul_pick service s.consul in
      (consul_plan backend path middleware peer, record s { consul = consul })
  plan_route backend path middleware none none (some rest) s =
      auto_plan backend path middleware (parse_backend_peer rest backend.port) s
  plan_route backend path middleware none none none s =
      (direct_plan backend path middleware (parse_backend_peer backend.address backend.port), s)

  forward_route : RouteTable → Bytes → Bytes → Option Route → EdgeState → Forwarded × EdgeState
  unfolding plan_route upstream_path_of middleware_of
  forward_route table host path_and_query none s = (failed no_route, s)
  forward_route table host path_and_query (some route) s =
      let middleware = middleware_of table host route in
      let address = route.backend.address in
      plan_route route.backend (upstream_path_of middleware.strip_prefix path_and_query) middleware
        (strip_prefix (codes "file:") address) (strip_prefix (codes "consul:") address)
        (strip_prefix (codes "auto:") address) s

  unfoldable pub resolve_forward : RouteTable → Bytes → Bytes → EdgeState → Forwarded × EdgeState
  unfolding forward_route
  resolve_forward table host path_and_query s =
      forward_route table host path_and_query
        (match_route_entry table host (before b'?' path_and_query)) s
