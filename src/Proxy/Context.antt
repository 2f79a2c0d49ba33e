-- ===== src/Proxy/Context.antt =====
-- src/proxy/mod.rs: the gateway, what it shares between requests, and the context of a request.
use pertisk_proxy.Base.{ℕ, Bool, false, ◌||◌, List, [], Option, none, if◌then◌else◌, Bytes, Map}
use pertisk_proxy.Edge.Limits.{Window}
use pertisk_proxy.Edge.Cache.{CacheInner}
use pertisk_proxy.Security.Bot.{RateBucket}
use pertisk_proxy.Geoip.{GeoInfo}
use pertisk_proxy.Router.{RouteTable}
use pertisk_proxy.Tls.Store.{CertStore}
use pertisk_proxy.Proxy.ClientIp.{IpAddr}
use pertisk_proxy.Proxy.Headers.{Headers}
use pertisk_proxy.Proxy.Session.{Session, request_host}
use pertisk_proxy.Proxy.Grpc.{classify_grpc_request, is_long_lived_api_stream, is_websocket_upgrade}
use pertisk_proxy.Proxy.Registry.{is_oci_registry_path}
use pertisk_proxy.Proxy.Forward.{MiddlewareAction, EdgeState, action_default}

-- `Gateway` with the snapshots of its table, certificates and challenges, and the variables of the
-- environment that it reads: whether unknown hosts are refused, and the hosts of the installer.
pub record Gateway : Type 0 where
  pub table : RouteTable
  pub certs : CertStore
  pub auto_https : Bool
  pub https_port : ℕ
  pub enable_h3 : Bool
  pub h3_port : ℕ
  pub http01 : Option (Map Bytes)
  pub deny_unknown : Bool
  pub installer_hosts : Bytes

-- The code that other crates, the file system and the network give: the reader and the printer of
-- addresses, the probe of a peer, the keyed digests with the hex printer, the geographic look-up with
-- what is loaded, the content of a file below a root, and the answer of an authenticating server.
pub record Outside : Type 0 where
  pub parse_ip : Bytes → Option IpAddr
  pub print_ip : IpAddr → Bytes
  pub looks_like_tls : Bytes → ℕ → Bool
  pub jwt_mac : Bytes → Bytes → Bytes
  pub captcha_mac : Bytes → Bytes
  pub hex_encode : Bytes → Bytes
  pub geo_lookup : Bytes → Option GeoInfo
  pub country_loaded : Bool
  pub asn_loaded : Bool
  pub read_file : Bytes → List Bytes → Option Bytes
  pub forward_auth : Bytes → Bytes → Bytes → Headers → Bool

-- The wall clock in seconds; the steady clock in nanoseconds, and what it shows behind a probe.
pub record Clock : Type 0 where
  pub wall : ℕ
  pub steady : ℕ
  pub probed : ℕ

-- What requests share.
pub record Shared : Type 0 where
  pub edge : EdgeState
  pub windows : Map Window
  pub cache : CacheInner
  pub rates : Map RateBucket

-- `RequestCtx`, the fields of the plan's action taken together, without those for the log.
pub record RequestCtx : Type 0 where
  pub action : MiddlewareAction
  pub is_grpc : Bool
  pub is_grpc_web : Bool
  pub is_long_lived_stream : Bool
  pub is_websocket : Bool
  pub is_registry : Bool
  pub cache_body : Bytes
  pub cache_status : ℕ
  pub cache_collect : Bool
  pub cache_key : Option Bytes
  pub cache_type : Bytes
  pub rate_client : Option Bytes
  pub rate_host : Option Bytes

-- `From<MiddlewareAction>`.
abbrev pub ctx_from : MiddlewareAction → RequestCtx
ctx_from action = record {
  action = action;
  is_grpc = false;
  is_grpc_web = false;
  is_long_lived_stream = false;
  is_websocket = false;
  is_registry = false;
  cache_body = [];
  cache_status = 0;
  cache_collect = false;
  cache_key = none;
  cache_type = [];
  rate_client = none;
  rate_host = none;
}

-- `RequestCtx::default`.
abbrev pub ctx_default : RequestCtx
ctx_default = ctx_from (record action_default { forward_client_ip = false })

-- What is known of a request before its route: `early_request_filter`, without counters and time-outs.
unfoldable pub early_request_filter : Session → RequestCtx → RequestCtx
unfolding request_host classify_grpc_request is_long_lived_api_stream is_websocket_upgrade
    is_oci_registry_path
early_request_filter s ctx =
    let (is_grpc, is_grpc_web) = classify_grpc_request s.headers s.method s.path (request_host s) in
    let is_websocket = is_websocket_upgrade s.method s.headers in
    record ctx {
      is_long_lived_stream = is_websocket || is_long_lived_api_stream s.method s.path s.headers;
      is_websocket = is_websocket;
      is_registry = is_oci_registry_path s.path;
      is_grpc = is_grpc || ctx.is_grpc;
      is_grpc_web = if is_grpc then is_grpc_web else ctx.is_grpc_web;
    }

-- The context takes the action of a plan and keeps the classes of the request.
unfoldable pub adopt_plan : MiddlewareAction → RequestCtx → RequestCtx
adopt_plan action ctx = record (ctx_from action) {
  is_grpc = ctx.is_grpc;
  is_grpc_web = ctx.is_grpc_web;
  is_long_lived_stream = ctx.is_long_lived_stream;
  is_websocket = ctx.is_websocket;
  is_registry = ctx.is_registry;
}
