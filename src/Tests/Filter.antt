-- ===== src/Tests/Filter.antt =====
-- Runs of `request_filter` and of the filters of requests and responses of src/proxy/mod.rs.
use pertisk_proxy.Base.{
  Map, Option, Bytes, Bool, ◌≡◌, ◌⊎◌, refl, true, false, [], ◌∷◌, none, some, lookup, bytes_eq,
}
use pertisk_proxy.Text.{print, ends_with, strip_prefix, rsplit_once}
use pertisk_proxy.Router.{match_route_entry, path_matches}
use pertisk_proxy.Router.Edges.{edge_for}
use pertisk_proxy.Edge.Policy.{cache_enabled}
use pertisk_proxy.Geoip.Lookup.{evaluate_ip}
use pertisk_proxy.Geoip.{geoip_is_active}
use pertisk_proxy.Security.Captcha.{is_captcha_path}
use pertisk_proxy.Security.Pipeline.{security_is_active}
use pertisk_proxy.Security.Waf.{waf_is_active}
use pertisk_proxy.Text.{codes, to_lower, trim, split, before, starts_with}
use pertisk_proxy.Geoip.{geoip_default}
use pertisk_proxy.Security.Pipeline.{security_default}
use pertisk_proxy.Edge.Policy.{globals_default}
use pertisk_proxy.Edge.Consul.{consul_empty}
use pertisk_proxy.Tls.Store.{empty_store, has_cert_for_host}
use pertisk_proxy.Router.{RouteTable, prefix, has_host}
use pertisk_proxy.Proxy.Session.{
  Session, request_host, is_downstream_tls, responds_health, is_installer_host, is_plain_http,
}
use pertisk_proxy.Proxy.Context.{Gateway, Outside, Clock, Shared, RequestCtx, ctx_default}
use pertisk_proxy.Proxy.Headers.{Headers}
use pertisk_proxy.Proxy.Registry.{is_oci_registry_path}
use pertisk_proxy.Proxy.Upstream.{UpstreamRequest, upstream_request_filter}
use pertisk_proxy.Proxy.Upstream.Registries.{upstream_request_filter-IsProxyWord}
use pertisk_proxy.Proxy.Registry.Trust.{IsProxyWord}
use pertisk_proxy.Edge.Cache.{CacheEntry, CachedResponse}
use pertisk_proxy.Proxy.Forward.{
  ForwardPlan, Forwarded, planned, failed, action_default, resolve_forward,
}
use pertisk_proxy.Proxy.Peer.{upstream_peer}
use pertisk_proxy.Proxy.Peer.Forgotten.{upstream_peer_forgets}
use pertisk_proxy.Proxy.Response.{Response, response_filter}
use pertisk_proxy.Proxy.Response.Collected.{body_filters}
use pertisk_proxy.Proxy.Filter.{forwarded, early_stage, plan_stage, request_filter}
use pertisk_proxy.Proxy.Filter.Stages.{IsBypass}
use pertisk_proxy.Proxy.Filter.Passed.{IsGuarded, request_filter_forwarded}

abbrev no_outside : Outside
no_outside = record {
  parse_ip = λ s. none;
  print_ip = λ a. [];
  looks_like_tls = λ host port. false;
  jwt_mac = λ secret msg. [];
  captcha_mac = λ msg. [];
  hex_encode = λ b. b;
  geo_lookup = λ ip. none;
  country_loaded = false;
  asn_loaded = false;
  read_file = λ root path. none;
  forward_auth = λ url host path headers. false;
}

abbrev api_table : RouteTable
api_table = record {
  routes =
      (
        codes "a.b",
        record {
          path = codes "/api";
          path_type = prefix;
          backend = record { address = codes "10.0.0.7"; port = 8080; use_tls = false };
          middlewares = [];
          forward_client_ip = true;
          geoip = geoip_default;
          security = security_default;
        }
            ∷ [],
      )
      ∷ [];
  edge = [];
  globals = globals_default;
}

abbrev api_gateway : Gateway
api_gateway = record {
  table = api_table;
  certs = empty_store;
  auto_https = false;
  https_port = 443;
  enable_h3 = false;
  h3_port = 443;
  http01 = none;
  deny_unknown = true;
  installer_hosts = [];
}

abbrev api_session : Session
api_session = record {
  method = codes "GET";
  path = codes "/api/x";
  query = none;
  path_and_query = some (codes "/api/x");
  authority = none;
  scheme = none;
  headers = (codes "host", codes "a.b") ∷ [];
  http2 = false;
  encrypted = true;
  client_addr = none;
  socket_ip = none;
}

abbrev new_clock : Clock
new_clock = record { wall = 100; steady = 0; probed = 5 }

abbrev nothing_shared : Shared
nothing_shared = record {
  edge = record { consul = consul_empty; probes = [] };
  windows = [];
  cache = record { entries = []; bytes = 0 };
  rates = [];
}

api_forwarded :
    (request_filter no_outside new_clock api_gateway api_session (ctx_default, nothing_shared)).0
    ≡ forwarded
unfolding request_filter early_stage responds_health bytes_eq is_installer_host to_lower trim before
    lookup split is_plain_http has_host has_cert_for_host resolve_forward match_route_entry
    path_matches ends_with starts_with strip_prefix rsplit_once edge_for cache_enabled evaluate_ip
    geoip_is_active is_captcha_path security_is_active waf_is_active
api_forwarded = refl

request_filter_forwarded_example :
    IsBypass no_outside new_clock api_gateway api_session
    ⊎ IsGuarded no_outside new_clock api_gateway api_session
        (plan_stage no_outside new_clock api_gateway api_session (ctx_default, nothing_shared))
request_filter_forwarded_example =
    request_filter_forwarded no_outside new_clock api_gateway api_session ctx_default nothing_shared
      api_forwarded

-- A client that claims another host and brings a cookie.
abbrev forged : Headers
forged =
    (codes "x-forwarded-host", codes "evil")
    ∷ (codes "cookie", codes "sid=1")
    ∷ (codes "x-forwarded-for", codes "1.2.3.4")
    ∷ []

abbrev pulled : UpstreamRequest
pulled = record { method = codes "GET"; path = codes "/v2/"; query = none; headers = forged }

abbrev or_pulled : Option UpstreamRequest → UpstreamRequest
or_pulled none = pulled
or_pulled (some u) = u

abbrev any_path : Bytes → Bool
any_path path = true

abbrev pulled_sent : UpstreamRequest
pulled_sent = or_pulled (upstream_request_filter no_outside any_path api_session ctx_default pulled)

pulled_registry : is_oci_registry_path (codes "/v2/") ≡ true
unfolding is_oci_registry_path bytes_eq before starts_with
pulled_registry = refl

is_sent :
    upstream_request_filter no_outside any_path api_session ctx_default pulled ≡ some pulled_sent
unfolding upstream_request_filter
is_sent = refl

upstream_request_filter-IsProxyWord_example :
    IsProxyWord (request_host api_session) none (is_downstream_tls api_session) pulled_sent.headers
upstream_request_filter-IsProxyWord_example =
    upstream_request_filter-IsProxyWord api_session no_outside any_path ctx_default pulled
      pulled_sent refl pulled_registry is_sent

-- A body of two chunks.
abbrev collecting : RequestCtx
collecting = record ctx_default { cache_collect = true; cache_key = some (codes "GET a.b/x") }

abbrev some_key : Map CacheEntry → Option Bytes
some_key [] = none
some_key ((k, e) ∷ m) = some k

-- A gateway with a cache of one mebibyte.
abbrev caching : Gateway
caching = record api_gateway {
  table = record api_table { globals = record globals_default { cache_size_mb = 1 } };
}

abbrev abc_response : CachedResponse
abc_response = record {
  status = 0;
  headers = (codes "content-type", []) ∷ (codes "content-length", print 3) ∷ [];
  body = codes "abc";
}

abbrev plan_or : Forwarded → ForwardPlan
plan_or (planned p) = p
plan_or (failed e) = record {
  peer_host = [];
  peer_port = 0;
  upstream_url = [];
  use_tls = false;
  middleware = action_default;
}

abbrev failing : Response
failing = record { status = 404; headers = [] }

abbrev api_plan : ForwardPlan
api_plan =
    plan_or
      (upstream_peer no_outside new_clock api_gateway api_session
        (collecting, nothing_shared.edge)).0

api_planned :
    (upstream_peer no_outside new_clock api_gateway api_session (collecting, nothing_shared.edge)).0
    ≡ planned api_plan
unfolding upstream_peer match_route_entry to_lower before request_host lookup bytes_eq trim
    path_matches ends_with starts_with strip_prefix rsplit_once
api_planned = refl

upstream_peer_forgets_example :
    ((response_filter 100 api_session (
      failing,
      (upstream_peer no_outside new_clock api_gateway api_session
          (collecting, nothing_shared.edge)).1,
      [],
    )).2
      ≡ [])
    × ((body_filters some_key 0 api_gateway (codes "ab" ∷ []) (
      (response_filter 100 api_session (
        failing,
        (upstream_peer no_outside new_clock api_gateway api_session
            (collecting, nothing_shared.edge)).1,
        [],
      )).1,
      nothing_shared.cache,
    )).1
        ≡ nothing_shared.cache)
upstream_peer_forgets_example =
    upstream_peer_forgets no_outside new_clock api_gateway api_session collecting
      nothing_shared.edge api_plan some_key 100 failing [] (codes "ab" ∷ []) nothing_shared.cache
      refl refl refl api_planned
