-- ===== src/Proxy/Apply.antt =====
-- src/proxy/apply.rs: the route table of a configuration. The URL parser is another crate's: a
-- parameter.
pub mod SiteRoutes
pub mod Tables
use pertisk_proxy.Base.{
  ℕ, Bool, true, false, not, ◌&&◌, ◌||◌, List, [], ◌∷◌, ◌++◌, Option, none, some, if◌then◌else◌,
  Bytes, Map, lookup, insert, bytes_eq, is_empty,
}
use pertisk_proxy.Text.{codes, trim, to_lower, starts_with}
use pertisk_proxy.Geoip.{GeoIpPolicy, geoip_normalized}
use pertisk_proxy.Security.Pipeline.{SecurityPolicy, security_normalized}
use pertisk_proxy.Edge.Policy.{EdgePolicy}
use pertisk_proxy.Router.{
  Backend, Middleware, Route, RouteTable, PathMatchType, prefix, strip_prefix_of, from_routes,
}
use pertisk_proxy.Router.Edges.{insert_edge, set_globals}
use pertisk_proxy.Router.Upstream.{Url, parse_upstream, trim_end_byte}
use pertisk_proxy.Proxy.Config.{
  Config, Site, NamedBackend, Upstream, PathRewrite, rewrite_default, trimmed_some,
  resolve_site_geoip, resolve_site_security,
}

-- The name that is not known, the backend without upstreams, the text that names no upstream.
pub data ConfigError : Type 0 where
  unknown_backend no_upstreams invalid_upstream : Bytes → ConfigError

pub data Built {ℓ} (A : Type ℓ) : Type ℓ where
  built : A → Built A
  refused : ConfigError → Built A

-- `?` on a result.
unfoldable pub and_then {ℓ κ} : {A : Type ℓ} {B : Type κ} → Built A → (A → Built B) → Built B
and_then (built a) f = f a
and_then (refused e) f = refused e

unfoldable pub or_refused {ℓ} : {A : Type ℓ} → ConfigError → Option A → Built A
or_refused e none = refused e
or_refused e (some a) = built a

-- Of a name that is given twice the last backend.
pub collect_backends : List NamedBackend → Map NamedBackend → Map NamedBackend
collect_backends [] m = m
collect_backends (b ∷ bs) m = collect_backends bs (insert b.name b m)

pub first_upstream : List Upstream → Option Upstream
first_upstream [] = none
first_upstream (u ∷ us) = some u

unfoldable pub looks_like_upstream_url : Bytes → Bool
looks_like_upstream_url value =
    let lower = to_lower value in
    starts_with (codes "http://") lower
    || (starts_with (codes "https://") lower
        || (starts_with (codes "localhost:") lower
            || (starts_with (codes "127.0.0.1:") lower || starts_with (codes "[::1]:") lower)))

unfoldable pub path_only_rewrite : Option Bytes → Option Bytes
unfolding looks_like_upstream_url
path_only_rewrite none = none
path_only_rewrite (some s) = if looks_like_upstream_url (trim s) then none else some s

strip_middlewares : Bytes → Option Bytes → List Middleware
unfolding trim_end_byte
strip_middlewares path none = []
strip_middlewares path (some rw_text) =
    if bytes_eq rw_text (codes "/") && not (bytes_eq path (codes "/"))
    then strip_prefix_of (trim_end_byte b'/' path) ∷ []
    else []

unfoldable pub site_route :
    Bytes → PathMatchType → Option Bytes → Backend → Bool → GeoIpPolicy → SecurityPolicy → Route
unfolding strip_middlewares trimmed_some
site_route path path_type rewrite target forward_client_ip geoip security = record {
  path = path;
  path_type = path_type;
  backend = target;
  middlewares = strip_middlewares path (trimmed_some rewrite);
  forward_client_ip = forward_client_ip;
  geoip = geoip_normalized geoip;
  security = security_normalized security;
}

url_rewrite : Option Bytes → Option Bytes
unfolding looks_like_upstream_url
url_rewrite none = none
url_rewrite (some s) = if looks_like_upstream_url (trim s) then some (trim s) else none

-- `trim().to_lowercase()`, on a host in ASCII.
unfoldable pub site_host : Site → Bytes
site_host site = to_lower (trim site.host)

routes_or_none : Option (List Route) → List Route
routes_or_none none = []
routes_or_none (some rs) = rs

-- `by_host.entry(host).or_default().extend(routes)`.
unfoldable pub extend_host : Bytes → List Route → Map (List Route) → Map (List Route)
unfolding routes_or_none
extend_host host routes m = insert host (routes_or_none (lookup host m) ++ routes) m

abbrev edge_policy_of : PathRewrite → EdgePolicy
edge_policy_of r = record {
  auth = r.auth;
  rate_limit_rps = r.rate_limit_rps;
  x4xx_limit_rps = r.x4xx_limit_rps;
  cache = r.cache;
}

-- The routes of a site; one for all paths where none is given.
abbrev routes_or_root : List PathRewrite → List PathRewrite
routes_or_root [] = rewrite_default ∷ []
routes_or_root (r ∷ rs) = r ∷ rs

insert_site_edges : Bytes → List PathRewrite → RouteTable → RouteTable
unfolding insert_edge
insert_site_edges host [] table = table
insert_site_edges host (r ∷ rs) table =
    insert_site_edges host rs (insert_edge host r.path (edge_policy_of r) table)

insert_edges : List Site → RouteTable → RouteTable
unfolding insert_site_edges site_host
insert_edges [] table = table
insert_edges (site ∷ sites) table = insert_edges sites (
    if is_empty (site_host site)
    then table
    else insert_site_edges (site_host site) (routes_or_root site.routes) table)

table_of : Config → Map (List Route) → RouteTable
unfolding insert_edges from_routes set_globals
table_of config by_host =
    set_globals
      (record {
        tls_grade = config.tls_grade;
        cache_size_mb = config.cache_size_mb;
        cache_ttl_secs = config.cache_ttl_secs;
        consul = config.consul;
        jwt_secret = config.jwt_secret;
      })
      (insert_edges config.sites (from_routes by_host))

module _ (parse_url : Bytes → Option Url) where
  target_at : Bytes → Built Backend
  unfolding parse_upstream or_refused
  target_at raw = or_refused (invalid_upstream raw) (parse_upstream parse_url raw)

  rewritten_target : Option Bytes → Backend → Built Backend
  unfolding target_at
  rewritten_target (some raw) default_target = target_at raw
  rewritten_target none default_target = built default_target

  own_target : Option Bytes → Option Bytes → Backend → Built Backend
  unfolding target_at rewritten_target
  own_target (some raw) rewrite default_target = target_at raw
  own_target none rewrite default_target = rewritten_target rewrite default_target

  unfoldable pub resolve_route_target : PathRewrite → Backend → Built Backend
  unfolding own_target trimmed_some url_rewrite
  resolve_route_target route default_target =
      own_target (trimmed_some route.upstream) (url_rewrite route.rewrite) default_target

  -- The loop over the routes of a site.
  build_routes :
      Site → GeoIpPolicy → SecurityPolicy → Backend → List PathRewrite → Built (List Route)
  unfolding resolve_route_target site_route path_only_rewrite and_then
  build_routes site geoip security default_target [] = built []
  build_routes site geoip security default_target (r ∷ rs) =
      let rest = build_routes site geoip security default_target rs in
      and_then (resolve_route_target r default_target) (λ target. and_then rest (λ routes. built (
        site_route r.path r.path_type (path_only_rewrite r.rewrite) target site.forward_client_ip
          geoip security
        ∷ routes)))

  routes_for_target : Config → Site → List PathRewrite → Backend → Built (List Route)
  unfolding build_routes site_route resolve_site_geoip resolve_site_security
  routes_for_target config site [] target = built (
      site_route (codes "/") prefix none target site.forward_client_ip
        (resolve_site_geoip config site) (resolve_site_security config site)
      ∷ [])
  routes_for_target config site (r ∷ rs) target =
      build_routes site (resolve_site_geoip config site) (resolve_site_security config site) target
        (r ∷ rs)

  -- One round of the loop over the sites: the routes of a site.
  unfoldable pub routes_of_site : Config → Site → Built (List Route)
  unfolding routes_for_target collect_backends first_upstream and_then or_refused target_at
  routes_of_site config site =
      and_then
        (or_refused (unknown_backend site.backend)
          (lookup site.backend (collect_backends config.backends [])))
        (λ backend.
          and_then (or_refused (no_upstreams site.backend) (first_upstream backend.upstreams))
            (λ upstream.
              and_then (target_at upstream.addr) (routes_for_target config site site.routes)))

  build_hosts : Config → List Site → Map (List Route) → Built (Map (List Route))
  unfolding routes_of_site site_host extend_host and_then
  build_hosts config [] by_host = built by_host
  build_hosts config (site ∷ sites) by_host =
      if is_empty (site_host site)
      then build_hosts config sites by_host
      else and_then (routes_of_site config site)
          (λ routes. build_hosts config sites (extend_host (site_host site) routes by_host))

  unfoldable pub config_to_route_table : Config → Built RouteTable
  unfolding build_hosts table_of and_then
  config_to_route_table config =
      and_then (build_hosts config config.sites []) (λ by_host. built (table_of config by_host))
