-- ===== src/Router/Specs.antt =====
-- src/routes_config.rs: the route table of the native route file. The reading of YAML and JSON and the
-- URL parser are parameters.
use pertisk_proxy.Base.{
  false, ◌||◌, List, [], ◌∷◌, ◌++◌, Option, none, some, Bytes, Map, bytes_eq, if◌then◌else◌,
}
use pertisk_proxy.Text.{codes, to_lower}
use pertisk_proxy.Geoip.{geoip_default}
use pertisk_proxy.Security.Pipeline.{security_default}
use pertisk_proxy.Router.{
  Backend, Middleware, Route, RouteTable, PathMatchType, exact, prefix, implementation_specific,
  from_routes,
}
use pertisk_proxy.Router.Upstream.{Url, parse_upstream}
use pertisk_proxy.Router.Ingresses.{push_route}

pub record RouteSpec : Type 0 where
  pub host : Option Bytes
  pub hosts : List Bytes
  pub path : Bytes
  pub path_type : Bytes
  pub upstream : Bytes
  pub middlewares : List Middleware

named_path_type : Bytes → PathMatchType
named_path_type name =
    let lower = to_lower name in
    if bytes_eq lower (codes "exact")
    then exact
    else if bytes_eq lower (codes "implementation_specific")
        || bytes_eq lower (codes "implementationspecific")
    then implementation_specific
    else prefix

with_host : List Bytes → Option Bytes → List Bytes
with_host hosts none = hosts
with_host hosts (some host) = hosts ++ (host ∷ [])

or_any_host : List Bytes → List Bytes
or_any_host [] = codes "*" ∷ []
or_any_host (host ∷ hosts) = host ∷ hosts

unfoldable pub spec_hosts : RouteSpec → List Bytes
unfolding with_host or_any_host
spec_hosts spec = or_any_host (with_host spec.hosts spec.host)

unfoldable pub spec_route : RouteSpec → Backend → Route
unfolding named_path_type
spec_route spec backend = record {
  path = spec.path;
  path_type = named_path_type spec.path_type;
  backend = backend;
  middlewares = spec.middlewares;
  forward_client_ip = false;
  geoip = geoip_default;
  security = security_default;
}

push_hosts : Route → List Bytes → Map (List Route) → Map (List Route)
unfolding push_route
push_hosts route [] by_host = by_host
push_hosts route (host ∷ hosts) by_host =
    push_hosts route hosts (push_route (to_lower host) route by_host)

module _ (parse_url : Bytes → Option Url) where
  push_specs : List RouteSpec → Map (List Route) → Option (Map (List Route))
  unfolding push_hosts spec_hosts spec_route parse_upstream
  push_specs [] by_host = some by_host
  push_specs (spec ∷ specs) by_host = elim (parse_upstream parse_url spec.upstream) [
    | none ↦ none
    | some backend ↦
        push_specs specs (push_hosts (spec_route spec backend) (spec_hosts spec) by_host)
  ]

  -- None where an upstream is invalid.
  unfoldable pub build_table : List RouteSpec → Option RouteTable
  unfolding push_specs from_routes
  build_table specs = elim (push_specs specs []) [
    | none ↦ none
    | some by_host ↦ some (from_routes by_host)
  ]
