-- ===== src/Router/Ingresses.antt =====
-- src/router.rs: the route table of Ingress objects, of which the fields are given that are read.
use pertisk_proxy.Base.{
  ℕ, ◌-◌, ◌%◌, ◌^◌, Bool, true, false, List, [], ◌∷◌, ◌++◌, Option, none, some, Bytes, Map, lookup,
  insert, bytes_eq, if◌then◌else◌,
}
use pertisk_proxy.Text.{codes, print}
use pertisk_proxy.Hosts.{normalize_host}
use pertisk_proxy.Geoip.{geoip_default}
use pertisk_proxy.Security.Pipeline.{security_default}
use pertisk_proxy.Edge.Policy.{globals_default}
use pertisk_proxy.Ingress.Leader.{ℤ, pos, negsuc}
use pertisk_proxy.Router.{
  Backend, Route, RouteTable, PathMatchType, exact, prefix, implementation_specific, sort_all,
}

-- The service that a backend names, with its port: by number or, where that is missing, by name.
pub record IngressService : Type 0 where
  pub name : Bytes
  pub port : Option (Option ℤ)

-- A path, with the service of its backend; a backend may name another resource instead.
pub record IngressPath : Type 0 where
  pub path : Option Bytes
  pub path_type : Bytes
  pub backend : Option IngressService

pub record IngressRule : Type 0 where
  pub host : Option Bytes
  pub http : Option (List IngressPath)

pub record IngressSpec : Type 0 where
  pub class_name : Option Bytes
  pub default_backend : Option (Option IngressService)
  pub rules : Option (List IngressRule)

pub record IngressObject : Type 0 where
  pub namespace : Option Bytes
  pub spec : Option IngressSpec

-- `i32 as u16`.
as_u16 : ℤ → ℕ
as_u16 (pos n) = n % 2 ^ 16
as_u16 (negsuc n) = 2 ^ 16 - 1 - n % 2 ^ 16

service_dns : Bytes → Bytes → ℕ → Bytes
service_dns name namespace port =
    name ++ (b'.' ∷ (namespace ++ (codes ".svc.cluster.local:" ++ print port)))

numbered_backend : Bytes → Bytes → Option ℤ → Option Backend
unfolding service_dns as_u16
numbered_backend name namespace none = none
numbered_backend name namespace (some number) = some (record {
  address = service_dns name namespace (as_u16 number);
  port = as_u16 number;
  use_tls = false;
})

ported_backend : Bytes → Bytes → Option (Option ℤ) → Option Backend
unfolding numbered_backend
ported_backend name namespace none = none
ported_backend name namespace (some number) = numbered_backend name namespace number

unfoldable pub resolve_service_backend : IngressService → Bytes → Option Backend
unfolding ported_backend
resolve_service_backend service namespace = ported_backend service.name namespace service.port

unfoldable pub resolve_backend : Option IngressService → Bytes → Option Backend
unfolding resolve_service_backend
resolve_backend none namespace = none
resolve_backend (some service) namespace = resolve_service_backend service namespace

given_routes : Option (List Route) → List Route
given_routes none = []
given_routes (some rs) = rs

-- `by_host.entry(host).or_default().push(route)`.
unfoldable pub push_route : Bytes → Route → Map (List Route) → Map (List Route)
unfolding given_routes
push_route host route by_host =
    insert host (given_routes (lookup host by_host) ++ (route ∷ [])) by_host

abbrev ingress_route : Bytes → PathMatchType → Backend → Route
ingress_route path path_type backend = record {
  path = path;
  path_type = path_type;
  backend = backend;
  middlewares = [];
  forward_client_ip = false;
  geoip = geoip_default;
  security = security_default;
}

path_type_of : Bytes → PathMatchType
path_type_of name =
    if bytes_eq name (codes "Exact")
    then exact
    else if bytes_eq name (codes "ImplementationSpecific")
    then implementation_specific
    else prefix

path_or_root : Option Bytes → Bytes
path_or_root none = codes "/"
path_or_root (some path) = path

push_path : Bytes → IngressPath → Option Backend → Map (List Route) → Map (List Route)
unfolding push_route path_type_of path_or_root
push_path host path none by_host = by_host
push_path host path (some backend) by_host =
    push_route host (ingress_route (path_or_root path.path) (path_type_of path.path_type) backend)
      by_host

unfoldable pub collect_http_paths :
    Bytes → List IngressPath → Bytes → Map (List Route) → Map (List Route)
unfolding push_path resolve_backend
collect_http_paths host [] namespace by_host = by_host
collect_http_paths host (path ∷ paths) namespace by_host =
    collect_http_paths host paths namespace
      (push_path host path (resolve_backend path.backend namespace) by_host)

rule_host : Option Bytes → Bytes
unfolding normalize_host
rule_host none = codes "*"
rule_host (some host) = normalize_host host

add_rule : Bytes → IngressRule → Option (List IngressPath) → Map (List Route) → Map (List Route)
unfolding collect_http_paths rule_host
add_rule namespace rule none by_host = by_host
add_rule namespace rule (some paths) by_host =
    collect_http_paths (rule_host rule.host) paths namespace by_host

add_rules : Bytes → List IngressRule → Map (List Route) → Map (List Route)
unfolding add_rule
add_rules namespace [] by_host = by_host
add_rules namespace (rule ∷ rules) by_host =
    add_rules namespace rules (add_rule namespace rule rule.http by_host)

push_default : Option Backend → Map (List Route) → Map (List Route)
unfolding push_route
push_default none by_host = by_host
push_default (some backend) by_host =
    push_route (codes "*") (ingress_route (codes "/") prefix backend) by_host

add_default : Bytes → Option (Option IngressService) → Map (List Route) → Map (List Route)
unfolding push_default resolve_backend
add_default namespace none by_host = by_host
add_default namespace (some backend) by_host =
    push_default (resolve_backend backend namespace) by_host

rules_of : Option (List IngressRule) → List IngressRule
rules_of none = []
rules_of (some rules) = rules

add_spec : Bytes → Option IngressSpec → Map (List Route) → Map (List Route)
unfolding add_rules add_default rules_of
add_spec namespace none by_host = by_host
add_spec namespace (some spec) by_host =
    add_rules namespace (rules_of spec.rules) (add_default namespace spec.default_backend by_host)

namespace_or_default : Option Bytes → Bytes
namespace_or_default none = codes "default"
namespace_or_default (some namespace) = namespace

unfoldable pub add_ingress_to_table : IngressObject → Map (List Route) → Map (List Route)
unfolding add_spec namespace_or_default
add_ingress_to_table ingress by_host =
    add_spec (namespace_or_default ingress.namespace) ingress.spec by_host

add_ingresses : List IngressObject → Map (List Route) → Map (List Route)
unfolding add_ingress_to_table
add_ingresses [] by_host = by_host
add_ingresses (ingress ∷ ingresses) by_host =
    add_ingresses ingresses (add_ingress_to_table ingress by_host)

unfoldable pub build_route_table_from_ingresses : List IngressObject → RouteTable
unfolding add_ingresses sort_all
build_route_table_from_ingresses ingresses = record {
  routes = sort_all (add_ingresses ingresses []);
  edge = [];
  globals = globals_default;
}

class_of : Option IngressSpec → Option Bytes
class_of none = none
class_of (some spec) = spec.class_name

is_class : Bytes → Option Bytes → Bool
is_class expected none = false
is_class expected (some name) = bytes_eq name expected

unfoldable pub ingress_matches_class : IngressObject → Option Bytes → Bool
unfolding class_of is_class
ingress_matches_class ingress none = true
ingress_matches_class ingress (some expected) = is_class expected (class_of ingress.spec)
