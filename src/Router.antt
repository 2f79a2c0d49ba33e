-- ===== src/Router.antt =====
-- src/router.rs: the routing table, its choice of a host and of a route.
pub mod Paths
pub mod Order
pub mod Select
pub mod Edges
pub mod Upstream
pub mod Ingresses
pub mod Specs
use pertisk_proxy.Base.{
  ℕ, ◌+◌, ◌-◌, Bool, true, false, not, ◌&&◌, ◌||◌, List, [], ◌∷◌, ◌++◌, map, Option, none, some,
  ◌==◌, leb, ltb, if◌then◌else◌, Bytes, Map, lookup, has_key, insert, bytes_eq, any, find, is_empty,
  length,
}
use pertisk_proxy.Text.{codes, starts_with, ends_with, strip_prefix}
use pertisk_proxy.Hosts.{normalize_host, wildcard_covers_host}
use pertisk_proxy.Geoip.{GeoIpPolicy}
use pertisk_proxy.Security.Pipeline.{SecurityPolicy}
use pertisk_proxy.Edge.Policy.{EdgeGlobals, EdgePolicy, RouteAuth, globals_default, edge_default}

pub data PathMatchType : Type 0 where
  exact prefix implementation_specific : PathMatchType

pub record Backend : Type 0 where
  pub address : Bytes
  pub port : ℕ
  pub use_tls : Bool

pub data Middleware : Type 0 where
  strip_prefix_of : Bytes → Middleware
  request_headers : Map Bytes → Middleware
  response_headers : Map Bytes → Middleware

pub record Route : Type 0 where
  pub path : Bytes
  pub path_type : PathMatchType
  pub backend : Backend
  pub middlewares : List Middleware
  pub forward_client_ip : Bool
  pub geoip : GeoIpPolicy
  pub security : SecurityPolicy

pub record RouteTable : Type 0 where
  pub routes : Map (List Route)
  pub edge : Map (Map EdgePolicy)
  pub globals : EdgeGlobals

unfoldable pub path_matches : PathMatchType → Bytes → Bytes → Bool
path_matches exact rule request = bytes_eq rule request
path_matches prefix rule request =
    bytes_eq request rule
    || ((ends_with (codes "/") rule && starts_with rule request)
        || (not (ends_with (codes "/") rule)
            && (starts_with (rule ++ codes "/") request || bytes_eq request rule)))
path_matches implementation_specific rule request = starts_with rule request

unfoldable pub find_route : List Route → Bytes → Option Route
find_route [] path = none
find_route (r ∷ rs) path =
    if path_matches r.path_type r.path path then some r else find_route rs path

abbrev pub is_wildcard : Bytes → Bool
is_wildcard key = starts_with (codes "*.") key

abbrev pub score_below {ℓ} : {A : Type ℓ} → Option (ℕ × A) → ℕ → Bool
score_below none score = ltb 0 score
score_below (some (s, a)) score = ltb s score

-- The loop over the wildcard hosts: the longest that covers the host. The score is the length
-- of the key without its `*`.
best_wildcard : Bytes → Map (List Route) → Option (ℕ × List Route) → Option (ℕ × List Route)
best_wildcard host [] best = best
best_wildcard host ((key, rs) ∷ m) best = best_wildcard host m (
    if is_wildcard key && wildcard_covers_host key host
    then (if score_below best (length key - 1) then some (length key - 1, rs) else best)
    else best)

-- Behind the exact host: the best wildcard, and then the catch-all.
wildcard_or_catch_all : Option (ℕ × List Route) → Option (List Route) → Option (List Route)
wildcard_or_catch_all none catch_all = catch_all
wildcard_or_catch_all (some (s, rs)) catch_all = some rs

-- On a host that is normalized.
unfoldable pub routes_for_normal : RouteTable → Bytes → Option (List Route)
unfolding best_wildcard wildcard_or_catch_all
routes_for_normal table host = if is_empty host then none else elim (lookup host table.routes) [
  | some rs ↦ some rs
  | none ↦
      wildcard_or_catch_all (best_wildcard host table.routes none) (lookup (codes "*") table.routes)
]

unfoldable pub routes_for_host : RouteTable → Bytes → Option (List Route)
unfolding routes_for_normal normalize_host
routes_for_host table host = routes_for_normal table (normalize_host host)

unfoldable pub match_route_entry : RouteTable → Bytes → Bytes → Option Route
unfolding routes_for_host find_route
match_route_entry table host path = elim (routes_for_host table host) [
  | none ↦ none
  | some rs ↦ find_route rs path
]

abbrev is_found {ℓ} : {A : Type ℓ} → Option A → Bool
is_found none = false
is_found (some a) = true

unfoldable pub has_host : RouteTable → Bytes → Bool
unfolding routes_for_host
has_host table host =
    not (is_empty (normalize_host host)) && is_found (routes_for_host table (normalize_host host))

-- `sort_by(|a, b| b.path.len().cmp(&a.path.len()))`: stable, the longest path first.
insert_longest : Route → List Route → List Route
insert_longest r [] = r ∷ []
insert_longest r (q ∷ qs) =
    if leb (length q.path) (length r.path) then r ∷ q ∷ qs else q ∷ insert_longest r qs

unfoldable pub sort_routes : List Route → List Route
unfolding insert_longest
sort_routes [] = []
sort_routes (r ∷ rs) = insert_longest r (sort_routes rs)

sort_all : Map (List Route) → Map (List Route)
sort_all [] = []
sort_all ((host, rs) ∷ m) = (host, sort_routes rs) ∷ sort_all m

unfoldable pub from_routes : Map (List Route) → RouteTable
unfolding sort_all
from_routes by_host = record { routes = sort_all by_host; edge = []; globals = globals_default }
