-- ===== src/Router/Edges.antt =====
-- src/router.rs: the edge policies of a table, kept by the key of the host they were given for.
use pertisk_proxy.Base.{
  ℕ, ◌+◌, ◌≡◌, refl, ap, ◌∙◌, Bool, true, false, not, ◌&&◌, ◌||◌, List, [], ◌∷◌, ◌++◌, map, Option,
  none, some, arith, if◌then◌else◌, Bytes, Map, lookup, has_key, insert, lookup-insert,
  lookup-insert_self, has_key-insert, bytes_eq, bytes_eq_refl, any, is_empty, length,
}
use pertisk_proxy.Text.{codes, strip_prefix}
use pertisk_proxy.Hosts.{normalize_host, wildcard_covers_host}
use pertisk_proxy.Edge.Policy.{EdgeGlobals, EdgePolicy, RouteAuth, jwt, edge_default}
use pertisk_proxy.Router.{Route, RouteTable, is_wildcard, score_below}

-- The sum over the hosts.
unfoldable pub route_count : Map (List Route) → ℕ
route_count [] = 0
route_count ((host, rs) ∷ m) = length rs + route_count m

unfoldable pub set_globals : EdgeGlobals → RouteTable → RouteTable
set_globals globals table = record table { globals = globals }

abbrev paths_or_new : Option (Map EdgePolicy) → Map EdgePolicy
paths_or_new none = []
paths_or_new (some paths) = paths

-- `insert_edge` under the normalized host.
unfoldable pub insert_edge : Bytes → Bytes → EdgePolicy → RouteTable → RouteTable
unfolding normalize_host
insert_edge host path policy table =
    let key = normalize_host host in
    record table {
      edge = insert key (insert path policy (paths_or_new (lookup key table.edge))) table.edge;
    }

-- The loop over the wildcard keys of both maps: the first of the longest that cover the host.
best_key : Bytes → List Bytes → Option (ℕ × Bytes) → Option (ℕ × Bytes)
best_key host [] best = best
best_key host (key ∷ keys) best = best_key host keys (
    if (is_wildcard key && wildcard_covers_host key host) && score_below best (length key)
    then some (length key, key)
    else best)

keys_of : {V : Type 0} → Map V → List Bytes
keys_of m = map (λ e. e.0) m

key_or_catch_all : Option (ℕ × Bytes) → Bool → Bytes → Bytes
key_or_catch_all (some (s, key)) catch_all host = key
key_or_catch_all none catch_all host = if catch_all then codes "*" else host

-- On a host that is normalized.
unfoldable pub host_key : RouteTable → Bytes → Bytes
unfolding best_key keys_of key_or_catch_all
host_key table host =
    if has_key host table.routes || has_key host table.edge
    then host
    else key_or_catch_all (best_key host (keys_of table.routes ++ keys_of table.edge) none)
        (has_key (codes "*") table.routes) host

unfoldable pub matched_host_key : RouteTable → Bytes → Bytes
unfolding host_key normalize_host
matched_host_key table host = host_key table (normalize_host host)

abbrev or_default : Option EdgePolicy → EdgePolicy
or_default none = edge_default
or_default (some policy) = policy

abbrev pub policy_at : Option (Map EdgePolicy) → Bytes → EdgePolicy
policy_at none path = edge_default
policy_at (some paths) path = or_default (lookup path paths)

unfoldable pub edge_for : RouteTable → Bytes → Bytes → EdgePolicy
unfolding matched_host_key
edge_for table host route_path =
    policy_at (lookup (matched_host_key table host) table.edge) route_path

-- The name of a Consul service is listed once.
add_service : Option Bytes → List Bytes → List Bytes
add_service none out = out
add_service (some name) out =
    if not (is_empty name) && not (any (λ s. bytes_eq s name) out) then out ++ (name ∷ []) else out

services_of_routes : List Route → List Bytes → List Bytes
unfolding add_service
services_of_routes [] out = out
services_of_routes (r ∷ rs) out =
    services_of_routes rs (add_service (strip_prefix (codes "consul:") r.backend.address) out)

services_from : Map (List Route) → List Bytes → List Bytes
unfolding services_of_routes
services_from [] out = out
services_from ((host, rs) ∷ m) out = services_from m (services_of_routes rs out)

unfoldable pub consul_services : RouteTable → List Bytes
unfolding services_from
consul_services table = services_from table.routes []

has_jwt_secret : Bytes → Option RouteAuth → Bool
has_jwt_secret secret (some (jwt configured)) = bytes_eq configured secret
has_jwt_secret secret _ = false

is_secret : Bytes → Option Bytes → Bool
is_secret secret none = false
is_secret secret (some global) = bytes_eq global secret

unfoldable pub accepts_jwt_secret : RouteTable → Bytes → Bool
unfolding has_jwt_secret is_secret
accepts_jwt_secret table secret =
    if is_secret secret table.globals.jwt_secret
    then true
    else any (λ paths. any (λ policy. has_jwt_secret secret policy.1.auth) paths.1) table.edge

own_key :
    (table : RouteTable) (host : Bytes)
    → has_key host table.edge ≡ true
    → host_key table host ≡ host
unfolding host_key
own_key table host h = ground arith

or_default_if :
    (b : Bool) (policy : EdgePolicy) (o : Option EdgePolicy)
    → or_default (if b then some policy else o) ≡ (if b then policy else or_default o)
or_default_if true policy o = refl
or_default_if false policy o = refl

read_inserted :
    (path route_path : Bytes) (policy : EdgePolicy) (o : Option (Map EdgePolicy))
    → policy_at (some (insert path policy (paths_or_new o))) route_path
      ≡ (if bytes_eq path route_path then policy else policy_at o route_path)
read_inserted path route_path policy none =
    ap or_default (lookup-insert path route_path policy [])
    ∙ or_default_if (bytes_eq path route_path) policy (lookup route_path [])
    ∙ unfold lookup in refl
read_inserted path route_path policy (some paths) =
    ap or_default (lookup-insert path route_path policy paths)
    ∙ or_default_if (bytes_eq path route_path) policy (lookup route_path paths)

abbrev edges_after : Bytes → Bytes → EdgePolicy → Map (Map EdgePolicy) → Map (Map EdgePolicy)
edges_after key path policy m = insert key (insert path policy (paths_or_new (lookup key m))) m

at_key :
    (key path route_path : Bytes) (policy : EdgePolicy) (m : Map (Map EdgePolicy))
    → policy_at (lookup key (edges_after key path policy m)) route_path
      ≡ (if bytes_eq path route_path then policy else policy_at (lookup key m) route_path)
at_key key path route_path policy m =
    ap (λ o. policy_at o route_path)
      (lookup-insert_self key (insert path policy (paths_or_new (lookup key m))) m)
    ∙ read_inserted path route_path policy (lookup key m)

inserted_there :
    (key path : Bytes) (policy : EdgePolicy) (m : Map (Map EdgePolicy))
    → has_key key (edges_after key path policy m) ≡ true
inserted_there key path policy m =
    has_key-insert key key (insert path policy (paths_or_new (lookup key m))) m
    ∙ rw (bytes_eq_refl key) refl

-- An inserted policy is the one of its host and path, for every spelling of the host that is
-- normalized to the same; on the other paths the host keeps the policies it had under its
-- normalized name, and has the default where it had none.
pub edge_for-insert_edge :
    (table : RouteTable) (host other path route_path : Bytes) (policy : EdgePolicy)
    → normalize_host other ≡ normalize_host host
    → edge_for (insert_edge host path policy table) other route_path ≡ (
        if bytes_eq path route_path
        then policy
        else policy_at (lookup (normalize_host host) table.edge) route_path)
unfolding edge_for matched_host_key insert_edge
edge_for-insert_edge table host other path route_path policy e =
    ap
      (λ k.
        policy_at (lookup k (edges_after (normalize_host host) path policy table.edge)) route_path)
      (ap (host_key (insert_edge host path policy table)) e
        ∙ own_key (insert_edge host path policy table) (normalize_host host)
            (inserted_there (normalize_host host) path policy table.edge))
    ∙ at_key (normalize_host host) path route_path policy table.edge
