-- ===== src/Tests/Proxy.antt =====
-- Runs of src/proxy/ and of the credentials and endpoints of src/edge/mod.rs.
use pertisk_proxy.Base.{
  ℕ, ◌+◌, ◌*◌, ◌≤◌, ◌≡◌, refl, ap, Option-cases, Bool-cases, inl, inr, sym, subst, ◌∙◌, ◌^◌, ◌-◌,
  arith, Bool, true, false, [], ◌∷◌, List, Option, none, some, Bytes, min, max, leb, if◌then◌else◌,
  lookup, is_empty, bytes_eq, All, In, ◌==◌,
}
use pertisk_proxy.Text.{
  codes, trim, to_lower, ends_with, starts_with, before, parse, parse-print, parse-le,
  print-AreDigits, is_digit, u32_max, print, u64_max, u16_max, has_byte,
}
use pertisk_proxy.Geoip.{geoip_default}
use pertisk_proxy.Security.Pipeline.{security_default}
use pertisk_proxy.Edge.Policy.{medium, globals_default}
use pertisk_proxy.Edge.Consul.{
  ConsulItem, ConsulState, consul_empty, consul_pick, consul_refresh, endpoints_of,
}
use pertisk_proxy.Edge.Consul.Endpoints.{AreUsable, IsUsable, consul_pick-refreshed}
use pertisk_proxy.Edge.Auth.{issue_jwt, verify_jwt}
use pertisk_proxy.Edge.Auth.Tokens.{verify_jwt-issue_jwt}
use pertisk_proxy.Router.{
  Route, RouteTable, prefix, path_matches, match_route_entry, strip_prefix_of,
}
use pertisk_proxy.Router.Upstream.{Url}
use pertisk_proxy.Proxy.Config.{Config, Site}
use pertisk_proxy.Proxy.Forward.{EdgeState, resolve_forward}
use pertisk_proxy.Proxy.Forward.Plans.{Outcome, resolve_forward-Outcome}
use pertisk_proxy.Proxy.ClientIp.{IpAddr, v4, v6, resolve_client_ip, normalize_ip_str}
use pertisk_proxy.Proxy.ClientIp.Trusted.{
  IsTrusted, IsIp, IsAddressText, is_address_char, resolve_client_ip-IsTrusted,
}

-- A digest of three bytes.
abbrev weak_hmac : Bytes → Bytes → Bytes
weak_hmac secret msg = 1 ∷ 255 ∷ 7 ∷ []

verify_jwt-issue_jwt_example :
    verify_jwt weak_hmac (codes "s") (issue_jwt weak_hmac (codes "s") (codes "joe") 5 1000) 1300
    ≡ leb 1300 (min (1000 + max (min (5 * 60) u64_max) 60) u64_max)
verify_jwt-issue_jwt_example =
    verify_jwt-issue_jwt weak_hmac (λ secret msg. (omega arith, (omega arith, (omega arith, tt))))
      (codes "s") (codes "joe") 5 1000 1300 (omega arith, (omega arith, (omega arith, tt)))
      (unfold has_byte in refl)

consul_empty-AreUsable : AreUsable consul_empty
unfolding lookup
consul_empty-AreUsable service list e = ground (arith, e)

abbrev web_items : List ConsulItem
web_items =
    record { port = some 65616; service_address = some []; node_address = some (codes "10.0.0.1") }
    ∷ record { port = none; service_address = some (codes "10.0.0.2"); node_address = none }
    ∷ []

abbrev web_replies : Bytes → Option (List ConsulItem)
web_replies service = some web_items

web_endpoints : is_empty (endpoints_of web_items) ≡ false
unfolding endpoints_of
web_endpoints = refl

abbrev web_refreshed : ConsulState
web_refreshed = consul_refresh web_replies (codes "web" ∷ []) consul_empty

consul_pick-refreshed_example :
    AreUsable web_refreshed
    × (lookup (codes "web") web_refreshed.endpoints ≡ some (endpoints_of web_items))
    × ((peer : Bytes × ℕ) × ((consul_pick (codes "web") web_refreshed).0 ≡ some peer)
        × In peer (endpoints_of web_items)
        × IsUsable peer)
consul_pick-refreshed_example =
    consul_pick-refreshed web_replies (codes "web") web_items (codes "web" ∷ []) consul_empty
      consul_empty-AreUsable (inl refl) refl web_endpoints

abbrev api_route : Route
api_route = record {
  path = codes "/api";
  path_type = prefix;
  backend = record { address = codes "auto:10.0.0.7:8443"; port = 8443; use_tls = false };
  middlewares = strip_prefix_of (codes "/api") ∷ [];
  forward_client_ip = true;
  geoip = geoip_default;
  security = security_default;
}

abbrev one_table : RouteTable
one_table = record {
  routes = (codes "a.b", api_route ∷ []) ∷ [];
  edge = [];
  globals = globals_default;
}

abbrev idle : EdgeState
idle = record { consul = consul_empty; probes = [] }

abbrev port_of_route : Option Route → ℕ
port_of_route none = 0
port_of_route (some r) = r.backend.port

abbrev tls_at_8443 : Bytes → ℕ → Bool
tls_at_8443 host port = port == 8443

api_found :
    match_route_entry one_table (codes "a.b") (before b'?' (codes "/api/x?y")) ≡ some api_route
unfolding match_route_entry before lookup bytes_eq to_lower path_matches ends_with starts_with
api_found = refl

small_port :
    (r : Route)
    → match_route_entry one_table (codes "a.b") (before b'?' (codes "/api/x?y")) ≡ some r
    → r.backend.port ≤ u16_max
small_port r e = subst (λ o. port_of_route o ≤ u16_max) (sym api_found ∙ e) (omega arith)

resolve_forward-Outcome_example :
    Outcome tls_at_8443 0 5 one_table
      (codes "a.b")
      (codes "/api/x?y")
      idle
      (match_route_entry one_table (codes "a.b") (before b'?' (codes "/api/x?y")))
      (resolve_forward tls_at_8443 0 5 one_table (codes "a.b") (codes "/api/x?y") idle).0
resolve_forward-Outcome_example =
    resolve_forward-Outcome tls_at_8443 0 5 one_table (codes "a.b") (codes "/api/x?y") idle
      consul_empty-AreUsable small_port

abbrev site_of : Bytes → Bytes → Site
site_of host backend = record {
  host = host;
  routes = [];
  backend = backend;
  forward_client_ip = true;
  access_list_id = none;
  waf_policy_id = none;
  geoip = geoip_default;
  security = security_default;
}

abbrev two_sites : Config
two_sites = record {
  backends =
      record {
        name = codes "web";
        upstreams = record { addr = codes "10.0.0.1:80"; weight = 1 } ∷ [];
      }
      ∷ [];
  sites =
      site_of (codes " App.example ") (codes "web")
      ∷ site_of (codes "b.example") (codes "gone")
      ∷ [];
  access_lists = [];
  waf_policies = [];
  tls_grade = medium;
  cache_size_mb = 0;
  cache_ttl_secs = 60;
  consul = none;
  jwt_secret = none;
}

abbrev no_url : Bytes → Option Url
no_url text = none

-- A printer of decimal numbers behind the kind of the address, and its reader.
abbrev v6_max : ℕ
v6_max = 2 ^ 128 - 1

abbrev print_ip : IpAddr → Bytes
print_ip (v4 n) = b'.' ∷ print n
print_ip (v6 n) = b':' ∷ print n

abbrev as_v4 : Option ℕ → Option IpAddr
as_v4 none = none
as_v4 (some n) = some (v4 n)

abbrev as_v6 : Option ℕ → Option IpAddr
as_v6 none = none
as_v6 (some n) = some (v6 n)

abbrev parse_ip : Bytes → Option IpAddr
parse_ip [] = none
parse_ip (c ∷ s) = if c == b'.' then as_v4 (parse u32_max s) else as_v6 (parse v6_max s)

ip_or : Option IpAddr → IpAddr
ip_or none = v4 0
ip_or (some a) = a

as_v4-IsIp : (s : Bytes) (a : IpAddr) → as_v4 (parse u32_max s) ≡ some a → IsIp a
unfolding ip_or
as_v4-IsIp s a e = elim (Option-cases (parse u32_max s)) [
  | inl bad ↦ ground (arith, e, bad)
  | inr (n, good) ↦
      let same : some (v4 n) ≡ some a = rw good at e in
      subst IsIp (ap ip_or same) (omega (arith, parse-le u32_max s n good))
]

as_v6-IsIp : (s : Bytes) (a : IpAddr) → as_v6 (parse v6_max s) ≡ some a → IsIp a
unfolding ip_or
as_v6-IsIp s a e = elim (Option-cases (parse v6_max s)) [
  | inl bad ↦ ground (arith, e, bad)
  | inr (n, good) ↦
      let same : some (v6 n) ≡ some a = rw good at e in
      subst IsIp (ap ip_or same) (omega (arith, parse-le v6_max s n good))
]

parse_ip-IsIp : (s : Bytes) (a : IpAddr) → parse_ip s ≡ some a → IsIp a
parse_ip-IsIp [] a e = ground (arith, e)
parse_ip-IsIp (c ∷ s) a e = elim (Bool-cases (c == b'.')) [
  | inl short ↦ as_v4-IsIp s a (rw short at e)
  | inr long ↦ as_v6-IsIp s a (rw long at e)
]

parse_ip-print_ip : (a : IpAddr) → IsIp a → parse_ip (print_ip a) ≡ some a
parse_ip-print_ip (v4 n) h = ap as_v4 (parse-print u32_max n (omega arith))
parse_ip-print_ip (v6 n) h = ap as_v6 (parse-print v6_max n (omega arith))

AreDigits-IsAddressText : (s : Bytes) → All (λ c. is_digit c ≡ true) s → IsAddressText s
unfolding is_digit is_address_char
AreDigits-IsAddressText [] h = tt
AreDigits-IsAddressText (c ∷ s) (h, k) = (ground (arith, h), AreDigits-IsAddressText s k)

print_ip-IsAddressText : (a : IpAddr) → IsIp a → IsAddressText (print_ip a)
unfolding is_address_char
print_ip-IsAddressText (v4 n) h = (refl, AreDigits-IsAddressText (print n) (print-AreDigits n))
print_ip-IsAddressText (v6 n) h = (refl, AreDigits-IsAddressText (print n) (print-AreDigits n))

print_ip_some : (a : IpAddr) → IsIp a → is_empty (print_ip a) ≡ false
print_ip_some (v4 n) h = refl
print_ip_some (v6 n) h = refl

hop_taken :
    resolve_client_ip parse_ip print_ip
      (some (codes ".167772161"))
      (some (codes "\".134744072\", .3"))
      none
    ≡ some (codes ".134744072")
unfolding resolve_client_ip trim before parse print
hop_taken = refl

resolve_client_ip-IsTrusted_example :
    (normalize_ip_str parse_ip print_ip (codes ".134744072") ≡ some (codes ".134744072"))
    × IsTrusted parse_ip print_ip parse_ip-IsIp parse_ip-print_ip print_ip-IsAddressText
        print_ip_some
        (some (codes ".167772161"))
        (some (codes "\".134744072\", .3"))
        none
        (codes ".134744072")
resolve_client_ip-IsTrusted_example =
    resolve_client_ip-IsTrusted parse_ip print_ip parse_ip-IsIp parse_ip-print_ip
      print_ip-IsAddressText print_ip_some (some (codes ".167772161"))
      (some (codes "\".134744072\", .3")) none (codes ".134744072") hop_taken
