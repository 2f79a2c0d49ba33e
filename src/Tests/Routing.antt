-- ===== src/Tests/Routing.antt =====
-- Runs of src/router.rs, src/geoip.rs and src/proxy_config.rs.
use pertisk_proxy.Base.{
  ℕ, ◌≡◌, ◌≢◌, ◌↔◌, ◌⊎◌, refl, true, false, [], ◌∷◌, ◌++◌, none, some, Bytes, Map, List, Option,
  arith, lookup, bytes_eq, All,
}
use pertisk_proxy.Text.{
  codes, trim, to_lower, starts_with, ends_with, strip_prefix, has_byte, before,
}
use pertisk_proxy.Hosts.{normalize_host, wildcard_covers_host}
use pertisk_proxy.Hosts.Wildcards.{IsLabel, wildcard_covers_host_iff, wildcard_upper_covers_none}
use pertisk_proxy.Geoip.{
  GeoIpPolicy, GeoInfo, Decision, AsnRange, geoip_evaluate, geoip_is_active, asn_lookup,
}
use pertisk_proxy.Geoip.Annotations.{
  geoip_from_annotations, geoip_policy_read, geoip_from_annotations-off,
}
use pertisk_proxy.Geoip.{geoip_normalized}
use pertisk_proxy.Security.Annotations.{flag}
use pertisk_proxy.Geoip.Decisions.{Passes, geoip_evaluate-allow_iff}
use pertisk_proxy.Geoip.Ranges.{search_ranges, asn_lookup-search_ranges}
use pertisk_proxy.Edge.Policy.{EdgePolicy, edge_default, globals_default}
use pertisk_proxy.Geoip.{geoip_default}
use pertisk_proxy.Security.Pipeline.{security_default}
use pertisk_proxy.Router.{
  Route, RouteTable, prefix, path_matches, match_route_entry, from_routes, routes_for_normal,
}
use pertisk_proxy.Router.Paths.{AtBoundary, path_matches-prefix_iff}
use pertisk_proxy.Router.Order.{IsBest}
use pertisk_proxy.Router.Select.{match_route_entry-IsBest, routes_for_normal-wildcard}
use pertisk_proxy.Tls.{TlsConfig, TlsSource, acme}

wildcard_covers_host_iff_example :
    (wildcard_covers_host (codes "*.example.com") (codes "app.example.com") ≡ true) ↔ (
      (label : Bytes) × (to_lower (trim (codes "app.example.com")) ≡ label ++ codes ".example.com")
      × IsLabel label)
wildcard_covers_host_iff_example =
    wildcard_covers_host_iff (codes "*.example.com") (codes "app.example.com")
      (codes ".example.com") (unfold trim in refl)

app_covered : wildcard_covers_host (codes "*.a.b") (codes "x.a.b") ≡ true
unfolding wildcard_covers_host trim to_lower ends_with strip_prefix has_byte
app_covered = refl

upper_suffix : to_lower (codes ".Example.com") ≢ codes ".Example.com"
unfolding to_lower
upper_suffix = λ e. ground arith

wildcard_upper_covers_none_example :
    wildcard_covers_host (codes "*.Example.com") (codes "app.Example.com") ≡ false
wildcard_upper_covers_none_example =
    wildcard_upper_covers_none (codes "*.Example.com") (codes "app.Example.com")
      (codes ".Example.com") (unfold trim in refl) upper_suffix

abbrev no_russia : GeoIpPolicy
no_russia = record {
  enabled = true;
  allow_countries = [];
  deny_countries = codes "RU" ∷ [];
  allow_asns = 13335 ∷ [];
  deny_asns = [];
}

abbrev from_us : Option GeoInfo
from_us = some (record { country = some (codes "US"); asn = some 13335 })

geoip_evaluate-allow_iff_example : (geoip_evaluate true true no_russia from_us ≡ Decision.allow) ↔ (
    (geoip_is_active no_russia ≡ false)
    ⊎ (Passes [] (codes "RU" ∷ []) true (some (codes "US"))
        × Passes {A = ℕ} (13335 ∷ []) [] true (some 13335)))
geoip_evaluate-allow_iff_example = geoip_evaluate-allow_iff true true no_russia from_us

abbrev ranges : List AsnRange
ranges =
    record { first = 10; last = 20; asn = 64500 }
    ∷ record { first = 30; last = 39; asn = 64501 }
    ∷ []

asn_lookup-search_ranges_example : asn_lookup ranges 35 ≡ search_ranges ranges 35
asn_lookup-search_ranges_example = asn_lookup-search_ranges ranges 35 (omega arith)

plain_rule : ends_with (codes "/") (codes "/api") ≡ false
unfolding ends_with
plain_rule = refl

path_matches-prefix_iff_example :
    (path_matches prefix (codes "/api") (codes "/api/v1") ≡ true)
    ↔ ((rest : Bytes) × (codes "/api/v1" ≡ codes "/api" ++ rest) × AtBoundary rest)
path_matches-prefix_iff_example =
    path_matches-prefix_iff (codes "/api") (codes "/api/v1") plain_rule

slash_rule : ends_with (codes "/") (codes "/api/") ≡ true
unfolding ends_with
slash_rule = refl

abbrev route_at : Bytes → Route
route_at path = record {
  path = path;
  path_type = prefix;
  backend = record { address = codes "127.0.0.1:80"; port = 80; use_tls = false };
  middlewares = [];
  forward_client_ip = true;
  geoip = geoip_default;
  security = security_default;
}

abbrev some_routes : List Route
some_routes = route_at (codes "/") ∷ route_at (codes "/api") ∷ []

abbrev by_host : Map (List Route)
by_host = (codes "*", []) ∷ (codes "*.a.b", some_routes) ∷ (codes "a.b", some_routes) ∷ []

ab_there : lookup (normalize_host (codes "A.b:80")) by_host ≡ some some_routes
unfolding lookup normalize_host before to_lower bytes_eq
ab_there = refl

match_route_entry-IsBest_example :
    IsBest some_routes
      (codes "/api/v1")
      (match_route_entry (from_routes by_host) (codes "A.b:80") (codes "/api/v1"))
match_route_entry-IsBest_example =
    match_route_entry-IsBest by_host (codes "A.b:80") (codes "/api/v1") some_routes
      (unfold normalize_host before to_lower in refl) ab_there

abbrev table : RouteTable
table = record { routes = by_host; edge = []; globals = globals_default }

routes_for_normal-wildcard_example : routes_for_normal table (codes "x.a.b") ≡ some some_routes
routes_for_normal-wildcard_example =
    routes_for_normal-wildcard (codes "x.a.b") table (codes "*.a.b") some_routes refl all_tidy
      (unfold trim in refl) absent (unfold starts_with in refl) app_covered there
  where
    all_tidy : All (λ e. trim e.0 ≡ e.0) by_host
    all_tidy = unfold trim in (refl, (refl, (refl, tt)))

    absent : lookup (codes "x.a.b") by_host ≡ none
    absent = unfold lookup bytes_eq in refl

    there : lookup (codes "*.a.b") by_host ≡ some some_routes
    there = unfold lookup bytes_eq in refl

abbrev limited : EdgePolicy
limited = record edge_default { rate_limit_rps = 5 }

abbrev acme_plain : TlsSource
acme_plain = acme (record {
  email = none;
  challenge = codes "http01";
  dns_provider = none;
  dns_provider_type = none;
  dns_credentials = none;
})

abbrev rows : List TlsConfig
rows =
    record { hosts = codes "*.com" ∷ codes "a.b" ∷ []; source = acme_plain; expires_at = none }
    ∷ record { hosts = codes "A.b" ∷ codes "c.d" ∷ []; source = acme_plain; expires_at = none }
    ∷ []

padded_covered : wildcard_covers_host (codes " *.a.b") (codes "x.a.b") ≡ true
unfolding wildcard_covers_host trim to_lower ends_with strip_prefix has_byte
padded_covered = refl

abbrev team_label : Map Bytes
team_label = (codes "team", codes "edge") ∷ []

label_off : (geoip_from_annotations (some team_label)).enabled ≡ false
unfolding geoip_from_annotations geoip_policy_read geoip_normalized flag lookup bytes_eq
label_off = refl

geoip_from_annotations-off_example : geoip_from_annotations (some team_label) ≡ geoip_default
geoip_from_annotations-off_example = geoip_from_annotations-off (some team_label) label_off
