-- ===== src/Proxy/Apply/Tables.antt =====
-- src/proxy/apply.rs: which routes the table of a configuration has, and when there is none.
use mathlib.Core.Option
use pertisk_proxy.Base.{
  ◌≡◌, Bool, false, not, ◌&&◌, List, [], ◌∷◌, ◌++◌, Option, none, some, if◌then◌else◌, Bytes, Map,
  lookup, bytes_eq, is_empty, any, In,
}
use pertisk_proxy.Text.{trim, to_lower}
use pertisk_proxy.Router.{Route, RouteTable, sort_routes}
use pertisk_proxy.Router.Upstream.{Url}
use pertisk_proxy.Proxy.Config.{Config, Site}
use pertisk_proxy.Proxy.Apply.SiteRoutes.{Carries}
use pertisk_proxy.Proxy.Apply.{Built, built, refused, ConfigError, routes_of_site, routes_or_none}

-- The host of a site as it is compared, trimmed and in lower case.
abbrev pub named_host : Site → Bytes
named_host site = to_lower (trim site.host)

abbrev pub has_site : Bytes → List Site → Bool
has_site h sites =
    any (λ site. not (is_empty (named_host site)) && bytes_eq (named_host site) h) sites

module _ (parse_url : Bytes → Option Url) (config : Config) where
  -- The error of the first site with a host that is refused.
  abbrev error_first : Built (List Route) → Option ConfigError → Option ConfigError
  error_first (built rs) rest = rest
  error_first (refused e) rest = some e

  abbrev pub first_error : List Site → Option ConfigError
  first_error [] = none
  first_error (site ∷ sites) =
      let rest = first_error sites in
      if is_empty (named_host site)
      then rest
      else error_first (routes_of_site parse_url config site) rest

  abbrev routes_in : Built (List Route) → List Route
  routes_in (built rs) = rs
  routes_in (refused e) = []

  -- The routes of the sites of a host, one site behind the other.
  abbrev pub routes_listed : Bytes → List Site → List Route
  routes_listed h [] = []
  routes_listed h (site ∷ sites) =
      let rest = routes_listed h sites in
      if not (is_empty (named_host site)) && bytes_eq (named_host site) h
      then routes_in (routes_of_site parse_url config site) ++ rest
      else rest

  abbrev Hosts : List Site → Map (List Route) → Built (Map (List Route)) → Type 0
  Hosts sites m (refused e) = first_error sites ≡ some e
  Hosts sites m (built m') =
      (first_error sites ≡ none)
      × ((h : Bytes)
          → lookup h m' ≡ (
              if has_site h sites
              then some (routes_or_none (lookup h m) ++ routes_listed h sites)
              else lookup h m))

  abbrev pub HasRoutes : Site → Type 0
  HasRoutes site =
      (routes : List Route) × (routes_of_site parse_url config site ≡ built routes)
      × Carries parse_url config site routes

  -- Each site with a host has routes, which are those of its rows.
  abbrev pub AreCarried : List Site → Type 0
  AreCarried sites =
      (site : Site) → In site sites → is_empty (named_host site) ≡ false → HasRoutes site

  abbrev pub Table : List Site → Built RouteTable → Type 0
  Table sites (refused e) = first_error sites ≡ some e
  Table sites (built table) =
      (first_error sites ≡ none)
      × AreCarried sites
      × ((h : Bytes)
          → lookup h table.routes
            ≡ (if has_site h sites then some (sort_routes (routes_listed h sites)) else none))
