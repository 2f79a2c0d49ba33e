-- ===== src/Proxy/Apply/SiteRoutes.antt =====
-- src/proxy/apply.rs: the routes of one site, against its rows.
use pertisk_proxy.Base.{
  ◌≡◌, refl, sym, subst, List, [], ◌∷◌, Option, none, some, arith, Bytes, lookup,
}
use pertisk_proxy.Text.{codes}
use pertisk_proxy.Geoip.{geoip_normalized}
use pertisk_proxy.Security.Pipeline.{security_normalized}
use pertisk_proxy.Router.{Backend, Route, prefix}
use pertisk_proxy.Router.Upstream.{Url, parse_upstream}
use pertisk_proxy.Proxy.Config.{
  Config, Site, PathRewrite, NamedBackend, Upstream, resolve_site_geoip, resolve_site_security,
}
use pertisk_proxy.Proxy.Apply.{
  Built, built, refused, ConfigError, unknown_backend, no_upstreams, and_then, or_refused,
  collect_backends, first_upstream, resolve_route_target, site_route, build_routes,
  routes_for_target, target_at, routes_of_site,
}

and_then-built :
    {A B : Type 0} (o : Built A) (f : A → Built B) (b : B)
    → and_then o f ≡ built b
    → (a : A) × (o ≡ built a) × (f a ≡ built b)
unfolding and_then
and_then-built (built a) f b e = (a, refl, e)
and_then-built (refused x) f b e = absurd (ground (arith, e))

built_same : (rs qs : List Route) → built rs ≡ built qs → rs ≡ qs
built_same rs qs e = ground (arith, e)

or_refused-built :
    {A : Type 0} (x : ConfigError) (o : Option A) (a : A) → or_refused x o ≡ built a → o ≡ some a
unfolding or_refused
or_refused-built x none a e = absurd (ground (arith, e))
or_refused-built x (some b) a e = ground (arith, e)

module _ (parse_url : Bytes → Option Url) (config : Config) (site : Site) where
  -- One route for each row, in their order.
  abbrev pub Rows : Backend → List PathRewrite → List Route → Type 0
  Rows target [] [] = Unit
  Rows target [] (q ∷ qs) = ⊥
  Rows target (r ∷ rs) [] = ⊥
  Rows target (r ∷ rs) (q ∷ qs) =
      (q.path ≡ r.path)
      × (q.path_type ≡ r.path_type)
      × (resolve_route_target parse_url r target ≡ built q.backend)
      × (q.forward_client_ip ≡ site.forward_client_ip)
      × (q.geoip ≡ geoip_normalized (resolve_site_geoip config site))
      × (q.security ≡ security_normalized (resolve_site_security config site))
      × Rows target rs qs

  -- A site without rows has one route for all paths.
  abbrev pub RowsOrRoot : Backend → List PathRewrite → List Route → Type 0
  RowsOrRoot target [] routes =
      (q : Route) × (routes ≡ q ∷ [])
      × (q.path ≡ codes "/")
      × (q.path_type ≡ prefix)
      × (q.backend ≡ target)
      × (q.geoip ≡ geoip_normalized (resolve_site_geoip config site))
      × (q.security ≡ security_normalized (resolve_site_security config site))
  RowsOrRoot target (r ∷ rs) routes = Rows target (r ∷ rs) routes

  -- The target is the first upstream of the backend that the site names.
  pub record Carries (routes : List Route) : Type 0 where
    pub backend : NamedBackend
    pub upstream : Upstream
    pub target : Backend
    pub named : lookup site.backend (collect_backends config.backends []) ≡ some backend
    pub first : first_upstream backend.upstreams ≡ some upstream
    pub read : parse_upstream parse_url upstream.addr ≡ some target
    pub rows : RowsOrRoot target site.routes routes

  build_routes-Rows :
      (target : Backend) (rs : List PathRewrite) (routes : List Route)
      → build_routes parse_url site
          (resolve_site_geoip config site)
          (resolve_site_security config site)
          target
          rs
        ≡ built routes
      → Rows target rs routes
  unfolding build_routes site_route
  build_routes-Rows target [] [] e = tt
  build_routes-Rows target [] (q ∷ qs) e = absurd (ground (arith, e))
  build_routes-Rows target (r ∷ rs) routes e =
      let rest =
        build_routes parse_url site (resolve_site_geoip config site)
          (resolve_site_security config site) target rs in
      let (there, found, e1) =
        and_then-built (resolve_route_target parse_url r target) _ routes e in
      let (more, good, e2) = and_then-built rest _ routes e1 in
      subst (Rows target (r ∷ rs)) (built_same _ routes e2)
        (refl, refl, found, refl, refl, refl, build_routes-Rows target rs more good)

  routes_for_target-RowsOrRoot :
      (target : Backend) (rs : List PathRewrite) (routes : List Route)
      → routes_for_target parse_url config site rs target ≡ built routes
      → RowsOrRoot target rs routes
  unfolding routes_for_target site_route
  routes_for_target-RowsOrRoot target [] routes e =
      (_, sym (built_same _ routes e), refl, refl, refl, refl, refl)
  routes_for_target-RowsOrRoot target (r ∷ rs) routes e = build_routes-Rows target (r ∷ rs) routes e

  pub routes_of_site-Carries :
      (routes : List Route) → routes_of_site parse_url config site ≡ built routes → Carries routes
  unfolding routes_of_site target_at
  routes_of_site-Carries routes e =
      let (b, found, e1) =
        and_then-built
          (or_refused (unknown_backend site.backend)
            (lookup site.backend (collect_backends config.backends [])))
          _ routes e in
      let (u, one, e2) =
        and_then-built (or_refused (no_upstreams site.backend) (first_upstream b.upstreams)) _
          routes e1 in
      let (t, there, e3) = and_then-built (target_at parse_url u.addr) _ routes e2 in
      record {
        backend = b;
        upstream = u;
        target = t;
        named =
            or_refused-built _ (lookup site.backend (collect_backends config.backends [])) b found;
        first = or_refused-built _ (first_upstream b.upstreams) u one;
        read = or_refused-built _ (parse_upstream parse_url u.addr) t there;
        rows = routes_for_target-RowsOrRoot t site.routes routes e3;
      }
