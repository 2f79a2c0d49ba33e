-- ===== src/Proxy/Forward/Plans.antt =====
-- src/proxy/forward.rs: what a plan is, and where there is none.
use pertisk_proxy.Base.{
  ℕ, ◌≤◌, ◌≡◌, ◌⊎◌, inl, inr, refl, ap, ◌∙◌, subst, Bool, ◌∷◌, ◌++◌, Option, none, some, arith,
  Bytes, Option-cases,
}
use pertisk_proxy.Text.{
  codes, before, rsplit_once, rsplit_once-append, strip_prefix, strip_prefix-eq-some, parse,
  parse-print, parse-le, print, u16_max, print-AreDigits, AreDigits-has_byte, is_digit,
}
use pertisk_proxy.Edge.Consul.{consul_pick, probe_upstream_tls}
use pertisk_proxy.Edge.Consul.Endpoints.{AreUsable, picked-IsUsable}
use pertisk_proxy.Router.{Backend, Route, RouteTable, match_route_entry}
use pertisk_proxy.Router.Edges.{edge_for}
use pertisk_proxy.Proxy.Forward.{
  MiddlewareAction, ForwardPlan, Forwarded, planned, failed, no_route, no_endpoint, invalid_port,
  EdgeState, resolve_forward, forward_route, plan_route, file_plan, at_peer, consul_plan,
  direct_plan, auto_plan, scheme_of, build_upstream_url, parse_backend_peer, plan_for, peer_parts,
  peer_at, upstream_path_of, middleware_of,
}

-- The plan dials the peer that the address in its URL names, with the scheme that it is dialled by.
abbrev pub IsDialled : ForwardPlan → Bytes → Type 0
IsDialled p path =
    (address : Bytes) × (p.upstream_url ≡ scheme_of p.use_tls ++ (codes "://" ++ (address ++ path)))
    × (parse_backend_peer address p.peer_port ≡ some (p.peer_host, p.peer_port))

abbrev pub IsFile : ForwardPlan → Bytes → Bytes → Type 0
IsFile p address path =
    (root : Bytes) × (address ≡ codes "file:" ++ root)
    × (p.middleware.file_root ≡ some root)
    × (p.upstream_url ≡ codes "file:" ++ (root ++ path))

or_peer : Bytes × ℕ → Option (Bytes × ℕ) → Bytes × ℕ
or_peer d none = d
or_peer d (some peer) = peer

parse_backend_peer-printed :
    (host : Bytes) (port fallback : ℕ)
    → port ≤ u16_max
    → parse_backend_peer (host ++ (b':' ∷ print port)) fallback ≡ some (host, port)
unfolding parse_backend_peer peer_parts
parse_backend_peer-printed host port fallback small =
    ap (λ o. peer_parts o (host ++ (b':' ∷ print port)) fallback)
      (rsplit_once-append b':' host (print port)
        (AreDigits-has_byte b':' (print port) (unfold is_digit in refl) (print-AreDigits port)))
    ∙ ap (peer_at host) (parse-print u16_max port small)
    ∙ unfold peer_at in refl

parse_backend_peer-port :
    (address : Bytes) (fallback : ℕ) (peer : Bytes × ℕ)
    → fallback ≤ u16_max
    → parse_backend_peer address fallback ≡ some peer
    → (peer.1 ≤ u16_max) × (parse_backend_peer address peer.1 ≡ some peer)
unfolding parse_backend_peer peer_parts peer_at or_peer
parse_backend_peer-port address fallback peer small e = go (rsplit_once b':' address) e
  where
    go :
        (o : Option (Bytes × Bytes))
        → peer_parts o address fallback ≡ some peer
        → (peer.1 ≤ u16_max) × (peer_parts o address peer.1 ≡ some peer)
    go none e =
        subst (λ p. (p.1 ≤ u16_max) × (some (address, p.1) ≡ some p)) (ap (or_peer peer) e)
          (small, refl)
    go (some (host, port)) e = elim (Option-cases (parse u16_max port)) [
      | inl bad ↦ ground (arith, e, bad)
      | inr (n, good) ↦
          let there : some (host, n) ≡ some peer = rw good at e in
          let number : n ≡ peer.1 = ap (λ o. (or_peer peer o).1) there in
          (subst (λ m. m ≤ u16_max) number (parse-le u16_max port n good), e)
    ]

-- What each kind of backend makes of a plan and its path. The peer of a Consul service is the one that
-- its endpoints give; that of `auto:` the rest of the address, with TLS where the probe finds it; that of
-- an address of none of these kinds the address itself, with the scheme of the route.
abbrev pub peer_of : ForwardPlan → Bytes × ℕ
peer_of p = (p.peer_host, p.peer_port)

abbrev pub IsConsul : Backend → EdgeState → ForwardPlan → Type 0
IsConsul b s p =
    (service : Bytes) × (b.address ≡ codes "consul:" ++ service)
    × ((consul_pick service s.consul).0 ≡ some (peer_of p))
    × (p.use_tls ≡ b.use_tls)

abbrev pub IsDirect : Backend → ForwardPlan → Type 0
IsDirect b p =
    (strip_prefix (codes "file:") b.address ≡ none)
    × (strip_prefix (codes "consul:") b.address ≡ none)
    × (strip_prefix (codes "auto:") b.address ≡ none)
    × (parse_backend_peer b.address b.port ≡ some (peer_of p))
    × (p.use_tls ≡ b.use_tls)

module _ (tcp_looks_like_tls : Bytes → ℕ → Bool) (now later : ℕ) where
  abbrev pub IsAuto : Backend → EdgeState → ForwardPlan → Type 0
  IsAuto b s p =
      (rest : Bytes) × (b.address ≡ codes "auto:" ++ rest)
      × (parse_backend_peer rest b.port ≡ some (peer_of p))
      × (p.use_tls
          ≡ (probe_upstream_tls tcp_looks_like_tls p.peer_host p.peer_port now later s.probes).0)

  -- What is planned on a route with the backend `b`.
  abbrev pub Fits : MiddlewareAction → Bytes → Backend → EdgeState → Forwarded → Type 0
  Fits m path b s (planned p) =
      (p.middleware.geoip ≡ m.geoip)
      × (p.middleware.security ≡ m.security)
      × (p.middleware.edge ≡ m.edge)
      × (IsFile p b.address path
          ⊎ (IsDialled p path × (IsConsul b s p ⊎ (IsAuto b s p ⊎ IsDirect b p))))
  Fits m path b s (failed no_route) = ⊥
  Fits m path b s (failed no_endpoint) =
      (service : Bytes) × (b.address ≡ codes "consul:" ++ service)
      × ((consul_pick service s.consul).0 ≡ none)
  Fits m path b s (failed invalid_port) =
      (rest : Bytes) × ((b.address ≡ codes "auto:" ++ rest) ⊎ (b.address ≡ rest))
      × (parse_backend_peer rest b.port ≡ none)

  dialled :
      (path : Bytes) (peer : Bytes × ℕ) (b : Backend) (m : MiddlewareAction)
      → parse_backend_peer b.address peer.1 ≡ some peer
      → IsDialled (plan_for peer b path m) path
  unfolding build_upstream_url
  dialled path (host, n) b m e = (b.address, refl, e)

  direct_plan-Fits :
      (m : MiddlewareAction) (path : Bytes) (b : Backend) (s : EdgeState) (o : Option (Bytes × ℕ))
      → b.port ≤ u16_max
      → strip_prefix (codes "file:") b.address ≡ none
      → strip_prefix (codes "consul:") b.address ≡ none
      → strip_prefix (codes "auto:") b.address ≡ none
      → parse_backend_peer b.address b.port ≡ o
      → Fits m path b s (direct_plan b path m o)
  unfolding direct_plan
  direct_plan-Fits m path b s none small f c a e = (b.address, inr refl, e)
  direct_plan-Fits m path b s (some (host, n)) small f c a e = (
    refl,
    refl,
    refl,
    inr (
      dialled path (host, n) b m (parse_backend_peer-port b.address b.port (host, n) small e).1,
      inr (inr (f, c, a, e, refl)),
    ),
  )

  consul_plan-Fits :
      (m : MiddlewareAction) (path service : Bytes) (b : Backend) (s : EdgeState)
      (o : Option (Bytes × ℕ))
      → AreUsable s.consul
      → b.address ≡ codes "consul:" ++ service
      → (consul_pick service s.consul).0 ≡ o
      → Fits m path b s (consul_plan b path m o)
  unfolding consul_plan at_peer
  consul_plan-Fits m path service b s none h a e = (service, a, e)
  consul_plan-Fits m path service b s (some (host, n)) h a e = (
    refl,
    refl,
    refl,
    inr (
      dialled path (host, n) (at_peer b (host, n)) m
          (parse_backend_peer-printed host n n (picked-IsUsable service s.consul (host, n) h e).2),
      inl (service, a, e, refl),
    ),
  )

  auto_plan-Fits :
      (m : MiddlewareAction) (path rest : Bytes) (b : Backend) (s : EdgeState)
      (o : Option (Bytes × ℕ))
      → b.port ≤ u16_max
      → b.address ≡ codes "auto:" ++ rest
      → parse_backend_peer rest b.port ≡ o
      → Fits m path b s (auto_plan tcp_looks_like_tls now later b path m o s).0
  unfolding auto_plan at_peer
  auto_plan-Fits m path rest b s none small a e = (rest, inl a, e)
  auto_plan-Fits m path rest b s (some (host, n)) small a e =
      let use_tls = (probe_upstream_tls tcp_looks_like_tls host n now later s.probes).0 in
      (
        refl,
        refl,
        refl,
        inr (
          dialled path (host, n) (record (at_peer b (host, n)) { use_tls = use_tls }) m
              (parse_backend_peer-printed host n n
                (parse_backend_peer-port rest b.port (host, n) small e).0),
          inr (inl (rest, a, e, refl)),
        ),
      )

  plan_route-Fits :
      (m : MiddlewareAction) (path : Bytes) (b : Backend) (s : EdgeState)
      (root service rest : Option Bytes)
      → AreUsable s.consul
      → b.port ≤ u16_max
      → strip_prefix (codes "file:") b.address ≡ root
      → strip_prefix (codes "consul:") b.address ≡ service
      → strip_prefix (codes "auto:") b.address ≡ rest
      → Fits m path b s (plan_route tcp_looks_like_tls now later b path m root service rest s).0
  unfolding plan_route file_plan
  plan_route-Fits m path b s (some root) service rest h small f c a = (
    refl,
    refl,
    refl,
    inl (root, strip_prefix-eq-some (codes "file:") b.address root f, refl, refl),
  )
  plan_route-Fits m path b s none (some service) rest h small f c a =
      consul_plan-Fits m path service b s (consul_pick service s.consul).0 h
        (strip_prefix-eq-some (codes "consul:") b.address service c) refl
  plan_route-Fits m path b s none none (some rest) h small f c a =
      auto_plan-Fits m path rest b s (parse_backend_peer rest b.port) small
        (strip_prefix-eq-some (codes "auto:") b.address rest a) refl
  plan_route-Fits m path b s none none none h small f c a =
      direct_plan-Fits m path b s (parse_backend_peer b.address b.port) small f c a refl

  -- What the outcome is for the route that was found, or for none.
  abbrev pub Outcome : RouteTable → Bytes → Bytes → EdgeState → Option Route → Forwarded → Type 0
  Outcome table host path_and_query s none outcome = outcome ≡ failed no_route
  Outcome table host path_and_query s (some route) outcome =
      let m = middleware_of table host route in
      (m.geoip ≡ route.geoip)
      × (m.security ≡ route.security)
      × (m.edge ≡ edge_for table host route.path)
      × Fits m (upstream_path_of m.strip_prefix path_and_query) route.backend s outcome

  forward_route-Outcome :
      (table : RouteTable) (host path_and_query : Bytes) (s : EdgeState) (o : Option Route)
      → AreUsable s.consul
      → ((r : Route) → o ≡ some r → r.backend.port ≤ u16_max)
      → Outcome table host path_and_query s o
          (forward_route tcp_looks_like_tls now later table host path_and_query o s).0
  unfolding forward_route middleware_of
  forward_route-Outcome table host path_and_query s none h k = refl
  forward_route-Outcome table host path_and_query s (some route) h k =
      let m = middleware_of table host route in
      let address = route.backend.address in
      (
        refl,
        refl,
        refl,
        plan_route-Fits m (upstream_path_of m.strip_prefix path_and_query) route.backend s
            (strip_prefix (codes "file:") address) (strip_prefix (codes "consul:") address)
            (strip_prefix (codes "auto:") address) h (k route refl) refl refl refl,
      )

  -- Where the Consul endpoints are usable and the port of the route fits 16 bits: without a route for
  -- the host and the path the request is refused with 404, and only then. Else the plan has the
  -- country, security and edge policies of the route, and is for the path that the middlewares leave;
  -- and either it is for the file root in the address of the route's backend, or it dials the peer that its
  -- URL names, which is the endpoint that Consul gives for the service in the address, or the peer in an
  -- `auto:` address with TLS where the probe finds it, or, where the address is of none of these kinds, the
  -- peer in the address with the scheme of the backend. A plan is only refused with 503 where the Consul
  -- service of the route has no endpoint, and with an internal error where the port of its address
  -- cannot be read.
  pub resolve_forward-Outcome :
      (table : RouteTable) (host path_and_query : Bytes) (s : EdgeState)
      → AreUsable s.consul
      → ((r : Route)
          → match_route_entry table host (before b'?' path_and_query) ≡ some r
          → r.backend.port ≤ u16_max)
      → Outcome table host path_and_query s
          (match_route_entry table host (before b'?' path_and_query))
          (resolve_forward tcp_looks_like_tls now later table host path_and_query s).0
  unfolding resolve_forward
  resolve_forward-Outcome table host path_and_query s =
      forward_route-Outcome table host path_and_query s
        (match_route_entry table host (before b'?' path_and_query))
