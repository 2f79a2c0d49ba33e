-- ===== src/Proxy/Filter/Passed.antt =====
-- src/proxy/mod.rs: what a request that `request_filter` sends upstream has passed.
use pertisk_proxy.Base.{◌≡◌, ◌⊎◌, inl, inr, subst, true, false, ◌∷◌, ◌++◌, none, if◌then◌else◌, Map}
use pertisk_proxy.Text.{codes}
use pertisk_proxy.Edge.Limits.{rate_limited}
use pertisk_proxy.Geoip.{Decision}
use pertisk_proxy.Geoip.Lookup.{evaluate_ip}
use pertisk_proxy.Security.Bot.{RateBucket}
use pertisk_proxy.Security.Captcha.{is_captcha_path}
use pertisk_proxy.Security.Pipeline.{SecurityAction}
use pertisk_proxy.Proxy.Session.{Session, request_host}
use pertisk_proxy.Proxy.Grpc.{validate_downstream}
use pertisk_proxy.Proxy.Context.{Gateway, Outside, Clock, Shared, RequestCtx}
use pertisk_proxy.Proxy.Filter.Stages.{
  IsBypass, forwarded-and_stage, handed_on, early_stage-pass, early_stage-proceed,
  rate_stage-proceed, limits_stage-pass, limits_stage-proceed,
}
use pertisk_proxy.Proxy.Filter.Policies.{
  auth_passes, IsKept, security_action, auth_stage-pass, auth_stage-proceed, file_stage-pass,
  file_stage-proceed, cache_stage-IsKept, captcha_stage-pass, captcha_stage-proceed,
  security_stage-pass, security_stage-proceed, grpc_stage-pass, grpc_stage-proceed,
  geoip_stage-pass, geoip_stage-proceed,
}
use pertisk_proxy.Proxy.Filter.{
  proceed, Filtered, forwarded, Work, and_stage, early_stage, refuses_host, plan_stage, client_ip,
  ip_or_dash, limits_stage, is_4xx_blocked, remember_client, auth_stage, file_stage, cache_stage,
  geoip_stage, captcha_stage, security_stage, grpc_stage, policy_stages, request_filter,
}

module _ (o : Outside) (k : Clock) (g : Gateway) (s : Session) where
  -- What the policies behind the limits find of a request with context `c`, with the buckets `rates`.
  pub record IsCleared (c : RequestCtx) (rates : Map RateBucket) : Type 0 where
    pub authorized : auth_passes o k g s c.action.edge.auth ≡ true
    pub no_file : c.action.file_root ≡ none
    pub country :
        evaluate_ip o.parse_ip o.print_ip o.country_loaded o.asn_loaded o.geo_lookup c.action.geoip
          (client_ip o k g s)
        ≡ Decision.allow
    pub no_captcha : is_captcha_path s.path ≡ false
    pub secure :
        (security_action o k g s c rates ≡ SecurityAction.allow)
        ⊎ (security_action o k g s c rates ≡ SecurityAction.log)
    pub grpc_valid :
        (if c.is_grpc then validate_downstream s.method s.http2 c.is_grpc_web else none) ≡ none

  -- What holds of a request that the policies let through, with the context of its plan and the state in front of the limits.
  pub record IsGuarded (x : Work) : Type 0 where
    pub host_served : refuses_host g (request_host s) ≡ false
    pub few_errors : is_4xx_blocked o k g s x.0 x.1 ≡ false
    pub within_rate :
        (rate_limited k.wall
          (codes "rps|" ++ (ip_or_dash (client_ip o k g s) ++ (b'|' ∷ request_host s)))
          x.0.action.edge.rate_limit_rps
          x.1.windows).1
        ≡ false
    pub cleared : IsCleared x.0 x.1.rates

  checked_stages : Work → Filtered × Work
  checked_stages w3 =
      and_stage (geoip_stage o k g s w3.0, w3)
        (λ w4.
          and_stage (captcha_stage o k g s w4.0, w4)
            (λ w5.
              and_stage (security_stage o k g s w5)
                (λ w6. and_stage (grpc_stage o k g s w6.0, w6) (λ w7. (forwarded, w7)))))

  checked_stages-forwarded :
      (c : RequestCtx) (w : Shared)
      → (checked_stages (c, w)).0 ≡ forwarded
      → (geoip_stage o k g s c ≡ proceed)
        × (captcha_stage o k g s c ≡ proceed)
        × ((security_stage o k g s (c, w)).0 ≡ proceed)
        × (grpc_stage o k g s c ≡ proceed)
  unfolding checked_stages
  checked_stages-forwarded c w e =
      let (on_geo, e1) =
        handed_on (geoip_stage o k g s c, (c, w)) _ (geoip_stage-pass o k g s c) e in
      let (on_captcha, e2) =
        handed_on (captcha_stage o k g s c, (c, w)) _ (captcha_stage-pass o k g s c) e1 in
      let (on_security, e3) =
        handed_on (security_stage o k g s (c, w)) _ (security_stage-pass o k g s c w) e2 in
      let c6 = (security_stage o k g s (c, w)).1.0 in
      let (on_grpc, e4) =
        handed_on (grpc_stage o k g s c6, (security_stage o k g s (c, w)).1) _
          (grpc_stage-pass o k g s c6) e3 in
      (
        on_geo,
        on_captcha,
        on_security,
        subst (λ x. grpc_stage o k g s x ≡ proceed)
            (security_stage-proceed o k g s c w on_security).1 on_grpc,
      )

  -- The checks are made in the context that the cache leaves; they speak of that in front of it.
  checks_kept :
      (c d : RequestCtx) (w v : Shared)
      → IsKept c d w v
      → (geoip_stage o k g s d ≡ proceed)
        × (captcha_stage o k g s d ≡ proceed)
        × ((security_stage o k g s (d, v)).0 ≡ proceed)
        × (grpc_stage o k g s d ≡ proceed)
      → (evaluate_ip o.parse_ip o.print_ip o.country_loaded o.asn_loaded o.geo_lookup c.action.geoip
            (client_ip o k g s)
          ≡ Decision.allow)
        × ((security_action o k g s c w.rates ≡ SecurityAction.allow)
            ⊎ (security_action o k g s c w.rates ≡ SecurityAction.log))
        × ((if c.is_grpc then validate_downstream s.method s.http2 c.is_grpc_web else none) ≡ none)
  checks_kept c d w v kept (on_geo, on_captcha, on_security, on_grpc) = (
    rw kept.action_kept at (geoip_stage-proceed o k g s d on_geo),
    rw (kept.action_kept, kept.rates_kept) at (security_stage-proceed o k g s d v on_security).0,
    rw (kept.grpc_kept, kept.web_kept) at (grpc_stage-proceed o k g s d on_grpc),
  )

  policy_stages-IsCleared :
      (c : RequestCtx) (w : Shared)
      → (policy_stages o k g s (c, w)).0 ≡ forwarded
      → IsCleared c w.rates
  unfolding policy_stages remember_client checked_stages
  policy_stages-IsCleared c w e =
      let c1 = remember_client o k g s c in
      let (on_auth, e1) =
        handed_on (auth_stage o k g s c.action.edge.auth, (c1, w)) _
          (auth_stage-pass o k g s c.action.edge.auth) e in
      let (on_file, e2) =
        handed_on (file_stage o k g s c.action.file_root, (c1, w)) _
          (file_stage-pass o k g s c.action.file_root) e1 in
      let (kept, never) = cache_stage-IsKept o k g s c1 w in
      let (on_cache, e3) = handed_on (cache_stage o k g s (c1, w)) checked_stages never e2 in
      let d = (cache_stage o k g s (c1, w)).1.0 in
      let v = (cache_stage o k g s (c1, w)).1.1 in
      let checks = checked_stages-forwarded d v e3 in
      let (geo, sec, rpc) = checks_kept c1 d w v kept checks in
      let (on_geo, on_captcha, on_security, on_grpc) = checks in
      record {
        authorized = auth_stage-proceed o k g s c.action.edge.auth on_auth;
        no_file = file_stage-proceed o k g s c.action.file_root on_file;
        country = geo;
        no_captcha = captcha_stage-proceed o k g s d on_captcha;
        secure = sec;
        grpc_valid = rpc;
      }

  guarded :
      (c : RequestCtx) (w : Shared)
      → refuses_host g (request_host s) ≡ false
      → (and_stage (limits_stage o k g s (plan_stage o k g s (c, w))) (policy_stages o k g s)).0
        ≡ forwarded
      → IsGuarded (plan_stage o k g s (c, w))
  guarded c w served e =
      let c1 = (plan_stage o k g s (c, w)).0 in
      let w1 = (plan_stage o k g s (c, w)).1 in
      let (on_limits, e1) =
        handed_on (limits_stage o k g s (c1, w1)) (policy_stages o k g s)
          (limits_stage-pass o k g s c1 w1) e in
      let v = (limits_stage o k g s (c1, w1)).1.1 in
      let (few, on_rate, kept, rates) = limits_stage-proceed o k g s c1 w1 on_limits in
      record {
        host_served = served;
        few_errors = few;
        within_rate = rate_stage-proceed o k g s c1 w1 on_rate;
        cleared = subst (IsCleared c1) rates (
            subst (λ d. IsCleared d v.rates) kept
              (policy_stages-IsCleared (limits_stage o k g s (c1, w1)).1.0 v e1));
      }

  -- A request that `request_filter` sends upstream either goes there without a policy, which happens
  -- only where redirection to HTTPS is on, the request has neither an X-Forwarded-Proto of `https` nor a
  -- URI with the scheme `https` or `wss` (which is all that `is_plain_http` looks at, so that its
  -- connection may be encrypted), and no certificate serves its host; or, with the action of the plan for
  -- its host and path: its host is not refused, its client has neither too many errors nor too many
  -- requests, its credentials are right, the route has no file root, the GeoIP look-up allows it, it is
  -- not for the captcha pages, the security pipeline allows or only logs it, and where it is a gRPC
  -- request it is a valid one.
  pub request_filter_forwarded :
      (c : RequestCtx) (w : Shared)
      → (request_filter o k g s (c, w)).0 ≡ forwarded
      → IsBypass o k g s ⊎ IsGuarded (plan_stage o k g s (c, w))
  unfolding request_filter plan_stage
  request_filter_forwarded c w e = elim (forwarded-and_stage (early_stage g s, (c, w)) _ e) [
    | inl passed_on ↦ inl (early_stage-pass o k g s passed_on)
    | inr (early, e1) ↦ inr (guarded c w (early_stage-proceed o k g s early) e1)
  ]
