-- ===== src/Proxy/Filter/Policies.antt =====
-- src/proxy/mod.rs: what each policy of `request_filter` tells of a request that it hands on.
use pertisk_proxy.Base.{
  ◌≡◌, ◌≢◌, ◌⊎◌, inl, inr, refl, Bool, true, false, Option, none, some, arith, if◌then◌else◌, Bytes,
  Bool-cases, Map,
}
use pertisk_proxy.Edge.Cache.{CachedResponse, cache_get}
use pertisk_proxy.Edge.Policy.{RouteAuth}
use pertisk_proxy.Geoip.{Decision}
use pertisk_proxy.Geoip.Lookup.{evaluate_ip}
use pertisk_proxy.Security.Bot.{RateBucket}
use pertisk_proxy.Security.Captcha.{is_captcha_path}
use pertisk_proxy.Security.Pipeline.{SecurityAction, SecurityDecision, security_is_active, evaluate}
use pertisk_proxy.Proxy.Session.{Session}
use pertisk_proxy.Proxy.Grpc.{validate_downstream}
use pertisk_proxy.Proxy.Context.{Gateway, Outside, Clock, Shared, RequestCtx}
use pertisk_proxy.Proxy.Filter.{
  pass, proceed, client_ip, auth_ok, auth_stage, file_stage, reads_cache, cache_hit, cache_stage,
  cache_key_of, geoip_stage, geoip_answer, captcha_stage, view_of, security_stage, security_answer,
  grpc_stage, grpc_answer,
}

-- What the cache leaves of the context.
pub record IsKept (c d : RequestCtx) (v w : Shared) : Type 0 where
  pub action_kept : d.action ≡ c.action
  pub grpc_kept : d.is_grpc ≡ c.is_grpc
  pub web_kept : d.is_grpc_web ≡ c.is_grpc_web
  pub rates_kept : w.rates ≡ v.rates

module _ (o : Outside) (k : Clock) (g : Gateway) (s : Session) where
  abbrev pub auth_passes : Option RouteAuth → Bool
  auth_passes none = true
  auth_passes (some auth) = auth_ok o k g s auth

  pub auth_stage-pass : (auth : Option RouteAuth) → auth_stage o k g s auth ≢ pass
  unfolding auth_stage
  auth_stage-pass none e = ground (arith, e)
  auth_stage-pass (some auth) e = ground (arith, e)

  pub auth_stage-proceed :
      (auth : Option RouteAuth) → auth_stage o k g s auth ≡ proceed → auth_passes auth ≡ true
  unfolding auth_stage
  auth_stage-proceed none e = refl
  auth_stage-proceed (some auth) e = ground (arith, e)

  pub file_stage-proceed : (root : Option Bytes) → file_stage o k g s root ≡ proceed → root ≡ none
  unfolding file_stage
  file_stage-proceed none e = refl
  file_stage-proceed (some root) e = ground (arith, e)

  pub file_stage-pass : (root : Option Bytes) → file_stage o k g s root ≢ pass
  unfolding file_stage
  file_stage-pass none e = ground (arith, e)
  file_stage-pass (some root) e = ground (arith, e)

  cache_hit-IsKept :
      (hit : Option CachedResponse) (c : RequestCtx) (v w : Shared)
      → w.rates ≡ v.rates
      → IsKept c (cache_hit o k g s hit c).1 v w × ((cache_hit o k g s hit c).0 ≢ pass)
  unfolding cache_hit
  cache_hit-IsKept none c v w e = (
    record { action_kept = refl; grpc_kept = refl; web_kept = refl; rates_kept = e },
    λ h. ground (arith, h),
  )
  cache_hit-IsKept (some hit) c v w e = (
    record { action_kept = refl; grpc_kept = refl; web_kept = refl; rates_kept = e },
    λ h. ground (arith, h),
  )

  pub cache_stage-IsKept :
      (c : RequestCtx) (w : Shared)
      → IsKept c (cache_stage o k g s (c, w)).1.0 w (cache_stage o k g s (c, w)).1.1
        × ((cache_stage o k g s (c, w)).0 ≢ pass)
  unfolding cache_stage
  cache_stage-IsKept c w = elim (Bool-cases (reads_cache o k g s c)) [
    | inl reads ↦ rw reads (
        cache_hit-IsKept (cache_get k.steady (cache_key_of s) w.cache).1 c w
          (record w { cache = (cache_get k.steady (cache_key_of s) w.cache).0 }) refl)
    | inr skips ↦ rw skips (
      record { action_kept = refl; grpc_kept = refl; web_kept = refl; rates_kept = refl },
      λ h. ground (arith, h),
    )
  ]

  geoip_answer-proceed : (d : Decision) → geoip_answer d ≡ proceed → d ≡ Decision.allow
  unfolding geoip_answer
  geoip_answer-proceed Decision.allow e = refl
  geoip_answer-proceed Decision.block_country e = ground (arith, e)
  geoip_answer-proceed Decision.block_asn e = ground (arith, e)

  geoip_answer-pass : (d : Decision) → geoip_answer d ≢ pass
  unfolding geoip_answer
  geoip_answer-pass Decision.allow e = ground (arith, e)
  geoip_answer-pass Decision.block_country e = ground (arith, e)
  geoip_answer-pass Decision.block_asn e = ground (arith, e)

  pub captcha_stage-proceed :
      (c : RequestCtx) → captcha_stage o k g s c ≡ proceed → is_captcha_path s.path ≡ false
  unfolding captcha_stage
  captcha_stage-proceed c e = ground (arith, e)

  pub captcha_stage-pass : (c : RequestCtx) → captcha_stage o k g s c ≢ pass
  unfolding captcha_stage
  captcha_stage-pass c e = ground (arith, e)

  security_answer-proceed :
      (d : SecurityDecision) (a : SecurityAction)
      → security_answer s d a ≡ proceed
      → (a ≡ SecurityAction.allow) ⊎ (a ≡ SecurityAction.log)
  unfolding security_answer
  security_answer-proceed d SecurityAction.allow e = inl refl
  security_answer-proceed d SecurityAction.log e = inr refl
  security_answer-proceed d SecurityAction.challenge e = ground (arith, e)
  security_answer-proceed d SecurityAction.block e = ground (arith, e)

  security_answer-pass : (d : SecurityDecision) (a : SecurityAction) → security_answer s d a ≢ pass
  unfolding security_answer
  security_answer-pass d SecurityAction.allow e = ground (arith, e)
  security_answer-pass d SecurityAction.log e = ground (arith, e)
  security_answer-pass d SecurityAction.challenge e = ground (arith, e)
  security_answer-pass d SecurityAction.block e = ground (arith, e)

  evaluate_off :
      (c : RequestCtx) (w : Shared)
      → security_is_active c.action.security ≡ false
      → (evaluate o.captcha_mac o.hex_encode k.steady k.wall c.action.security
          (view_of s (client_ip o k g s))
          w.rates).1.action
        ≡ SecurityAction.allow
  unfolding evaluate
  evaluate_off c w off = rw (evaluate, off) refl

  abbrev pub security_action : RequestCtx → Map RateBucket → SecurityAction
  security_action c rates =
      (evaluate o.captcha_mac o.hex_encode k.steady k.wall c.action.security
        (view_of s (client_ip o k g s)) rates).1.action

  pub security_stage-proceed :
      (c : RequestCtx) (w : Shared)
      → (security_stage o k g s (c, w)).0 ≡ proceed
      → ((security_action c w.rates ≡ SecurityAction.allow)
          ⊎ (security_action c w.rates ≡ SecurityAction.log))
        × ((security_stage o k g s (c, w)).1.0 ≡ c)
  unfolding security_stage
  security_stage-proceed c w e = elim (Bool-cases (security_is_active c.action.security)) [
    | inl on ↦ (
      security_answer-proceed
          (evaluate o.captcha_mac o.hex_encode k.steady k.wall c.action.security
            (view_of s (client_ip o k g s)) w.rates).1
          (security_action c w.rates) (rw on at e),
      rw on refl,
    )
    | inr off ↦ (inl (evaluate_off c w off), rw off refl)
  ]

  pub security_stage-pass : (c : RequestCtx) (w : Shared) → (security_stage o k g s (c, w)).0 ≢ pass
  unfolding security_stage
  security_stage-pass c w e = elim (Bool-cases (security_is_active c.action.security)) [
    | inl on ↦
        security_answer-pass
          (evaluate o.captcha_mac o.hex_encode k.steady k.wall c.action.security
            (view_of s (client_ip o k g s)) w.rates).1
          (security_action c w.rates) (rw on at e)
    | inr off ↦ ground (arith, e, off)
  ]

  pub grpc_stage-proceed :
      (c : RequestCtx)
      → grpc_stage o k g s c ≡ proceed
      → (if c.is_grpc then validate_downstream s.method s.http2 c.is_grpc_web else none) ≡ none
  unfolding grpc_stage grpc_answer
  grpc_stage-proceed c e = ground (arith, e)

  pub grpc_stage-pass : (c : RequestCtx) → grpc_stage o k g s c ≢ pass
  unfolding grpc_stage grpc_answer
  grpc_stage-pass c e = ground (arith, e)

  pub geoip_stage-pass : (c : RequestCtx) → geoip_stage o k g s c ≢ pass
  unfolding geoip_stage
  geoip_stage-pass c e =
      geoip_answer-pass
        (evaluate_ip o.parse_ip o.print_ip o.country_loaded o.asn_loaded o.geo_lookup c.action.geoip
          (client_ip o k g s))
        e

  pub geoip_stage-proceed :
      (c : RequestCtx)
      → geoip_stage o k g s c ≡ proceed
      → evaluate_ip o.parse_ip o.print_ip o.country_loaded o.asn_loaded o.geo_lookup c.action.geoip
          (client_ip o k g s)
        ≡ Decision.allow
  unfolding geoip_stage
  geoip_stage-proceed c e =
      geoip_answer-proceed
        (evaluate_ip o.parse_ip o.print_ip o.country_loaded o.asn_loaded o.geo_lookup c.action.geoip
          (client_ip o k g s))
        e
