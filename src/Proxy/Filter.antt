-- ===== src/Proxy/Filter.antt =====
-- src/proxy/mod.rs: `request_filter`, stage by stage. What is written to the session is the answer; the
-- counters and the log are left out.
pub mod Stages
pub mod Policies
pub mod Passed
use pertisk_proxy.Base.{
  ℕ, ◌*◌, Bool, true, false, not, ◌&&◌, ◌||◌, List, [], ◌∷◌, ◌++◌, Option, none, some, ltb, ◌==◌,
  if◌then◌else◌, Bytes, Map, lookup, bytes_eq, is_empty,
}
use pertisk_proxy.Text.{codes, strip_prefix, print}
use pertisk_proxy.Edge.Limits.{Window, rate_limited, x4xx_blocked}
use pertisk_proxy.Edge.Cache.{CachedResponse, cache_get}
use pertisk_proxy.Edge.Files.{safe_file}
use pertisk_proxy.Edge.Policy.{RouteAuth, EdgePolicy, basic, forward, cache_enabled}
use pertisk_proxy.Edge.Credentials.{auth_header_ok}
use pertisk_proxy.Geoip.{Decision}
use pertisk_proxy.Geoip.Lookup.{evaluate_ip}
use pertisk_proxy.Security.Request.{RequestView}
use pertisk_proxy.Security.Captcha.{
  captcha_verify_path, is_captcha_path, Verified, passed, refused, verify_and_pass_cookie,
}
use pertisk_proxy.Security.Pipeline.{SecurityAction, SecurityDecision, security_is_active, evaluate}
use pertisk_proxy.Router.{has_host}
use pertisk_proxy.Router.Upstream.{trim_end_byte}
use pertisk_proxy.Tls.Store.{has_cert_for_host}
use pertisk_proxy.Proxy.Headers.{header}
use pertisk_proxy.Proxy.Session.{
  Session, request_host, path_q, query_of, is_downstream_tls, is_plain_http, session_client_ip,
  decoded_query_param, responds_health, is_installer_host,
}
use pertisk_proxy.Proxy.Grpc.{get_method, validate_downstream}
use pertisk_proxy.Proxy.Forward.{Forwarded, planned, failed, resolve_forward}
use pertisk_proxy.Proxy.Context.{Gateway, Outside, Clock, Shared, RequestCtx, adopt_plan}

pub data Answer : Type 0 where
  health installer not_found too_many_errors too_many_requests : Answer
  acme_token : Bytes → Answer
  -- 421 or 404, for a host without a route.
  unknown_host : Bool → Answer
  to_https : Bytes → Answer
  -- With a demand for a password or without.
  unauthorized : Bool → Answer
  -- The components of the path, and the content.
  page : List Bytes → Bytes → Answer
  cached : CachedResponse → Answer
  -- 403 with the reason.
  forbidden : Bytes → Answer
  -- The cookie and where to go.
  captcha_passed : Bytes → Bytes → Answer
  -- The status, the page to come back to, and the reason.
  captcha_page : ℕ → Bytes → Bytes → Answer
  grpc_error : Bytes → Answer

-- A stage answers, sends the request upstream, or hands it on.
pub data Flow : Type 0 where
  answer : Answer → Flow
  pass proceed : Flow

pub data Filtered : Type 0 where
  answered : Answer → Filtered
  forwarded : Filtered

abbrev pub Work : Type 0
Work = RequestCtx × Shared

unfoldable pub and_stage : Flow × Work → (Work → Filtered × Work) → Filtered × Work
and_stage (answer a, w) rest = (answered a, w)
and_stage (pass, w) rest = (forwarded, w)
and_stage (proceed, w) rest = rest w

abbrev or_next : Flow → Flow → Flow
or_next (answer a) f = answer a
or_next pass f = pass
or_next proceed f = f

token_answer : Option Bytes → Flow
token_answer none = proceed
token_answer (some body) = answer (acme_token body)

acme_for : Map Bytes → Option Bytes → Flow
unfolding token_answer trim_end_byte
acme_for store none = proceed
acme_for store (some rest) =
    let token = trim_end_byte b'/' rest in
    if is_empty token then proceed else token_answer (lookup token store)

acme_stage : Option (Map Bytes) → Bytes → Flow
unfolding acme_for
acme_stage none path = proceed
acme_stage (some store) path =
    acme_for store (strip_prefix (codes "/.well-known/acme-challenge/") path)

unfoldable pub refuses_host : Gateway → Bytes → Bool
refuses_host g host = g.deny_unknown && (not (is_empty host) && not (has_host g.table host))

unfoldable pub https_target : ℕ → Bytes → Bytes → Bytes
https_target port host path_q =
    codes "https://" ++ (host ++ ((if port == 443 then [] else b':' ∷ print port) ++ path_q))

-- Where plain requests are sent to HTTPS.
https_stage : Gateway → Session → Flow
unfolding refuses_host https_target request_host
https_stage g s =
    let asked = request_host s in
    let host = if is_empty asked then codes "localhost" else asked in
    if not (bytes_eq host (codes "localhost")) && refuses_host g host
    then answer (unknown_host false)
    else if not (has_cert_for_host host g.certs)
    then pass
    else answer (to_https (https_target g.https_port host (path_q s)))

-- The host of the installer, plain requests, and hosts without a route.
host_stage : Gateway → Session → Flow
unfolding https_stage refuses_host
host_stage g s =
    if is_installer_host g.installer_hosts (request_host s)
    then answer installer
    else if g.auto_https && is_plain_http s
    then https_stage g s
    else if refuses_host g (request_host s)
    then answer (unknown_host (is_downstream_tls s))
    else proceed

-- What is decided before the route is looked for.
unfoldable pub early_stage : Gateway → Session → Flow
unfolding acme_stage host_stage
early_stage g s =
    if responds_health s.method s.path
    then answer health
    else or_next (acme_stage g.http01 s.path) (host_stage g s)

ctx_after : Forwarded → RequestCtx → RequestCtx
unfolding adopt_plan
ctx_after (planned p) ctx = adopt_plan p.middleware ctx
ctx_after (failed e) ctx = ctx

unfoldable pub ip_or_dash : Option Bytes → Bytes
ip_or_dash none = codes "-"
ip_or_dash (some ip) = ip

captcha_ttl : RequestCtx → ℕ
captcha_ttl ctx =
    if ctx.action.security.captcha.enabled
    then ctx.action.security.captcha.cookie_ttl_secs
    else 86400

given_or : Bytes → Option Bytes → Bytes
given_or d none = d
given_or d (some s) = s

verified_answer : Option Bytes → Verified → Answer
unfolding given_or
verified_answer next (passed cookie location) = captcha_passed cookie location
verified_answer next (refused reason) = captcha_page 403 (given_or (codes "/") next) (codes "retry")

unfoldable pub view_of : Session → Option Bytes → RequestView
view_of s client_ip = record {
  method = s.method;
  path = s.path;
  query = query_of s;
  user_agent = header (codes "user-agent") s.headers;
  accept = header (codes "accept") s.headers;
  accept_language = header (codes "accept-language") s.headers;
  cookie = header (codes "cookie") s.headers;
  client_ip = client_ip;
}

abbrev path_with_query : Session → Bytes
path_with_query s = if is_empty (query_of s) then s.path else s.path ++ (b'?' ∷ query_of s)

security_answer : Session → SecurityDecision → SecurityAction → Flow
security_answer s d SecurityAction.allow = proceed
security_answer s d SecurityAction.log = proceed
security_answer s d SecurityAction.challenge =
    answer (captcha_page 403 (path_with_query s) d.reason)
security_answer s d SecurityAction.block = answer (forbidden d.reason)

grpc_answer : Option Bytes → Flow
grpc_answer none = proceed
grpc_answer (some message) = answer (grpc_error message)

geoip_answer : Decision → Flow
geoip_answer Decision.allow = proceed
geoip_answer Decision.block_country = answer (forbidden (codes "geoip-country"))
geoip_answer Decision.block_asn = answer (forbidden (codes "geoip-asn"))

file_answer : Option Bytes → List Bytes → Answer
file_answer none path = not_found
file_answer (some body) path = page path body

is_basic : RouteAuth → Bool
is_basic (basic username password) = true
is_basic _ = false

is_open : Option RouteAuth → Bool
is_open none = true
is_open (some auth) = false

unfoldable pub cache_key_of : Session → Bytes
cache_key_of s = codes "GET " ++ (request_host s ++ path_q s)

module _ (o : Outside) (k : Clock) (g : Gateway) (s : Session) where
  abbrev pub client_ip : Option Bytes
  client_ip = session_client_ip o.parse_ip o.print_ip s

  pub plan_stage : Work → Work
  unfolding ctx_after
  plan_stage (ctx, w) =
      let (plan, edge) =
        resolve_forward o.looks_like_tls k.steady k.probed g.table (request_host s) (path_q s)
          w.edge in
      (ctx_after plan ctx, record w { edge = edge })

  pub rate_stage : Work → Flow × Work
  unfolding ip_or_dash
  rate_stage (ctx, w) =
      if ltb 0 ctx.action.edge.rate_limit_rps
      then (let (windows, limited) =
            rate_limited k.wall (codes "rps|" ++ (ip_or_dash client_ip ++ (b'|' ∷ request_host s)))
              ctx.action.edge.rate_limit_rps w.windows in
          (
            if limited then answer too_many_requests else proceed,
            (ctx, record w { windows = windows }),
          ))
      else (proceed, (ctx, w))

  unfoldable pub is_4xx_blocked : RequestCtx → Shared → Bool
  unfolding ip_or_dash
  is_4xx_blocked ctx w =
      ltb 0 ctx.action.edge.x4xx_limit_rps
      && x4xx_blocked k.wall (ip_or_dash client_ip) (request_host s) ctx.action.edge.x4xx_limit_rps
          w.windows

  pub limits_stage : Work → Flow × Work
  unfolding is_4xx_blocked rate_stage
  limits_stage (ctx, w) =
      if is_4xx_blocked ctx w then (answer too_many_errors, (ctx, w)) else rate_stage (ctx, w)

  remember_client : RequestCtx → RequestCtx
  remember_client ctx = record ctx { rate_client = client_ip; rate_host = some (request_host s) }

  unfoldable pub auth_ok : RouteAuth → Bool
  auth_ok (forward url) = o.forward_auth url (request_host s) s.path s.headers
  auth_ok auth =
      auth_header_ok o.jwt_mac k.wall auth (header (codes "authorization") s.headers)
        (header (codes "x-api-key") s.headers) (query_of s)

  pub auth_stage : Option RouteAuth → Flow
  unfolding auth_ok is_basic
  auth_stage none = proceed
  auth_stage (some auth) = if auth_ok auth then proceed else answer (unauthorized (is_basic auth))

  file_found : Bytes → Option (List Bytes) → Answer
  unfolding file_answer
  file_found root none = not_found
  file_found root (some path) = file_answer (o.read_file root path) path

  pub file_stage : Option Bytes → Flow
  unfolding file_found
  file_stage none = proceed
  file_stage (some root) = answer (file_found root (safe_file s.path))

  unfoldable pub reads_cache : RequestCtx → Bool
  unfolding is_open
  reads_cache ctx =
      not ctx.is_grpc
      && (not ctx.is_websocket
          && (not ctx.is_long_lived_stream
              && (bytes_eq s.method get_method
                  && (is_open ctx.action.edge.auth
                      && cache_enabled g.table.globals ctx.action.edge))))

  cache_hit : Option CachedResponse → RequestCtx → Flow × RequestCtx
  cache_hit (some hit) ctx = (answer (cached hit), ctx)
  cache_hit none ctx =
      (proceed, record ctx { cache_collect = true; cache_key = some (cache_key_of s) })

  pub cache_stage : Work → Flow × Work
  unfolding reads_cache cache_hit
  cache_stage (ctx, w) =
      if reads_cache ctx
      then (let (cache, hit) = cache_get k.steady (cache_key_of s) w.cache in
          let (f, ctx') = cache_hit hit ctx in (f, (ctx', record w { cache = cache })))
      else (proceed, (ctx, w))

  pub geoip_stage : RequestCtx → Flow
  unfolding geoip_answer
  geoip_stage ctx = geoip_answer (
      evaluate_ip o.parse_ip o.print_ip o.country_loaded o.asn_loaded o.geo_lookup ctx.action.geoip
        client_ip)

  pub captcha_stage : RequestCtx → Flow
  unfolding captcha_ttl verified_answer given_or
  captcha_stage ctx =
      let param = decoded_query_param (query_of s) in
      if not (is_captcha_path s.path)
      then proceed
      else if bytes_eq s.path captcha_verify_path
      then answer (
          verified_answer (param (codes "next")) (
            verify_and_pass_cookie o.captcha_mac o.hex_encode k.wall (param (codes "token"))
              (param (codes "answer")) (param (codes "next")) client_ip (captcha_ttl ctx)))
      else answer (captcha_page 200 (given_or (codes "/") (param (codes "next"))) (codes "check"))

  pub security_stage : Work → Flow × Work
  unfolding security_answer view_of
  security_stage (ctx, w) =
      if security_is_active ctx.action.security
      then (let (rates, d) =
            evaluate o.captcha_mac o.hex_encode k.steady k.wall ctx.action.security
              (view_of s client_ip) w.rates in
          (security_answer s d d.action, (ctx, record w { rates = rates })))
      else (proceed, (ctx, w))

  pub grpc_stage : RequestCtx → Flow
  unfolding grpc_answer
  grpc_stage ctx =
      if ctx.is_grpc
      then grpc_answer (validate_downstream s.method s.http2 ctx.is_grpc_web)
      else proceed

  -- Behind the limits: credentials, file, cache, country, captcha, firewall and gRPC, in this order.
  unfoldable pub policy_stages : Work → Filtered × Work
  unfolding and_stage remember_client auth_stage file_stage cache_stage geoip_stage captcha_stage
      security_stage grpc_stage
  policy_stages (ctx, w) =
      let ctx1 = remember_client ctx in
      and_stage (auth_stage ctx1.action.edge.auth, (ctx1, w))
        (λ w1.
          and_stage (file_stage ctx1.action.file_root, w1)
            (λ w2. and_stage (cache_stage w2) (λ w3.
              and_stage (geoip_stage w3.0, w3)
                (λ w4.
                  and_stage (captcha_stage w4.0, w4)
                    (λ w5.
                      and_stage (security_stage w5)
                        (λ w6. and_stage (grpc_stage w6.0, w6) (λ w7. (forwarded, w7))))))))

  unfoldable pub request_filter : Work → Filtered × Work
  unfolding and_stage plan_stage limits_stage policy_stages
  request_filter work =
      and_stage (early_stage g s, work)
        (λ w1. and_stage (limits_stage (plan_stage w1)) policy_stages)
