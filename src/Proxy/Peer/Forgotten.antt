-- ===== src/Proxy/Peer/Forgotten.antt =====
-- src/proxy/mod.rs: what `upstream_peer` leaves of the context for the filters of the response.
use pertisk_proxy.Base.{ℕ, ◌≡◌, refl, true, List, [], Option, none, arith, Bytes, Map}
use pertisk_proxy.Edge.Limits.{Window}
use pertisk_proxy.Edge.Cache.{CacheEntry, CacheInner}
use pertisk_proxy.Proxy.Session.{Session}
use pertisk_proxy.Proxy.Forward.{ForwardPlan, Forwarded, planned, failed, EdgeState}
use pertisk_proxy.Proxy.Context.{Gateway, Outside, Clock, RequestCtx, adopt_plan}
use pertisk_proxy.Proxy.Response.{Response, response_filter}
use pertisk_proxy.Proxy.Response.Blank.{IsBlank, response_filter-blank}
use pertisk_proxy.Proxy.Response.Collected.{body_filters, body_filters_idle}
use pertisk_proxy.Proxy.Peer.{looks_unplanned, is_unset, ctx_of_plan, upstream_peer}

unplanned :
    (ctx : RequestCtx)
    → ctx.action.strip_prefix ≡ none
    → ctx.action.request_headers ≡ []
    → ctx.action.response_headers ≡ []
    → looks_unplanned ctx ≡ true
unfolding looks_unplanned is_unset
unplanned ctx prefix asked answered = rw (prefix, asked, answered) refl

ctx_of_plan-IsBlank :
    (f : Forwarded) (p : ForwardPlan) (ctx : RequestCtx)
    → f ≡ planned p
    → looks_unplanned ctx ≡ true
    → IsBlank (ctx_of_plan f ctx)
unfolding ctx_of_plan adopt_plan
ctx_of_plan-IsBlank (planned q) p ctx e bare = rw bare (record { idle = refl; no_client = refl })
ctx_of_plan-IsBlank (failed q) p ctx e bare = absurd (ground (arith, e))

module _ (o : Outside) (k : Clock) (g : Gateway) (s : Session) where
  -- Where the context of a request has no prefix to strip and no headers to add, and `upstream_peer`
  -- finds a peer: whatever the response and its body, no error of the client is counted and the cache
  -- stays as it was, whatever the context asked for.
  pub upstream_peer_forgets :
      (ctx : RequestCtx) (edge : EdgeState) (p : ForwardPlan)
      (next_key : Map CacheEntry → Option Bytes) (sec : ℕ) (r : Response) (windows : Map Window)
      (chunks : List Bytes) (cache : CacheInner)
      → ctx.action.strip_prefix ≡ none
      → ctx.action.request_headers ≡ []
      → ctx.action.response_headers ≡ []
      → (upstream_peer o k g s (ctx, edge)).0 ≡ planned p
      → ((response_filter sec s (r, (upstream_peer o k g s (ctx, edge)).1, windows)).2 ≡ windows)
        × ((body_filters next_key k.steady g chunks (
          (response_filter sec s (r, (upstream_peer o k g s (ctx, edge)).1, windows)).1,
          cache,
        )).1
            ≡ cache)
  unfolding upstream_peer
  upstream_peer_forgets ctx edge p next_key sec r windows chunks cache prefix asked answered e =
      let ctx1 = (upstream_peer o k g s (ctx, edge)).1 in
      let blank : IsBlank ctx1 =
        ctx_of_plan-IsBlank (upstream_peer o k g s (ctx, edge)).0 p ctx e
          (unplanned ctx prefix asked answered) in
      let (idle, same) = response_filter-blank sec s r ctx1 windows blank in
      (
        same,
        body_filters_idle next_key k.steady g chunks (response_filter sec s (r, ctx1, windows)).1
            cache idle,
      )
