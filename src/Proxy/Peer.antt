-- ===== src/Proxy/Peer.antt =====
-- src/proxy/mod.rs: `upstream_peer`, but for the options of the connection and the log.
pub mod Forgotten
use pertisk_proxy.Base.{
  ℕ, Bool, true, false, ◌&&◌, [], Option, none, some, if◌then◌else◌, Bytes, is_empty,
}
use pertisk_proxy.Proxy.Session.{Session, request_host, path_q}
use pertisk_proxy.Proxy.Forward.{Forwarded, planned, failed, EdgeState, resolve_forward}
use pertisk_proxy.Proxy.Context.{Gateway, Outside, Clock, RequestCtx, adopt_plan}

is_unset : Option Bytes → Bool
is_unset none = true
is_unset (some prefix) = false

-- Without a prefix and headers, the context is taken for one that no plan was found for.
looks_unplanned : RequestCtx → Bool
unfolding is_unset
looks_unplanned ctx =
    is_unset ctx.action.strip_prefix
    && (is_empty ctx.action.request_headers && is_empty ctx.action.response_headers)

ctx_of_plan : Forwarded → RequestCtx → RequestCtx
unfolding looks_unplanned adopt_plan
ctx_of_plan (failed e) ctx = ctx
ctx_of_plan (planned p) ctx = if looks_unplanned ctx then adopt_plan p.middleware ctx else ctx

unfoldable pub upstream_peer :
    Outside
    → Clock
    → Gateway
    → Session
    → RequestCtx × EdgeState
    → Forwarded × RequestCtx × EdgeState
unfolding ctx_of_plan resolve_forward
upstream_peer o k g s (ctx, edge) =
    let (plan, edge1) =
      resolve_forward o.looks_like_tls k.steady k.probed g.table (request_host s) (path_q s) edge in
    (plan, ctx_of_plan plan ctx, edge1)
