-- ===== src/Proxy/Response/Blank.antt =====
-- src/proxy/mod.rs: the response filter for a context that says nothing of the client and the cache.
use pertisk_proxy.Base.{
  ℕ, ◌≡◌, refl, ap, ◌∙◌, inl, inr, false, ◌&&◌, Option, none, some, leb, ltb, Bytes, Map,
  Bool-cases,
}
use pertisk_proxy.Edge.Limits.{Window}
use pertisk_proxy.Proxy.Session.{Session}
use pertisk_proxy.Proxy.Context.{RequestCtx}
use pertisk_proxy.Proxy.Response.{
  Response, mark_sse, is_sse_response, mark_cacheable, note_client, response_headers_of,
  response_filter,
}

-- A context that is not collected and names no client.
pub record IsBlank (ctx : RequestCtx) : Type 0 where
  pub idle : ctx.cache_collect ≡ false
  pub no_client : ctx.rate_client ≡ none

mark_sse-IsBlank : (r : Response) (ctx : RequestCtx) → IsBlank ctx → IsBlank (mark_sse r ctx)
unfolding mark_sse
mark_sse-IsBlank r ctx b = elim (Bool-cases (is_sse_response r)) [
  | inl streams ↦ rw streams (record { idle = b.idle; no_client = b.no_client })
  | inr plain ↦ rw plain b
]

note_client_nobody :
    (sec : ℕ) (host : Option Bytes) (m : Map Window) → note_client sec none host m ≡ m
unfolding note_client
note_client_nobody sec none m = refl
note_client_nobody sec (some host) m = refl

mark_cacheable_idle :
    (r : Response) (ctx : RequestCtx) → ctx.cache_collect ≡ false → mark_cacheable r ctx ≡ ctx
unfolding mark_cacheable
mark_cacheable_idle r ctx idle = rw (mark_cacheable, idle) refl

module _ (sec : ℕ) (s : Session) (r : Response) (ctx : RequestCtx) (windows : Map Window) where
  pub response_filter-blank :
      IsBlank ctx
      → ((response_filter sec s (r, ctx, windows)).1.cache_collect ≡ false)
        × ((response_filter sec s (r, ctx, windows)).2 ≡ windows)
  unfolding response_filter
  response_filter-blank b =
      let ctx1 = mark_sse r ctx in
      let b1 = mark_sse-IsBlank r ctx b in
      let r1 = record r { headers = response_headers_of s r ctx1 } in
      let ctx2 = record ctx1 { cache_status = r1.status } in
      let kept = mark_cacheable_idle r1 ctx2 b1.idle in
      let nobody : (mark_cacheable r1 ctx2).rate_client ≡ none =
        ap (λ c. c.rate_client) kept ∙ b1.no_client in
      (
        ap (λ c. c.cache_collect) kept ∙ b1.idle,
        elim (Bool-cases (leb 400 r.status && ltb r.status 500)) [
          | inl bad ↦
              rw (response_filter, bad)
                (ap (λ o. note_client sec o (mark_cacheable r1 ctx2).rate_host windows) nobody
                  ∙ note_client_nobody sec (mark_cacheable r1 ctx2).rate_host windows)
          | inr fine ↦ rw (response_filter, fine) refl
        ],
      )
