-- ===== src/Proxy/Response/Collected.antt =====
-- src/proxy/mod.rs: which responses the body filter puts into the cache.
use pertisk_proxy.Base.{
  ℕ, ◌≡◌, refl, ap, ◌∙◌, true, false, List, [], ◌∷◌, ◌++◌, Option, none, some, leb, if◌then◌else◌,
  Bytes, Map, length,
}
use pertisk_proxy.Edge.Cache.{CacheEntry, CacheInner, one_mib}
use pertisk_proxy.Proxy.Context.{Gateway, RequestCtx}
use pertisk_proxy.Proxy.Response.{cached_response, put_response, response_body_filter}

abbrev pub joined : List Bytes → Bytes
joined [] = []
joined (chunk ∷ chunks) = chunk ++ joined chunks

module _ (next_key : Map CacheEntry → Option Bytes) (now : ℕ) (g : Gateway) where
  -- Chunk after chunk, and the end of the stream behind the last.
  abbrev pub body_filters : List Bytes → RequestCtx × CacheInner → RequestCtx × CacheInner
  body_filters [] x = response_body_filter next_key now g none true x
  body_filters (chunk ∷ chunks) x =
      body_filters chunks (response_body_filter next_key now g (some chunk) false x)

  -- A response that is not collected stays out of the cache.
  pub body_filters_idle :
      (chunks : List Bytes) (ctx : RequestCtx) (cache : CacheInner)
      → ctx.cache_collect ≡ false
      → (body_filters chunks (ctx, cache)).1 ≡ cache
  unfolding response_body_filter
  body_filters_idle [] ctx cache idle = rw (response_body_filter, idle) refl
  body_filters_idle (chunk ∷ chunks) ctx cache idle =
      ap (λ x. (body_filters chunks x).1) (rw (response_body_filter, idle) refl)
      ∙ body_filters_idle chunks ctx cache idle

  -- The cache behind a body that was collected for the context.
  abbrev cached : RequestCtx → Bytes → CacheInner → Bytes → CacheInner
  cached ctx key cache body =
      if leb (length body) one_mib
      then put_response next_key now g key (cached_response (record ctx { cache_body = body }))
          cache
      else cache
