-- ===== src/Proxy/Filter/Stages.antt =====
-- src/proxy/mod.rs: what the stages of `request_filter` in front of the route and its limits tell.
use pertisk_proxy.Base.{
  ℕ, ◌≡◌, ◌≢◌, ◌⊎◌, inl, inr, refl, ap, ◌∙◌, true, false, ◌∷◌, ◌++◌, Option, none, some, arith, ltb,
  if◌then◌else◌, Bytes, is_empty, Bool-cases, Map,
}
use pertisk_proxy.Text.{codes, strip_prefix}
use pertisk_proxy.Edge.Limits.{Window, rate_limited}
use pertisk_proxy.Tls.Store.{has_cert_for_host}
use pertisk_proxy.Proxy.Session.{Session, request_host, is_plain_http, responds_health}
use pertisk_proxy.Proxy.Context.{Gateway, Outside, Clock, Shared, RequestCtx}
use pertisk_proxy.Proxy.Filter.{
  Flow, answer, pass, proceed, Filtered, forwarded, Work, and_stage, or_next, early_stage,
  host_stage, https_stage, acme_stage, acme_for, token_answer, refuses_host, client_ip, ip_or_dash,
  rate_stage, limits_stage, is_4xx_blocked,
}

-- A request goes upstream by a stage that passes it, or by all of them.
pub forwarded-and_stage :
    (m : Flow × Work) (rest : Work → Filtered × Work)
    → (and_stage m rest).0 ≡ forwarded
    → (m.0 ≡ pass) ⊎ ((m.0 ≡ proceed) × ((rest m.1).0 ≡ forwarded))
unfolding and_stage
forwarded-and_stage (answer a, w) rest e = ground (arith, e)
forwarded-and_stage (pass, w) rest e = inl refl
forwarded-and_stage (proceed, w) rest e = inr (refl, e)

unlimited :
    (sec : ℕ) (key : Bytes) (limit : ℕ) (m : Map Window)
    → ltb 0 limit ≡ false
    → (rate_limited sec key limit m).1 ≡ false
unfolding rate_limited
unlimited sec key limit m e = ground (arith, e)

-- A stage that only answers or hands on.
abbrev pub NeverPasses : Flow → Type 0
NeverPasses f = f ≢ pass

pub handed_on :
    (m : Flow × Work) (rest : Work → Filtered × Work)
    → NeverPasses m.0
    → (and_stage m rest).0 ≡ forwarded
    → (m.0 ≡ proceed) × ((rest m.1).0 ≡ forwarded)
handed_on m rest never e = elim (forwarded-and_stage m rest e) [
  | inl passed_on ↦ absurd (never passed_on)
  | inr on ↦ on
]

module _ (o : Outside) (k : Clock) (g : Gateway) (s : Session) where
  abbrev pub IsBypass : Type 0
  IsBypass =
      (g.auto_https ≡ true)
      × (is_plain_http s ≡ true)
      × (has_cert_for_host (if is_empty (request_host s) then codes "localhost" else request_host s)
            g.certs
          ≡ false)

  https_stage-IsBypass :
      https_stage g s ≡ pass
      → has_cert_for_host
          (if is_empty (request_host s) then codes "localhost" else request_host s)
          g.certs
        ≡ false
  unfolding https_stage
  https_stage-IsBypass e = ground (arith, e)

  https_stage-proceed : https_stage g s ≢ proceed
  unfolding https_stage
  https_stage-proceed e = ground (arith, e)

  or_next-pass : (f h : Flow) → f ≢ pass → or_next f h ≡ pass → h ≡ pass
  or_next-pass (answer a) h n e = ground (arith, e)
  or_next-pass pass h n e = absurd (n refl)
  or_next-pass proceed h n e = e

  or_next-proceed : (f h : Flow) → or_next f h ≡ proceed → h ≡ proceed
  or_next-proceed (answer a) h e = ground (arith, e)
  or_next-proceed pass h e = ground (arith, e)
  or_next-proceed proceed h e = e

  acme_for-pass : (store : Map Bytes) (rest : Option Bytes) → acme_for store rest ≢ pass
  unfolding acme_for token_answer
  acme_for-pass store none e = ground (arith, e)
  acme_for-pass store (some rest) e = ground (arith, e)

  acme_stage-pass : (store : Option (Map Bytes)) (path : Bytes) → acme_stage store path ≢ pass
  unfolding acme_stage
  acme_stage-pass none path e = ground (arith, e)
  acme_stage-pass (some store) path e =
      acme_for-pass store (strip_prefix (codes "/.well-known/acme-challenge/") path) e

  host_stage-pass : host_stage g s ≡ pass → IsBypass
  unfolding host_stage
  host_stage-pass e = ground (arith, e, https_stage-IsBypass)

  host_stage-proceed : host_stage g s ≡ proceed → refuses_host g (request_host s) ≡ false
  unfolding host_stage
  host_stage-proceed e = ground (arith, e, https_stage-proceed)

  pub early_stage-pass : early_stage g s ≡ pass → IsBypass
  unfolding early_stage
  early_stage-pass e = elim (Bool-cases (responds_health s.method s.path)) [
    | inl probe ↦ ground (arith, e, probe)
    | inr other ↦ host_stage-pass (
        or_next-pass (acme_stage g.http01 s.path) (host_stage g s) (acme_stage-pass g.http01 s.path)
          (rw other at e))
  ]

  pub early_stage-proceed : early_stage g s ≡ proceed → refuses_host g (request_host s) ≡ false
  unfolding early_stage
  early_stage-proceed e = elim (Bool-cases (responds_health s.method s.path)) [
    | inl probe ↦ ground (arith, e, probe)
    | inr other ↦
        host_stage-proceed
          (or_next-proceed (acme_stage g.http01 s.path) (host_stage g s) (rw other at e))
  ]

  pub rate_stage-proceed :
      (c : RequestCtx) (w : Shared)
      → (rate_stage o k g s (c, w)).0 ≡ proceed
      → (rate_limited k.wall
          (codes "rps|" ++ (ip_or_dash (client_ip o k g s) ++ (b'|' ∷ request_host s)))
          c.action.edge.rate_limit_rps
          w.windows).1
        ≡ false
  unfolding rate_stage
  rate_stage-proceed c w e = elim (Bool-cases (ltb 0 c.action.edge.rate_limit_rps)) [
    | inl limit ↦ ground (arith, e, limit)
    | inr free ↦ unlimited k.wall _ c.action.edge.rate_limit_rps w.windows free
  ]

  rate_stage-pass : (c : RequestCtx) (w : Shared) → (rate_stage o k g s (c, w)).0 ≢ pass
  unfolding rate_stage
  rate_stage-pass c w e = ground (arith, e)

  pub limits_stage-pass : (c : RequestCtx) (w : Shared) → (limits_stage o k g s (c, w)).0 ≢ pass
  unfolding limits_stage
  limits_stage-pass c w e = elim (Bool-cases (is_4xx_blocked o k g s c w)) [
    | inl many ↦ ground (arith, e, many)
    | inr few ↦ rate_stage-pass c w (rw few at e)
  ]

  rate_stage_keeps :
      (c : RequestCtx) (w : Shared)
      → ((rate_stage o k g s (c, w)).1.0 ≡ c) × ((rate_stage o k g s (c, w)).1.1.rates ≡ w.rates)
  unfolding rate_stage
  rate_stage_keeps c w = elim (Bool-cases (ltb 0 c.action.edge.rate_limit_rps)) [
    | inl limit ↦ rw limit (refl, refl)
    | inr free ↦ rw free (refl, refl)
  ]

  limits_few :
      (c : RequestCtx) (w : Shared)
      → is_4xx_blocked o k g s c w ≡ false
      → limits_stage o k g s (c, w) ≡ rate_stage o k g s (c, w)
  unfolding limits_stage
  limits_few c w few = rw (limits_stage, few) refl

  pub limits_stage-proceed :
      (c : RequestCtx) (w : Shared)
      → (limits_stage o k g s (c, w)).0 ≡ proceed
      → (is_4xx_blocked o k g s c w ≡ false)
        × ((rate_stage o k g s (c, w)).0 ≡ proceed)
        × ((limits_stage o k g s (c, w)).1.0 ≡ c)
        × ((limits_stage o k g s (c, w)).1.1.rates ≡ w.rates)
  unfolding limits_stage rate_stage
  limits_stage-proceed c w e = elim (Bool-cases (is_4xx_blocked o k g s c w)) [
    | inl many ↦ ground (arith, e, many)
    | inr few ↦
        let same = limits_few c w few in
        let (kept, rates) = rate_stage_keeps c w in
        (few, rw few at e, ap (λ x. x.1.0) same ∙ kept, ap (λ x. x.1.1.rates) same ∙ rates)
  ]
