-- ===== src/Security/Pipeline/Laws.antt =====
-- src/security/mod.rs: the decisions of `evaluate`.
use pertisk_proxy.Base.{
  ℕ, ◌≡◌, ◌⊎◌, inl, inr, refl, ap, subst, ◌∙◌, Bool, true, false, Option, none, some, arith, Bytes,
  Map, Bool-cases,
}
use pertisk_proxy.Security.Request.{RequestView}
use pertisk_proxy.Security.Waf.{WafAction, WafHit, evaluate_waf}
use pertisk_proxy.Security.Bot.{RateBucket, BotVerdict, score_bot}
use pertisk_proxy.Security.Captcha.{has_valid_pass_cookie}
use pertisk_proxy.Security.Pipeline.{
  hit_decision, SecurityPolicy, SecurityAction, SecurityDecision, resolve_challenge, bot_action,
  from_bot, bot_stage, after_waf, evaluate,
}
use pertisk_proxy.Text.{codes}
use pertisk_proxy.Security.Pipeline.Paths.{
  RouteTaken, off, hit, scored, passed, evaluate_hit, evaluate-RouteTaken, evaluate_waf_active,
}

module _ (mac hex_encode : Bytes → Bytes) where
  resolve_challenge_cases :
      (secs : ℕ) (policy : SecurityPolicy) (req : RequestView)
      → ((resolve_challenge mac hex_encode secs policy req ≡ SecurityAction.challenge)
          → (policy.captcha.enabled ≡ true)
            × (has_valid_pass_cookie mac hex_encode secs req.cookie req.client_ip ≡ false))
        × ((resolve_challenge mac hex_encode secs policy req ≡ SecurityAction.allow)
            → (policy.captcha.enabled ≡ true)
              × (has_valid_pass_cookie mac hex_encode secs req.cookie req.client_ip ≡ true))
  unfolding resolve_challenge
  resolve_challenge_cases secs policy req = (ground arith, ground arith)

  -- What a decision to challenge, and one to allow, say of the request.
  abbrev Explains : ℕ → SecurityPolicy → RequestView → SecurityAction → Type 0
  Explains secs policy req SecurityAction.challenge =
      (policy.captcha.enabled ≡ true)
      × (has_valid_pass_cookie mac hex_encode secs req.cookie req.client_ip ≡ false)
  Explains secs policy req SecurityAction.allow =
      (h : WafHit)
      → evaluate_waf policy.waf req ≡ some h
      → (policy.captcha.enabled ≡ true)
        × (has_valid_pass_cookie mac hex_encode secs req.cookie req.client_ip ≡ true)
  Explains secs policy req _ = Unit

  resolve_challenge-Explains :
      (secs : ℕ) (policy : SecurityPolicy) (req : RequestView)
      → Explains secs policy req (resolve_challenge mac hex_encode secs policy req)
  resolve_challenge-Explains secs policy req = go _ refl
    where
      go :
          (a : SecurityAction)
          → resolve_challenge mac hex_encode secs policy req ≡ a
          → Explains secs policy req a
      go SecurityAction.challenge e = (resolve_challenge_cases secs policy req).0 e
      go SecurityAction.allow e = λ h _. (resolve_challenge_cases secs policy req).1 e
      go SecurityAction.log e = tt
      go SecurityAction.block e = tt

  bot_action-Explains :
      (secs : ℕ) (policy : SecurityPolicy) (req : RequestView) (v : BotVerdict) (prefer_log : Bool)
      → (prefer_log ≡ true) ⊎ (evaluate_waf policy.waf req ≡ none)
      → Explains secs policy req (bot_action mac hex_encode secs policy req v prefer_log)
  unfolding bot_action
  bot_action-Explains secs policy req BotVerdict.allow true w = tt
  bot_action-Explains secs policy req BotVerdict.allow false w = λ h e. ground arith
  bot_action-Explains secs policy req BotVerdict.challenge prefer_log w =
      resolve_challenge-Explains secs policy req
  bot_action-Explains secs policy req BotVerdict.block prefer_log w = tt

  bot_stage-Explains :
      (now secs : ℕ) (policy : SecurityPolicy) (req : RequestView) (rule : Option Bytes)
      (prefer_log : Bool) (m : Map RateBucket)
      → (prefer_log ≡ true) ⊎ (evaluate_waf policy.waf req ≡ none)
      → Explains secs policy req
          (bot_stage mac hex_encode now secs policy req rule prefer_log m).1.action
  unfolding bot_stage from_bot
  bot_stage-Explains now secs policy req rule prefer_log m w =
      bot_action-Explains secs policy req (score_bot now policy.bot req m).1.verdict prefer_log w

  after_waf-Explains :
      (now secs : ℕ) (policy : SecurityPolicy) (req : RequestView) (a : WafAction) (h : WafHit)
      (m : Map RateBucket)
      → Explains secs policy req (after_waf mac hex_encode now secs policy req a h m).1.action
  unfolding after_waf
  after_waf-Explains now secs policy req WafAction.log h m = elim (Bool-cases policy.bot.enabled) [
    | inl b ↦ simp b (bot_stage-Explains now secs policy req (some h.rule_id) true m (inl refl))
    | inr b ↦ rw b tt
  ]
  after_waf-Explains now secs policy req WafAction.challenge h m =
      resolve_challenge-Explains secs policy req
  after_waf-Explains now secs policy req WafAction.block h m = tt

  RouteTaken-Explains :
      {now secs : ℕ} {policy : SecurityPolicy} {req : RequestView} {m : Map RateBucket}
      {x : Map RateBucket × SecurityDecision}
      → RouteTaken mac hex_encode now secs policy req m x
      → Explains secs policy req x.1.action
  RouteTaken-Explains {policy} {req} (off h) =
      λ w e. ground (arith, evaluate_waf_active policy req w e)
  RouteTaken-Explains {now} {secs} {policy} {req} {m} (hit h e) =
      after_waf-Explains now secs policy req h.action h m
  RouteTaken-Explains {now} {secs} {policy} {req} {m} (scored e b) =
      bot_stage-Explains now secs policy req none false m (inr e)
  RouteTaken-Explains (passed e b) = λ w k. cc

  -- A challenge is only asked for where captchas are on and the client has no valid pass cookie;
  -- and a request that hit a WAF rule is only allowed with captchas on and a valid cookie.
  pub evaluate_explained :
      (now secs : ℕ) (policy : SecurityPolicy) (req : RequestView) (m : Map RateBucket)
      → (((evaluate mac hex_encode now secs policy req m).1.action ≡ SecurityAction.challenge)
          → (policy.captcha.enabled ≡ true)
            × (has_valid_pass_cookie mac hex_encode secs req.cookie req.client_ip ≡ false))
        × ((h : WafHit)
            → evaluate_waf policy.waf req ≡ some h
            → (evaluate mac hex_encode now secs policy req m).1.action ≡ SecurityAction.allow
            → (policy.captcha.enabled ≡ true)
              × (has_valid_pass_cookie mac hex_encode secs req.cookie req.client_ip ≡ true))
  evaluate_explained now secs policy req m =
      let why = RouteTaken-Explains (evaluate-RouteTaken mac hex_encode now secs policy req m) in
      (
        λ e. subst (Explains secs policy req) e why,
        λ h hit e. subst (Explains secs policy req) e why h hit,
      )

  -- Where a blocking WAF rule hits, the decision is to block and names the rule, whatever the cookie,
  -- and the rate windows stay as they were.
  pub evaluate_block_hit :
      (now secs : ℕ) (policy : SecurityPolicy) (req : RequestView) (m : Map RateBucket) (h : WafHit)
      → evaluate_waf policy.waf req ≡ some h
      → h.action ≡ WafAction.block
      → ((evaluate mac hex_encode now secs policy req m).1.action ≡ SecurityAction.block)
        × ((evaluate mac hex_encode now secs policy req m).1.waf_rule ≡ some h.rule_id)
        × ((evaluate mac hex_encode now secs policy req m).0 ≡ m)
  unfolding after_waf
  evaluate_block_hit now secs policy req m h e b =
      let taken =
        evaluate_hit mac hex_encode now secs policy req m h (evaluate_waf_active policy req h e)
          e in
      let blocked : after_waf mac hex_encode now secs policy req h.action h m
          ≡ (m, hit_decision SecurityAction.block (codes "waf-block") h) =
        rw b in
      (
        ap (λ x. x.1.action) (taken ∙ blocked),
        ap (λ x. x.1.waf_rule) (taken ∙ blocked),
        ap (λ x. x.0) (taken ∙ blocked),
      )
