-- ===== src/Security/Pipeline/Paths.antt =====
-- src/security/mod.rs: the four paths through `evaluate`, with what each returns.
use pertisk_proxy.Base.{
  ℕ, ◌≡◌, inl, inr, Bool, true, false, none, some, arith, Bytes, Map, Bool-cases, Option-cases,
}
use pertisk_proxy.Security.Request.{RequestView}
use pertisk_proxy.Security.Waf.{WafHit, evaluate_waf}
use pertisk_proxy.Security.Bot.{RateBucket}
use pertisk_proxy.Security.Captcha.{has_valid_pass_cookie}
use pertisk_proxy.Security.Pipeline.{
  off_decision, pass_decision, SecurityPolicy, SecurityDecision, bot_stage, after_waf, evaluate,
  security_is_active,
}

pub evaluate_waf_active :
    (policy : SecurityPolicy) (req : RequestView) (h : WafHit)
    → evaluate_waf policy.waf req ≡ some h
    → security_is_active policy ≡ true
unfolding evaluate_waf security_is_active
evaluate_waf_active policy req h e = ground arith

module _ (mac hex_encode : Bytes → Bytes) where
  -- The paths through `evaluate`, each with what it returns.
  pub data RouteTaken (now secs : ℕ) (policy : SecurityPolicy) (req : RequestView)
      (m : Map RateBucket) : Map RateBucket × SecurityDecision → Type 0 where
    off : security_is_active policy ≡ false → RouteTaken now secs policy req m (m, off_decision)
    hit :
        (h : WafHit)
        → evaluate_waf policy.waf req ≡ some h
        → RouteTaken now secs policy req m
            (after_waf mac hex_encode now secs policy req h.action h m)
    scored :
        evaluate_waf policy.waf req ≡ none
        → policy.bot.enabled ≡ true
        → RouteTaken now secs policy req m
            (bot_stage mac hex_encode now secs policy req none false m)
    passed :
        evaluate_waf policy.waf req ≡ none
        → policy.bot.enabled ≡ false
        → RouteTaken now secs policy req m (m, pass_decision)

  module _ (now secs : ℕ) (policy : SecurityPolicy) (req : RequestView) (m : Map RateBucket) where
    abbrev pub decide : Map RateBucket × SecurityDecision
    decide = evaluate mac hex_encode now secs policy req m

    abbrev cookie_ok : Bool
    cookie_ok = has_valid_pass_cookie mac hex_encode secs req.cookie req.client_ip

    pub evaluate_hit :
        (h : WafHit)
        → security_is_active policy ≡ true
        → evaluate_waf policy.waf req ≡ some h
        → decide ≡ after_waf mac hex_encode now secs policy req h.action h m
    unfolding evaluate
    evaluate_hit h active e = rw (active, evaluate) (rw e)

    evaluate_scored :
        security_is_active policy ≡ true
        → evaluate_waf policy.waf req ≡ none
        → policy.bot.enabled ≡ true
        → decide ≡ bot_stage mac hex_encode now secs policy req none false m
    unfolding evaluate
    evaluate_scored active e b = rw (active, evaluate) (rw e (rw b))

    evaluate_passed :
        security_is_active policy ≡ true
        → evaluate_waf policy.waf req ≡ none
        → policy.bot.enabled ≡ false
        → decide ≡ (m, pass_decision)
    unfolding evaluate
    evaluate_passed active e b = rw (active, evaluate) (rw e (rw b))

    evaluate_off : security_is_active policy ≡ false → decide ≡ (m, off_decision)
    unfolding evaluate
    evaluate_off h = rw (h, evaluate)

    pub evaluate-RouteTaken : RouteTaken now secs policy req m decide
    evaluate-RouteTaken = elim (Bool-cases (security_is_active policy)) [
      | inr idle ↦ rw (evaluate_off idle) (off idle)
      | inl active ↦ elim (Option-cases (evaluate_waf policy.waf req)) [
        | inr (h, e) ↦ rw (evaluate_hit h active e) (hit h e)
        | inl e ↦ elim (Bool-cases policy.bot.enabled) [
          | inl b ↦ rw (evaluate_scored active e b) (scored e b)
          | inr b ↦ rw (evaluate_passed active e b) (passed e b)
        ]
      ]
    ]
