-- ===== src/Security/Annotations/Surviving.antt =====
-- src/security/mod.rs: what of a policy survives its annotations.
use pertisk_proxy.Base.{
  ◌≤◌, ◌≡◌, refl, ap, sym, ◌∙◌, Bool, true, false, [], some, arith, if◌then◌else◌, Bytes, Map,
  lookup, HasDistinctKeys,
}
use pertisk_proxy.Text.{u32_max}
use pertisk_proxy.Security.Waf.{waf_normalized}
use pertisk_proxy.Security.Bot.{BotPolicy, bot_default, bot_normalized}
use pertisk_proxy.Security.Bot.Score.{bot_normalized-IsNormal, bot_normalized-id}
use pertisk_proxy.Security.Captcha.{CaptchaPolicy, captcha_default, captcha_normalized}
use pertisk_proxy.Security.Pipeline.{SecurityPolicy, security_normalized}
use pertisk_proxy.Security.Annotations.{
  flag, policy_read, apply_annotations, policy_from_annotations, exempt_key,
}
use pertisk_proxy.Security.Annotations.RoundTrip.{
  left, written_read, exempt_kept, applied_lookup, bot_left, captcha_left,
}

-- What is left of a policy.
pub surviving : SecurityPolicy → SecurityPolicy
surviving p = record {
  waf = record { enabled = p.waf.enabled; use_builtin_rules = p.waf.enabled; rules = [] };
  bot = if p.bot.enabled then bot_normalized p.bot else bot_default;
  captcha = if p.captcha.enabled then captcha_normalized p.captcha else captcha_default;
}

-- The numbers of the policy fit the words that they are read into.
pub record HasWords (p : SecurityPolicy) : Type 0 where
  pub challenge_word : p.bot.challenge_score ≤ u32_max
  pub block_word : p.bot.block_score ≤ u32_max
  pub rate_word : p.bot.rate_limit_per_min ≤ u32_max
  pub ttl_word : p.captcha.cookie_ttl_secs ≤ u32_max

normalized-HasWords : (p : SecurityPolicy) → HasWords p → HasWords (security_normalized p)
unfolding security_normalized bot_normalized captcha_normalized
normalized-HasWords p h = ground arith

left_normalized :
    (p : SecurityPolicy) (builtin : Bool) (w b c : Bool)
    → security_normalized (record {
      waf = record { enabled = w; use_builtin_rules = w; rules = [] };
      bot = if b then bot_normalized p.bot else bot_default;
      captcha = if c then captcha_normalized p.captcha else captcha_default;
    })
      ≡ record {
        waf = record { enabled = w; use_builtin_rules = w; rules = [] };
        bot = if b then bot_normalized p.bot else bot_default;
        captcha = if c then captcha_normalized p.captcha else captcha_default;
      }
unfolding security_normalized waf_normalized
left_normalized p builtin w b c = λ i. record {
  waf = record { enabled = w; use_builtin_rules = w; rules = [] };
  bot = bots b i;
  captcha = captchas c i;
}
  where
    bots :
        (b : Bool)
        → bot_normalized (if b then bot_normalized p.bot else bot_default)
          ≡ (if b then bot_normalized p.bot else bot_default)
    bots true = bot_normalized-id (bot_normalized p.bot) (bot_normalized-IsNormal p.bot)
    bots false = unfold bot_normalized in refl

    captchas :
        (c : Bool)
        → captcha_normalized (if c then captcha_normalized p.captcha else captcha_default)
          ≡ (if c then captcha_normalized p.captcha else captcha_default)
    captchas true = unfold captcha_normalized in ground arith
    captchas false = unfold captcha_normalized in refl

module _ (m : Map Bytes) (p : SecurityPolicy) (distinct : HasDistinctKeys m) where
  abbrev n : SecurityPolicy
  n = security_normalized p

  exempt_read : lookup exempt_key (apply_annotations m p) ≡ lookup exempt_key m
  exempt_read =
      applied_lookup m p exempt_key distinct
      ∙ exempt_kept n.waf.use_builtin_rules n.waf.rules n.bot.challenge_score n.bot.block_score
          n.bot.rate_limit_per_min n.captcha.cookie_ttl_secs n.waf.enabled n.bot.enabled
          n.captcha.enabled (lookup exempt_key m)

  abbrev left_of : SecurityPolicy
  left_of =
      left n.waf.use_builtin_rules n.waf.rules n.bot.challenge_score n.bot.block_score
        n.bot.rate_limit_per_min n.captcha.cookie_ttl_secs (λ j. lookup j m) n.waf.enabled
        n.bot.enabled n.captcha.enabled

  all_read : HasWords n → policy_read (λ j. lookup j (apply_annotations m p)) ≡ left_of
  all_read h =
      ap policy_read (λ i. λ j. applied_lookup m p j distinct i)
      ∙ written_read n.waf.use_builtin_rules n.waf.rules n.bot.challenge_score n.bot.block_score
          n.bot.rate_limit_per_min n.captcha.cookie_ttl_secs (λ j. lookup j m) n.waf.enabled
          n.bot.enabled n.captcha.enabled h.challenge_word h.block_word h.rate_word h.ttl_word

  left_of-surviving : left_of ≡ surviving p
  unfolding surviving security_normalized waf_normalized bot_normalized captcha_normalized
  left_of-surviving = λ i. record {
    waf = record { enabled = p.waf.enabled; use_builtin_rules = p.waf.enabled; rules = [] };
    bot = bots p.bot.enabled refl i;
    captcha = captchas p.captcha.enabled refl i;
  }
    where
      bot_of : Bool → BotPolicy
      bot_of b =
          bot_left n.waf.use_builtin_rules n.waf.rules n.bot.challenge_score n.bot.block_score
            n.bot.rate_limit_per_min n.captcha.cookie_ttl_secs b

      captcha_of : Bool → CaptchaPolicy
      captcha_of b =
          captcha_left n.waf.use_builtin_rules n.waf.rules n.bot.challenge_score n.bot.block_score
            n.bot.rate_limit_per_min n.captcha.cookie_ttl_secs b

      bots :
          (b : Bool)
          → p.bot.enabled ≡ b
          → left_of.bot ≡ (if b then bot_normalized p.bot else bot_default)
      bots true e = ap bot_of e ∙ (λ i. record {
        enabled = sym e i;
        challenge_score = n.bot.challenge_score;
        block_score = n.bot.block_score;
        rate_limit_per_min = n.bot.rate_limit_per_min;
      })
      bots false e = ap bot_of e

      captchas :
          (b : Bool)
          → p.captcha.enabled ≡ b
          → left_of.captcha ≡ (if b then captcha_normalized p.captcha else captcha_default)
      captchas true e =
          ap captcha_of e
          ∙ (λ i. record { enabled = sym e i; cookie_ttl_secs = n.captcha.cookie_ttl_secs })
      captchas false e = ap captcha_of e

-- A policy whose scores, rate limit and lifetime of the captcha cookie fit 32 bits (the source keeps the
-- lifetime in 64 bits), written to annotations of no key twice and without an exemption, is read back as
-- `surviving` of it: each part that is on is read back normalized, each part that is off as the default;
-- the built-in rules are on exactly when the WAF is, and the custom rules are lost.
pub policy_from_annotations-apply_annotations :
    (m : Map Bytes) (p : SecurityPolicy)
    → HasDistinctKeys m
    → flag (lookup exempt_key m) ≡ false
    → HasWords p
    → policy_from_annotations (some (apply_annotations m p)) ≡ surviving p
unfolding policy_from_annotations
policy_from_annotations-apply_annotations m p distinct free h =
    rw (exempt_read m p distinct, free)
      (ap security_normalized
          (all_read m p distinct (normalized-HasWords p h) ∙ left_of-surviving m p distinct)
        ∙ (unfold surviving in
            left_normalized p p.waf.enabled p.waf.enabled p.bot.enabled p.captcha.enabled))
