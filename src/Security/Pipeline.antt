-- ===== src/Security/Pipeline.antt =====
-- src/security/mod.rs: the policy of a site, and the pipeline WAF, bot score, challenge or block.
pub mod Paths
pub mod Laws
use pertisk_proxy.Base.{
  ℕ, Bool, true, false, ◌&&◌, ◌||◌, List, [], ◌∷◌, ◌++◌, Option, none, some, if◌then◌else◌, Bytes,
  Map,
}
use pertisk_proxy.Text.{codes}
use pertisk_proxy.Security.Request.{RequestView}
use pertisk_proxy.Security.Waf.{
  WafAction, WafPolicy, WafHit, waf_is_active, waf_is_default, waf_normalized, evaluate_waf,
}
use pertisk_proxy.Security.Bot.{
  BotPolicy, BotVerdict, BotScore, RateBucket, bot_is_default, bot_normalized, bot_default,
  score_bot,
}
use pertisk_proxy.Security.Captcha.{
  CaptchaPolicy, captcha_is_default, captcha_normalized, captcha_default, has_valid_pass_cookie,
}

pub record SecurityPolicy : Type 0 where
  pub waf : WafPolicy
  pub bot : BotPolicy
  pub captcha : CaptchaPolicy

abbrev pub waf_default : WafPolicy
waf_default = record { enabled = false; use_builtin_rules = false; rules = [] }

-- `SecurityPolicy::default`.
abbrev pub security_default : SecurityPolicy
security_default = record { waf = waf_default; bot = bot_default; captcha = captcha_default }

unfoldable pub security_is_active : SecurityPolicy → Bool
security_is_active p = waf_is_active p.waf || (p.bot.enabled || p.captcha.enabled)

unfoldable pub security_is_default : SecurityPolicy → Bool
security_is_default p =
    waf_is_default p.waf && (bot_is_default p.bot && captcha_is_default p.captcha)

unfoldable pub security_normalized : SecurityPolicy → SecurityPolicy
security_normalized p = record {
  waf = waf_normalized p.waf;
  bot = bot_normalized p.bot;
  captcha = captcha_normalized p.captcha;
}

pub data SecurityAction : Type 0 where
  allow log challenge block : SecurityAction

pub record SecurityDecision : Type 0 where
  pub action : SecurityAction
  pub reason : Bytes
  pub detail : Bytes
  pub bot_score : Option ℕ
  pub waf_rule : Option Bytes

-- `join(",")`.
unfoldable pub join_commas : List Bytes → Bytes
join_commas [] = []
join_commas (s ∷ []) = s
join_commas (s ∷ t ∷ ts) = s ++ (b',' ∷ join_commas (t ∷ ts))

abbrev pub off_decision : SecurityDecision
off_decision = record {
  action = SecurityAction.allow;
  reason = codes "off";
  detail = [];
  bot_score = none;
  waf_rule = none;
}

abbrev pub pass_decision : SecurityDecision
pass_decision = record off_decision { reason = codes "allow" }

abbrev pub hit_decision : SecurityAction → Bytes → WafHit → SecurityDecision
hit_decision action reason hit = record {
  action = action;
  reason = reason;
  detail = hit.rule_id;
  bot_score = none;
  waf_rule = some hit.rule_id;
}

module _ (mac hex_encode : Bytes → Bytes) where
  -- At the time `secs` of the wall clock.
  unfoldable pub resolve_challenge : ℕ → SecurityPolicy → RequestView → SecurityAction
  resolve_challenge secs policy req =
      if policy.captcha.enabled
        && has_valid_pass_cookie mac hex_encode secs req.cookie req.client_ip
      then SecurityAction.allow
      else if policy.captcha.enabled
      then SecurityAction.challenge
      else SecurityAction.block

  unfoldable pub bot_action : ℕ → SecurityPolicy → RequestView → BotVerdict → Bool → SecurityAction
  unfolding resolve_challenge
  bot_action secs policy req BotVerdict.allow prefer_log =
      if prefer_log then SecurityAction.log else SecurityAction.allow
  bot_action secs policy req BotVerdict.challenge prefer_log = resolve_challenge secs policy req
  bot_action secs policy req BotVerdict.block prefer_log = SecurityAction.block

  bot_reason : BotVerdict → Bool → Bytes
  bot_reason BotVerdict.allow prefer_log = if prefer_log then codes "waf-log" else codes "bot-allow"
  bot_reason BotVerdict.challenge prefer_log = codes "bot-challenge"
  bot_reason BotVerdict.block prefer_log = codes "bot-block"

  bot_detail : Bool → Option Bytes → List Bytes → Bytes
  unfolding join_commas
  bot_detail true (some rule) reasons = rule
  bot_detail true none reasons = join_commas reasons
  bot_detail false rule reasons = join_commas reasons

  unfoldable pub from_bot :
      ℕ → SecurityPolicy → RequestView → BotScore → Option Bytes → Bool → SecurityDecision
  unfolding bot_action bot_reason bot_detail
  from_bot secs policy req score waf_rule prefer_log = record {
    action = bot_action secs policy req score.verdict prefer_log;
    reason = bot_reason score.verdict prefer_log;
    detail = bot_detail prefer_log waf_rule score.reasons;
    bot_score = some score.score;
    waf_rule = waf_rule;
  }

  -- The score of the bot stage, with the windows that it leaves.
  unfoldable pub bot_stage :
      ℕ
      → ℕ
      → SecurityPolicy
      → RequestView
      → Option Bytes
      → Bool
      → Map RateBucket
      → Map RateBucket × SecurityDecision
  unfolding from_bot
  bot_stage now secs policy req waf_rule prefer_log m =
      let (m', score) = score_bot now policy.bot req m in
      (m', from_bot secs policy req score waf_rule prefer_log)

  unfoldable pub after_waf :
      ℕ
      → ℕ
      → SecurityPolicy
      → RequestView
      → WafAction
      → WafHit
      → Map RateBucket
      → Map RateBucket × SecurityDecision
  unfolding bot_stage resolve_challenge
  after_waf now secs policy req WafAction.log hit m =
      if policy.bot.enabled
      then bot_stage now secs policy req (some hit.rule_id) true m
      else (m, hit_decision SecurityAction.log (codes "waf-log") hit)
  after_waf now secs policy req WafAction.challenge hit m =
      (m, hit_decision (resolve_challenge secs policy req) (codes "waf-challenge") hit)
  after_waf now secs policy req WafAction.block hit m =
      (m, hit_decision SecurityAction.block (codes "waf-block") hit)

  -- `evaluate`, with the rate windows `m`: `now` is the monotonic clock of the windows, `secs` the
  -- wall clock of the cookies.
  unfoldable pub evaluate :
      ℕ → ℕ → SecurityPolicy → RequestView → Map RateBucket → Map RateBucket × SecurityDecision
  unfolding security_is_active after_waf bot_stage
  evaluate now secs policy req m =
      if security_is_active policy
      then (elim (evaluate_waf policy.waf req) [
        | some hit ↦ after_waf now secs policy req hit.action hit m
        | none ↦
            if policy.bot.enabled
            then bot_stage now secs policy req none false m
            else (m, pass_decision)
      ])
      else (m, off_decision)
