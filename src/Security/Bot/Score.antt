-- ===== src/Security/Bot/Score.antt =====
-- src/security/bot.rs: the score, the verdict and `normalized`.
use pertisk_proxy.Base.{ℕ, ◌≤◌, ◌<◌, ◌≡◌, ◌↔◌, Option, none, some, arith, Bytes, Map}
use pertisk_proxy.Security.Request.{RequestView}
use pertisk_proxy.Security.Bot.{
  BotPolicy, RateBucket, allow, challenge, block, bot_normalized, score_ua, score_missing,
  rate_points, score_rate, score_bot, verdict_of, present, record_rate,
}

score_ua-le : (ua : Option Bytes) → (score_ua ua).0 ≤ 45
unfolding score_ua
score_ua-le none = omega arith
score_ua-le (some ua) = ground arith

score_missing-le :
    (points : ℕ) (reason : Bytes) (o : Option Bytes) → (score_missing points reason o).0 ≤ points
unfolding score_missing
score_missing-le points reason none = omega arith
score_missing-le points reason (some s) = omega arith

rate_points-le : (over : ℕ) → (rate_points over).0 ≤ 65
unfolding rate_points
rate_points-le over = ground arith

score_rate-le :
    (now : ℕ) (policy : BotPolicy) (ip : Option Bytes) (m : Map RateBucket)
    → (score_rate now policy ip m).1.0 ≤ 65
unfolding score_rate
score_rate-le now policy none m = omega arith
score_rate-le now policy (some ip) m =
    rate_points-le (record_rate now ip policy.rate_limit_per_min m).1

-- The score of a request is at most 135, whatever the policy, the request and the rate windows.
pub score_bot_bound :
    (now : ℕ) (policy : BotPolicy) (req : RequestView) (m : Map RateBucket)
    → (score_bot now policy req m).1.score ≤ 135
unfolding score_bot
score_bot_bound now policy req m = omega (
  arith,
  score_ua-le (present req.user_agent),
  score_missing-le 15 _ (present req.accept),
  score_missing-le 10 _ (present req.accept_language),
  score_rate-le now policy (present req.client_ip) m,
)

-- What `normalized` establishes.
pub record IsNormal (p : BotPolicy) : Type 0 where
  pub challenge_pos : 0 < p.challenge_score
  pub ordered : p.challenge_score ≤ p.block_score
  pub rate_pos : 0 < p.rate_limit_per_min

-- A policy that is normalized has a challenge score and a rate limit above 0, and a block score that
-- is not below the challenge score.
pub bot_normalized-IsNormal : (p : BotPolicy) → IsNormal (bot_normalized p)
unfolding bot_normalized
bot_normalized-IsNormal p = ground arith

-- A policy that is normal is kept.
pub bot_normalized-id : (p : BotPolicy) → IsNormal p → bot_normalized p ≡ p
unfolding bot_normalized
bot_normalized-id p h = ground arith

-- With a normal policy a score below the challenge score is allowed, one from there to below the
-- block score is challenged, and one from the block score on is blocked.
pub verdict_iff :
    (policy : BotPolicy) (score : ℕ)
    → IsNormal policy
    → ((verdict_of policy score ≡ allow) ↔ (score < policy.challenge_score))
      × ((verdict_of policy score ≡ challenge)
          ↔ ((policy.challenge_score ≤ score) × (score < policy.block_score)))
      × ((verdict_of policy score ≡ block) ↔ (policy.block_score ≤ score))
unfolding verdict_of
verdict_iff policy score h = (ground arith, ground arith, ground arith)
