-- ===== src/Security/Bot.antt =====
-- src/security/bot.rs: the bot policy, the per-address rate windows and the score.
pub mod Rate
pub mod Score
use pertisk_proxy.Base.{
  ℕ, ◌+◌, ◌-◌, ◌/◌, Bool, true, false, not, ◌&&◌, ◌||◌, List, [], ◌∷◌, ◌++◌, Option, none, some,
  ◌==◌, ltb, leb, min, if◌then◌else◌, Bytes, Map, lookup, insert, any, keep, is_empty, length,
}
use pertisk_proxy.Text.{codes, to_lower, contains, trim, u32_max}
use pertisk_proxy.Security.Request.{RequestView}

pub record BotPolicy : Type 0 where
  pub enabled : Bool
  pub challenge_score : ℕ
  pub block_score : ℕ
  pub rate_limit_per_min : ℕ

abbrev pub default_challenge_score : ℕ
default_challenge_score = 40

abbrev pub default_block_score : ℕ
default_block_score = 80

abbrev pub default_rate_limit : ℕ
default_rate_limit = 120

-- `BotPolicy::default`.
abbrev pub bot_default : BotPolicy
bot_default = record {
  enabled = false;
  challenge_score = default_challenge_score;
  block_score = default_block_score;
  rate_limit_per_min = default_rate_limit;
}

-- `BotPolicy::is_default`.
unfoldable pub bot_is_default : BotPolicy → Bool
bot_is_default p =
    not p.enabled
    && (p.challenge_score == default_challenge_score
        && (p.block_score == default_block_score && p.rate_limit_per_min == default_rate_limit))

-- `BotPolicy::normalized`.
unfoldable pub bot_normalized : BotPolicy → BotPolicy
bot_normalized p =
    let challenge : ℕ =
      if p.challenge_score == 0 then default_challenge_score else p.challenge_score in
    let block : ℕ = if p.block_score == 0 then default_block_score else p.block_score in
    record p {
      challenge_score = challenge;
      block_score = if ltb block challenge then challenge else block;
      rate_limit_per_min =
          if p.rate_limit_per_min == 0 then default_rate_limit else p.rate_limit_per_min;
    }

pub data BotVerdict : Type 0 where
  allow challenge block : BotVerdict

pub record BotScore : Type 0 where
  pub score : ℕ
  pub verdict : BotVerdict
  pub reasons : List Bytes

unfoldable pub automation_ua : List Bytes
automation_ua =
    codes "curl/"
    ∷ codes "wget/"
    ∷ codes "python-requests"
    ∷ codes "python-urllib"
    ∷ codes "go-http-client"
    ∷ codes "scrapy"
    ∷ codes "httpclient"
    ∷ codes "libwww-perl"
    ∷ codes "java/"
    ∷ codes "okhttp"
    ∷ codes "headlesschrome"
    ∷ codes "phantomjs"
    ∷ []

-- Instants are nanoseconds of a clock that never runs back.
pub record RateBucket : Type 0 where
  pub window_start : ℕ
  pub count : ℕ

abbrev pub minute : ℕ
minute = 60_000_000_000

-- The prune of a map above 10,000 entries: what is older than two minutes goes.
unfoldable pub prune : ℕ → Map RateBucket → Map RateBucket
prune now m =
    if ltb 10000 (length m) then keep (λ e. ltb (now - e.1.window_start) (minute + minute)) m else m

abbrev bucket_or_new : ℕ → Option RateBucket → RateBucket
bucket_or_new now none = record { window_start = now; count = 0 }
bucket_or_new now (some b) = b

-- A window that has run for a minute starts again.
unfoldable pub roll : ℕ → RateBucket → RateBucket
roll now b =
    if leb minute (now - b.window_start) then record { window_start = now; count = 0 } else b

abbrev count_one : RateBucket → RateBucket
count_one b = record b { count = min (b.count + 1) u32_max }

-- `record_rate`: the map with the request counted, and by how much the count is over the limit.
unfoldable pub record_rate : ℕ → Bytes → ℕ → Map RateBucket → Map RateBucket × ℕ
unfolding prune roll
record_rate now ip limit m =
    let pruned = prune now m in
    let entry = count_one (roll now (bucket_or_new now (lookup ip pruned))) in
    (insert ip entry pruned, if ltb limit entry.count then entry.count - limit else 0)

-- `map(str::trim).filter(|s| !s.is_empty())`.
unfoldable pub present : Option Bytes → Option Bytes
present none = none
present (some s) = if is_empty (trim s) then none else some (trim s)

-- The signals of the user agent.
unfoldable pub score_ua : Option Bytes → ℕ × List Bytes
unfolding automation_ua
score_ua none = (45, codes "missing-ua" ∷ [])
score_ua (some ua) =
    let ua_l = to_lower ua in
    let automated = any (λ p. contains p ua_l) automation_ua in
    let short = ltb (length ua_l) 12 in
    (
      (if automated then 30 else 0) + (if short then 15 else 0),
      (if automated then codes "automation-ua" ∷ [] else [])
          ++ (if short then codes "short-ua" ∷ [] else []),
    )

unfoldable pub score_missing : ℕ → Bytes → Option Bytes → ℕ × List Bytes
score_missing points reason none = (points, reason ∷ [])
score_missing points reason (some s) = (0, [])

-- What an address over its rate adds: `25u32.saturating_add((over / 10).min(40))`.
unfoldable pub rate_points : ℕ → ℕ × List Bytes
rate_points over =
    if ltb 0 over then (min (25 + min (over / 10) 40) u32_max, codes "rate" ∷ []) else (0, [])

unfoldable pub score_rate :
    ℕ → BotPolicy → Option Bytes → Map RateBucket → Map RateBucket × (ℕ × List Bytes)
unfolding record_rate rate_points
score_rate now policy none m = (m, (0, []))
score_rate now policy (some ip) m =
    let (m', over) = record_rate now ip policy.rate_limit_per_min m in (m', rate_points over)

unfoldable pub verdict_of : BotPolicy → ℕ → BotVerdict
verdict_of policy score =
    if leb policy.block_score score
    then block
    else if leb policy.challenge_score score
    then challenge
    else allow

-- `score_bot`, at the time `now` and with the rate windows `m`.
unfoldable pub score_bot : ℕ → BotPolicy → RequestView → Map RateBucket → Map RateBucket × BotScore
unfolding score_ua score_missing score_rate verdict_of present
score_bot now policy req m =
    let ua = score_ua (present req.user_agent) in
    let accept = score_missing 15 (codes "missing-accept") (present req.accept) in
    let language =
      score_missing 10 (codes "missing-accept-language") (present req.accept_language) in
    let rate = score_rate now policy (present req.client_ip) m in
    let score = ua.0 + accept.0 + language.0 + rate.1.0 in
    (
      rate.0,
      record {
        score = score;
        verdict = verdict_of policy score;
        reasons = ua.1 ++ (accept.1 ++ (language.1 ++ rate.1.1));
      },
    )
