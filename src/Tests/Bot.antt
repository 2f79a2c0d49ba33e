-- ===== src/Tests/Bot.antt =====
-- Runs of src/security/bot.rs.
use pertisk_proxy.Base.{
  ◌+◌, ◌-◌, ◌≤◌, ◌≡◌, refl, true, [], ◌∷◌, none, some, Bytes, List, arith, inl, lookup, bytes_eq,
}
use pertisk_proxy.Text.{codes, trim}
use pertisk_proxy.Security.Request.{RequestView}
use pertisk_proxy.Security.Bot.{BotPolicy, BotVerdict, score_bot, record_rate, prune}
use pertisk_proxy.Security.Bot.Score.{score_bot_bound, IsNormal}
use pertisk_proxy.Security.Bot.Rate.{Visit, run_visits, after_visit, visits_of, record_rate_window}

abbrev quiet : RequestView
quiet = record {
  method = codes "GET";
  path = codes "/";
  query = [];
  user_agent = none;
  accept = some (codes "*/*");
  accept_language = some (codes "en");
  cookie = none;
  client_ip = some (codes "9.9.9.9");
}

abbrev relaxed : BotPolicy
relaxed = record {
  enabled = true;
  challenge_score = 40;
  block_score = 80;
  rate_limit_per_min = 10000;
}

missing_ua_challenges : (score_bot 0 relaxed quiet []).1.verdict ≡ BotVerdict.challenge
unfolding score_bot trim lookup
missing_ua_challenges = refl

score_bot_bound_example : (score_bot 0 relaxed quiet []).1.score ≤ 135
score_bot_bound_example = score_bot_bound 0 relaxed quiet []

relaxed-IsNormal : IsNormal relaxed
relaxed-IsNormal = omega arith

abbrev someone : Bytes
someone = codes "1.1.1.1"

abbrev traffic : List Visit
traffic = (5, someone, 2) ∷ (6, codes "2.2.2.2", 2) ∷ (7, someone, 2) ∷ []

no_window : lookup someone (prune 4 []) ≡ none
unfolding lookup prune
no_window = refl

few_visits : visits_of someone traffic + 2 ≤ 4294967295
unfolding visits_of bytes_eq
few_visits = omega arith

record_rate_window_example :
    (record_rate 9 someone 2 (run_visits traffic (after_visit (4, someone, 2) []))).1
    ≡ visits_of someone traffic + 2 - 2
record_rate_window_example =
    record_rate_window 4 9 2 2 someone traffic [] (inl no_window) (omega arith) (omega arith)
      few_visits
