-- ===== src/Security/Annotations.antt =====
-- src/security/mod.rs: the policy as annotations of a Kubernetes object. The map is a `BTreeMap`.
pub mod RoundTrip
pub mod Surviving
use pertisk_proxy.Base.{
  ℕ, Bool, true, false, not, ◌||◌, List, [], ◌∷◌, ◌++◌, Option, none, some, if◌then◌else◌, Bytes,
  Map, bytes_eq, lookup, insert, remove, any,
}
use pertisk_proxy.Text.{codes, trim, to_lower, parse, print, u32_max}
use pertisk_proxy.Security.Waf.{WafPolicy}
use pertisk_proxy.Security.Bot.{BotPolicy}
use pertisk_proxy.Security.Captcha.{CaptchaPolicy}
use pertisk_proxy.Security.Pipeline.{
  SecurityPolicy, security_default, security_is_default, security_normalized,
}

abbrev pub waf_enabled_key : Bytes
waf_enabled_key = codes "proxy.pertisk.tech/waf-enabled"

abbrev pub waf_builtin_key : Bytes
waf_builtin_key = codes "proxy.pertisk.tech/waf-builtin"

abbrev pub bot_enabled_key : Bytes
bot_enabled_key = codes "proxy.pertisk.tech/bot-enabled"

abbrev pub challenge_score_key : Bytes
challenge_score_key = codes "proxy.pertisk.tech/bot-challenge-score"

abbrev pub block_score_key : Bytes
block_score_key = codes "proxy.pertisk.tech/bot-block-score"

abbrev pub rate_limit_key : Bytes
rate_limit_key = codes "proxy.pertisk.tech/bot-rate-limit"

abbrev pub captcha_enabled_key : Bytes
captcha_enabled_key = codes "proxy.pertisk.tech/captcha-enabled"

abbrev pub captcha_ttl_key : Bytes
captcha_ttl_key = codes "proxy.pertisk.tech/captcha-ttl-secs"

abbrev pub exempt_key : Bytes
exempt_key = codes "proxy.pertisk.tech/security-exempt"

-- `ANNOTATION_KEYS`.
abbrev pub annotation_keys : List Bytes
annotation_keys =
    waf_enabled_key ∷ waf_builtin_key ∷ bot_enabled_key ∷ challenge_score_key ∷ block_score_key
    ∷ rate_limit_key ∷ captcha_enabled_key ∷ captcha_ttl_key ∷ []

-- The closure `flag`, on what the map holds.
unfoldable pub flag : Option Bytes → Bool
flag none = false
flag (some v) =
    any (bytes_eq (to_lower (trim v))) (codes "1" ∷ codes "true" ∷ codes "yes" ∷ codes "on" ∷ [])

-- The closure `parse_u32`.
unfoldable pub parse_u32 : Option Bytes → ℕ → ℕ
parse_u32 none default = default
parse_u32 (some v) default = elim (parse u32_max (trim v)) [ none ↦ default | some n ↦ n ]

-- The policy that the annotations say, before it is normalized.
unfoldable pub policy_read : (Bytes → Option Bytes) → SecurityPolicy
unfolding flag parse_u32
policy_read get = record {
  waf = record {
    enabled = flag (get waf_enabled_key);
    use_builtin_rules = flag (get waf_enabled_key) || flag (get waf_builtin_key);
    rules = [];
  };
  bot = record {
    enabled = flag (get bot_enabled_key);
    challenge_score = parse_u32 (get challenge_score_key) 40;
    block_score = parse_u32 (get block_score_key) 80;
    rate_limit_per_min = parse_u32 (get rate_limit_key) 120;
  };
  captcha = record {
    enabled = flag (get captcha_enabled_key);
    cookie_ttl_secs = parse_u32 (get captcha_ttl_key) 86400;
  };
}

unfoldable pub policy_from_annotations : Option (Map Bytes) → SecurityPolicy
unfolding policy_read flag
policy_from_annotations none = security_default
policy_from_annotations (some m) =
    if flag (lookup exempt_key m)
    then security_default
    else security_normalized (policy_read (λ key. lookup key m))

unfoldable pub remove_all : List Bytes → Map Bytes → Map Bytes
remove_all [] m = m
remove_all (k ∷ ks) m = remove_all ks (remove k m)

-- One insertion after the other.
unfoldable pub insert_all : Map Bytes → Map Bytes → Map Bytes
insert_all [] m = m
insert_all ((k, v) ∷ entries) m = insert_all entries (insert k v m)

abbrev pub waf_entries : WafPolicy → Map Bytes
waf_entries p =
    if p.enabled
    then (waf_enabled_key, codes "true")
      ∷ (waf_builtin_key, if p.use_builtin_rules then codes "true" else codes "false")
      ∷ []
    else []

abbrev pub bot_entries : BotPolicy → Map Bytes
bot_entries p =
    if p.enabled
    then (bot_enabled_key, codes "true")
      ∷ (challenge_score_key, print p.challenge_score)
      ∷ (block_score_key, print p.block_score)
      ∷ (rate_limit_key, print p.rate_limit_per_min)
      ∷ []
    else []

abbrev pub captcha_entries : CaptchaPolicy → Map Bytes
captcha_entries p =
    if p.enabled
    then (captcha_enabled_key, codes "true") ∷ (captcha_ttl_key, print p.cookie_ttl_secs) ∷ []
    else []

-- What is inserted for a policy that is normalized and not the default.
abbrev pub policy_entries : SecurityPolicy → Map Bytes
policy_entries p = waf_entries p.waf ++ (bot_entries p.bot ++ captcha_entries p.captcha)

unfoldable pub apply_annotations : Map Bytes → SecurityPolicy → Map Bytes
unfolding remove_all insert_all
apply_annotations m policy =
    let cleared = remove_all annotation_keys m in
    let p = security_normalized policy in
    if security_is_default p then cleared else insert_all (policy_entries p) cleared
