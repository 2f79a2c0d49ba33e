-- ===== src/Security/Annotations/RoundTrip.antt =====
-- src/security/mod.rs: what a reader finds in the map that `apply_annotations` leaves.
use pertisk_proxy.Base.{
  ℕ, ◌≤◌, ◌≡◌, refl, ap, sym, ◌∙◌, Bool, true, false, List, [], ◌∷◌, Option, none, some, arith,
  if◌then◌else◌, Bytes, Map, lookup, insert, remove, lookup-insert, lookup-remove,
  remove-HasDistinctKeys, HasDistinctKeys, bytes_eq, Bool-cases, inl, inr,
}
use pertisk_proxy.Text.{
  trim, trim-IsSolid, parse, print, parse-print, print-AreDigits, AreDigits-IsSolid, u32_max,
  to_lower,
}
use pertisk_proxy.Security.Waf.{WafRule, waf_is_default}
use pertisk_proxy.Security.Bot.{BotPolicy, bot_default, bot_is_default}
use pertisk_proxy.Security.Captcha.{CaptchaPolicy, captcha_default, captcha_is_default}
use pertisk_proxy.Security.Pipeline.{SecurityPolicy, security_is_default, security_normalized}
use pertisk_proxy.Security.Annotations.{
  remove_all, insert_all, parse_u32, flag, policy_read, policy_entries, annotation_keys,
  apply_annotations, exempt_key,
}

-- What a reader finds under `j` behind the insertions, where `o` was there.
abbrev pub over : Map Bytes → Bytes → Option Bytes → Option Bytes
over [] j o = o
over ((k, v) ∷ entries) j o = over entries j (if bytes_eq k j then some v else o)

lookup-insert_all :
    (entries : Map Bytes) (j : Bytes) (m : Map Bytes)
    → lookup j (insert_all entries m) ≡ over entries j (lookup j m)
unfolding insert_all
lookup-insert_all [] j m = refl
lookup-insert_all ((k, v) ∷ entries) j m =
    lookup-insert_all entries j (insert k v m) ∙ ap (over entries j) (lookup-insert k j v m)

abbrev pub without : List Bytes → Bytes → Option Bytes → Option Bytes
without [] j o = o
without (k ∷ ks) j o = without ks j (if bytes_eq k j then none else o)

lookup-remove_all :
    (ks : List Bytes) (j : Bytes) (m : Map Bytes)
    → HasDistinctKeys m
    → lookup j (remove_all ks m) ≡ without ks j (lookup j m)
unfolding remove_all
lookup-remove_all [] j m h = refl
lookup-remove_all (k ∷ ks) j m h =
    lookup-remove_all ks j (remove k m) (remove-HasDistinctKeys k m h)
    ∙ ap (without ks j) (lookup-remove k j m h)

parse_u32-print : (n default : ℕ) → n ≤ u32_max → parse_u32 (some (print n)) default ≡ n
unfolding parse_u32
parse_u32-print n default h =
    let solid = trim-IsSolid (print n) (AreDigits-IsSolid (print n) (print-AreDigits n)) in
    let read : parse u32_max (trim (print n)) ≡ some n =
      ap (parse u32_max) solid ∙ parse-print u32_max n h in
    ap (λ o. elim o [ none ↦ default | some k ↦ k ]) read

-- What a reader finds under `j` once the policy `p` is written, where `o` was there before.
abbrev pub found_after : SecurityPolicy → Bytes → Option Bytes → Option Bytes
found_after p j o = over (policy_entries p) j (without annotation_keys j o)

module _ (builtin : Bool) (rules : List WafRule) (challenge block rate ttl : ℕ) where
  abbrev pub written : Bool → Bool → Bool → SecurityPolicy
  written w b c = record {
    waf = record { enabled = w; use_builtin_rules = builtin; rules = rules };
    bot = record {
      enabled = b;
      challenge_score = challenge;
      block_score = block;
      rate_limit_per_min = rate;
    };
    captcha = record { enabled = c; cookie_ttl_secs = ttl };
  }

  abbrev pub bot_left : Bool → BotPolicy
  bot_left true = record {
    enabled = true;
    challenge_score = challenge;
    block_score = block;
    rate_limit_per_min = rate;
  }
  bot_left false = bot_default

  abbrev pub captcha_left : Bool → CaptchaPolicy
  captcha_left true = record { enabled = true; cookie_ttl_secs = ttl }
  captcha_left false = captcha_default

  bot_absent :
      record {
        enabled = false;
        challenge_score = parse_u32 none 40;
        block_score = parse_u32 none 80;
        rate_limit_per_min = parse_u32 none 120;
      }
      ≡ bot_left false
  unfolding parse_u32
  bot_absent = refl

  captcha_printed :
      ttl ≤ u32_max
      → record { enabled = true; cookie_ttl_secs = parse_u32 (some (print ttl)) 86400 }
        ≡ captcha_left true
  captcha_printed h = rw (parse_u32-print ttl 86400 h) refl

  captcha_absent :
      record { enabled = false; cookie_ttl_secs = parse_u32 none 86400 } ≡ captcha_left false
  unfolding parse_u32
  captcha_absent = refl

  -- The key of an exemption is none of those that are written.
  pub exempt_kept : (w b c : Bool) (o : Option Bytes) → found_after (written w b c) exempt_key o ≡ o
  unfolding bytes_eq
  exempt_kept true true true o = refl
  exempt_kept true true false o = refl
  exempt_kept true false true o = refl
  exempt_kept true false false o = refl
  exempt_kept false true true o = refl
  exempt_kept false true false o = refl
  exempt_kept false false true o = refl
  exempt_kept false false false o = refl

  module _ (old : Bytes → Option Bytes) where
    waf_read :
        (w b c : Bool)
        → (policy_read (λ j. found_after (written w b c) j (old j))).waf
          ≡ record { enabled = w; use_builtin_rules = w; rules = [] }
    unfolding policy_read flag bytes_eq to_lower trim
    waf_read true true true = refl
    waf_read true true false = refl
    waf_read true false true = refl
    waf_read true false false = refl
    waf_read false true true = refl
    waf_read false true false = refl
    waf_read false false true = refl
    waf_read false false false = refl

    bot_printed :
        challenge ≤ u32_max
        → block ≤ u32_max
        → rate ≤ u32_max
        → record {
          enabled = true;
          challenge_score = parse_u32 (some (print challenge)) 40;
          block_score = parse_u32 (some (print block)) 80;
          rate_limit_per_min = parse_u32 (some (print rate)) 120;
        }
          ≡ bot_left true
    bot_printed h k l =
        rw (parse_u32-print challenge 40 h, parse_u32-print block 80 k, parse_u32-print rate 120 l)
          refl

    bot_read :
        (w b c : Bool)
        → challenge ≤ u32_max
        → block ≤ u32_max
        → rate ≤ u32_max
        → (policy_read (λ j. found_after (written w b c) j (old j))).bot ≡ bot_left b
    unfolding policy_read flag bytes_eq to_lower trim
    bot_read true true true h k l = bot_printed h k l
    bot_read true true false h k l = bot_printed h k l
    bot_read false true true h k l = bot_printed h k l
    bot_read false true false h k l = bot_printed h k l
    bot_read true false true h k l = bot_absent
    bot_read true false false h k l = bot_absent
    bot_read false false true h k l = bot_absent
    bot_read false false false h k l = bot_absent

    captcha_read :
        (w b c : Bool)
        → ttl ≤ u32_max
        → (policy_read (λ j. found_after (written w b c) j (old j))).captcha ≡ captcha_left c
    unfolding policy_read flag bytes_eq to_lower trim
    captcha_read true true true h = captcha_printed h
    captcha_read true false true h = captcha_printed h
    captcha_read false true true h = captcha_printed h
    captcha_read false false true h = captcha_printed h
    captcha_read true true false h = captcha_absent
    captcha_read true false false h = captcha_absent
    captcha_read false true false h = captcha_absent
    captcha_read false false false h = captcha_absent

    abbrev pub left : Bool → Bool → Bool → SecurityPolicy
    left w b c = record {
      waf = record { enabled = w; use_builtin_rules = w; rules = [] };
      bot = bot_left b;
      captcha = captcha_left c;
    }

    pub written_read :
        (w b c : Bool)
        → challenge ≤ u32_max
        → block ≤ u32_max
        → rate ≤ u32_max
        → ttl ≤ u32_max
        → policy_read (λ j. found_after (written w b c) j (old j)) ≡ left w b c
    written_read w b c h k l t = λ i. record {
      waf = waf_read w b c i;
      bot = bot_read w b c h k l i;
      captcha = captcha_read w b c t i;
    }

-- A policy that is the default writes nothing.
default-entries : (p : SecurityPolicy) → security_is_default p ≡ true → policy_entries p ≡ []
unfolding security_is_default waf_is_default bot_is_default captcha_is_default
default-entries p h =
    let waf_off : p.waf.enabled ≡ false = ground arith in
    let bot_off : p.bot.enabled ≡ false = ground arith in
    let captcha_off : p.captcha.enabled ≡ false = ground arith in
    rw (waf_off, bot_off, captcha_off) refl

applied_default :
    (m : Map Bytes) (p : SecurityPolicy)
    → security_is_default (security_normalized p) ≡ true
    → apply_annotations m p ≡ remove_all annotation_keys m
unfolding apply_annotations
applied_default m p h = rw h refl

applied_other :
    (m : Map Bytes) (p : SecurityPolicy)
    → security_is_default (security_normalized p) ≡ false
    → apply_annotations m p
      ≡ insert_all (policy_entries (security_normalized p)) (remove_all annotation_keys m)
unfolding apply_annotations
applied_other m p h = rw h refl

pub applied_lookup :
    (m : Map Bytes) (p : SecurityPolicy) (j : Bytes)
    → HasDistinctKeys m
    → lookup j (apply_annotations m p) ≡ found_after (security_normalized p) j (lookup j m)
applied_lookup m p j h = elim (Bool-cases (security_is_default (security_normalized p))) [
  | inl off ↦
      ap (lookup j) (applied_default m p off)
      ∙ lookup-remove_all annotation_keys j m h
      ∙ ap (λ es. over es j (without annotation_keys j (lookup j m)))
          (sym (default-entries (security_normalized p) off))
  | inr on ↦
      ap (lookup j) (applied_other m p on)
      ∙ lookup-insert_all (policy_entries (security_normalized p)) j (remove_all annotation_keys m)
      ∙ ap (over (policy_entries (security_normalized p)) j)
          (lookup-remove_all annotation_keys j m h)
]
