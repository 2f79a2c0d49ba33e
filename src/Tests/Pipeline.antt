-- ===== src/Tests/Pipeline.antt =====
-- Runs of src/security/mod.rs.
use pertisk_proxy.Base.{
  ◌≡◌, refl, true, false, [], ◌∷◌, none, some, Bytes, Map, arith, HasDistinctKeys, lookup, bytes_eq,
  has_key,
}
use pertisk_proxy.Text.{codes, to_lower, contains}
use pertisk_proxy.Security.Waf.{WafAction, WafHit, evaluate_waf, found_in}
use pertisk_proxy.Security.Captcha.{has_valid_pass_cookie}
use pertisk_proxy.Security.Pipeline.{SecurityPolicy, SecurityAction, evaluate}
use pertisk_proxy.Security.Pipeline.Laws.{evaluate_explained}
use pertisk_proxy.Security.Annotations.{
  flag, policy_from_annotations, apply_annotations, exempt_key,
}
use pertisk_proxy.Security.Annotations.Surviving.{
  surviving, HasWords, policy_from_annotations-apply_annotations,
}
use pertisk_proxy.Tests.Waf.{builtins, sneaky}
use pertisk_proxy.Tests.Captcha.{digest, as_hex}

abbrev guarded : SecurityPolicy
guarded = record {
  waf = builtins;
  bot = record { enabled = true; challenge_score = 10; block_score = 99; rate_limit_per_min = 500 };
  captcha = record { enabled = true; cookie_ttl_secs = 3600 };
}

abbrev sneaky_hit : WafHit
sneaky_hit = record { rule_id = codes "builtin-path-traversal"; action = WafAction.block }

sneaky_blocked : evaluate_waf builtins sneaky ≡ some sneaky_hit
unfolding evaluate_waf contains to_lower found_in
sneaky_blocked = refl

evaluate_explained_example :
    (((evaluate digest as_hex 5 1000 guarded sneaky []).1.action ≡ SecurityAction.challenge)
      → (true ≡ true) × (has_valid_pass_cookie digest as_hex 1000 none none ≡ false))
    × ((h : WafHit)
        → evaluate_waf builtins sneaky ≡ some h
        → (evaluate digest as_hex 5 1000 guarded sneaky []).1.action ≡ SecurityAction.allow
        → (true ≡ true) × (has_valid_pass_cookie digest as_hex 1000 none none ≡ true))
evaluate_explained_example = evaluate_explained digest as_hex 5 1000 guarded sneaky []

abbrev labels : Map Bytes
labels = (codes "team", codes "edge") ∷ (codes "proxy.pertisk.tech/waf-builtin", codes "on") ∷ []

labels-HasDistinctKeys : HasDistinctKeys labels
unfolding has_key bytes_eq
labels-HasDistinctKeys = (refl, (refl, tt))

not_exempt : flag (lookup exempt_key labels) ≡ false
unfolding flag lookup bytes_eq
not_exempt = refl

guarded-HasWords : HasWords guarded
guarded-HasWords = omega arith

policy_from_annotations-apply_annotations_example :
    policy_from_annotations (some (apply_annotations labels guarded)) ≡ surviving guarded
policy_from_annotations-apply_annotations_example =
    policy_from_annotations-apply_annotations labels guarded labels-HasDistinctKeys not_exempt
      guarded-HasWords
