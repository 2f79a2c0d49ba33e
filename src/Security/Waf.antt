-- ===== src/Security/Waf.antt =====
-- src/security/waf.rs: WAF rules, the built-in signatures, percent decoding and rule matching.
pub mod Decode
pub mod Laws
use pertisk_proxy.Base.{
  ℕ, ◌+◌, ◌-◌, ◌*◌, Bool, true, false, not, ◌&&◌, ◌||◌, List, [], ◌∷◌, ◌++◌, map, Option, none,
  some, ◌==◌, leb, if◌then◌else◌, Bytes, bytes_eq, any, all, find, keep, is_empty,
}
use mathlib.Core.Option
use pertisk_proxy.Text.{codes, to_lower, to_upper, contains, trim, from_utf8_lossy}
use pertisk_proxy.Security.Request.{RequestView}

pub data WafAction : Type 0 where
  block log challenge : WafAction

pub record WafRule : Type 0 where
  pub id : Bytes
  pub enabled : Bool
  pub action : WafAction
  pub methods : List Bytes
  pub path_contains : Option Bytes
  pub query_contains : Option Bytes
  pub ua_contains : Option Bytes

pub record WafPolicy : Type 0 where
  pub enabled : Bool
  pub use_builtin_rules : Bool
  pub rules : List WafRule

pub record WafHit : Type 0 where
  pub rule_id : Bytes
  pub action : WafAction

-- `WafPolicy::is_active`.
unfoldable pub waf_is_active : WafPolicy → Bool
waf_is_active p = p.enabled && (p.use_builtin_rules || any (λ r. r.enabled) p.rules)

-- `WafPolicy::is_default`.
unfoldable pub waf_is_default : WafPolicy → Bool
waf_is_default p = not p.enabled && (not p.use_builtin_rules && is_empty p.rules)

normalize_rule : WafRule → WafRule
unfolding trim to_upper
normalize_rule r = record r {
  id = trim r.id;
  methods = keep (λ m. not (is_empty m)) (map (λ m. to_upper (trim m)) r.methods);
  path_contains = Option.map trim r.path_contains;
  query_contains = Option.map trim r.query_contains;
  ua_contains = Option.map trim r.ua_contains;
}

-- `WafPolicy::normalized`.
unfoldable pub waf_normalized : WafPolicy → WafPolicy
unfolding normalize_rule
waf_normalized p = record p { rules = keep (λ r. not (is_empty r.id)) (map normalize_rule p.rules) }

abbrev path_rule : Bytes → Bytes → WafRule
path_rule id needle = record {
  id = id;
  enabled = true;
  action = block;
  methods = [];
  path_contains = some needle;
  query_contains = none;
  ua_contains = none;
}

abbrev query_rule : Bytes → Bytes → WafRule
query_rule id needle = record {
  id = id;
  enabled = true;
  action = block;
  methods = [];
  path_contains = none;
  query_contains = some needle;
  ua_contains = none;
}

unfoldable pub builtin_rules : List WafRule
builtin_rules =
    path_rule (codes "builtin-path-traversal") (codes "../")
    ∷ path_rule (codes "builtin-path-traversal-encoded") (codes "..%2f")
    ∷ path_rule (codes "builtin-null-byte-path") (codes "%00")
    ∷ query_rule (codes "builtin-null-byte-query") (codes "%00")
    ∷ query_rule (codes "builtin-sqli-union") (codes "union select")
    ∷ query_rule (codes "builtin-sqli-or") (codes "' or ")
    ∷ query_rule (codes "builtin-xss-script") (codes "<script")
    ∷ []

unfoldable pub contains_ci : Bytes → Bytes → Bool
contains_ci haystack needle =
    not (is_empty needle) && contains (to_lower needle) (to_lower haystack)

unfoldable pub from_hex : ℕ → Option ℕ
from_hex b =
    if leb b'0' b && leb b b'9'
    then some (b - b'0')
    else if leb b'a' b && leb b b'f'
    then some (b - b'a' + 10)
    else if leb b'A' b && leb b b'F'
    then some (b - b'A' + 10)
    else none

-- The byte that two hex digits spell; `(a << 4) | b` is `a * 16 + b`, since `b < 16`.
unfoldable pub hex_pair : ℕ → ℕ → Option ℕ
unfolding from_hex
hex_pair h1 h2 = elim (from_hex h1) [
  | none ↦ none
  | some a ↦ elim (from_hex h2) [ none ↦ none | some b ↦ some (a * 16 + b) ]
]

abbrev plus_to_space : ℕ → ℕ
plus_to_space c = if c == b'+' then b' ' else c

-- The loop of `percent_decode_lossy`: an escape is read only with two bytes behind the `%`.
unfoldable pub percent_decode : Bytes → Bytes
unfolding hex_pair
percent_decode [] = []
percent_decode (c ∷ []) = plus_to_space c ∷ []
percent_decode (c ∷ d ∷ []) = plus_to_space c ∷ percent_decode (d ∷ [])
percent_decode (c ∷ h1 ∷ h2 ∷ s) =
    let behind = percent_decode s in
    let next = percent_decode (h1 ∷ h2 ∷ s) in
    if c == b'+'
    then b' ' ∷ next
    else if c == b'%'
    then (elim (hex_pair h1 h2) [ none ↦ c ∷ next | some v ↦ v ∷ behind ])
    else c ∷ next

unfoldable pub percent_decode_lossy : Bytes → Bytes
unfolding percent_decode from_utf8_lossy
percent_decode_lossy input = from_utf8_lossy (percent_decode input)

-- A needle that is set and not empty.
abbrev pub needle_of : Option Bytes → Option Bytes
needle_of none = none
needle_of (some s) = if is_empty s then none else some s

abbrev is_set : Option Bytes → Bool
is_set none = false
is_set (some s) = true

-- A needle for the path or the query is looked for in the raw and in the decoded text.
unfoldable pub found_in : Option Bytes → Bytes → Bool
unfolding contains_ci percent_decode_lossy
found_in none text = false
found_in (some needle) text =
    contains_ci text needle || contains_ci (percent_decode_lossy text) needle

unfoldable pub found_in_ua : Option Bytes → Option Bytes → Bool
unfolding contains_ci
found_in_ua none ua = false
found_in_ua (some needle) none = contains_ci [] needle
found_in_ua (some needle) (some ua) = contains_ci ua needle

unfoldable pub method_allowed : WafRule → RequestView → Bool
unfolding to_upper
method_allowed rule req =
    is_empty rule.methods || any (λ m. bytes_eq m (to_upper req.method)) rule.methods

unfoldable pub rule_matches : WafRule → RequestView → Bool
unfolding method_allowed
rule_matches rule req =
    let path = needle_of rule.path_contains in
    let query = needle_of rule.query_contains in
    let ua = needle_of rule.ua_contains in
    let any_constraint = is_set path || (is_set query || is_set ua) in
    let matched =
      found_in path req.path || (found_in query req.query || found_in_ua ua req.user_agent) in
    if not (method_allowed rule req) then false else any_constraint && matched

abbrev pub hit_of : WafRule → WafHit
hit_of rule = record { rule_id = rule.id; action = rule.action }

-- The first enabled rule that matches.
unfoldable pub first_hit : List WafRule → RequestView → Option WafHit
unfolding rule_matches
first_hit [] req = none
first_hit (r ∷ rs) req =
    if r.enabled && rule_matches r req then some (hit_of r) else first_hit rs req

unfoldable pub evaluate_waf : WafPolicy → RequestView → Option WafHit
unfolding waf_is_active first_hit builtin_rules
evaluate_waf policy req =
    if not (waf_is_active policy) then none else elim (first_hit policy.rules req) [
      | some hit ↦ some hit
      | none ↦ if policy.use_builtin_rules then first_hit builtin_rules req else none
    ]
