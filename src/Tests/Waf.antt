-- ===== src/Tests/Waf.antt =====
-- Runs of src/security/waf.rs.
use pertisk_proxy.Base.{◌≡◌, refl, true, [], ◌++◌, none, some, Bytes, Option, arith}
use pertisk_proxy.Text.{codes, contains, to_lower}
use pertisk_proxy.Security.Request.{RequestView}
use pertisk_proxy.Security.Waf.{
  WafAction, WafPolicy, WafHit, evaluate_waf, hex_pair, rule_matches, found_in, found_in_ua,
}
use pertisk_proxy.Security.Waf.Decode.{Encodes}
use pertisk_proxy.Security.Waf.Laws.{Verdict, evaluate_waf-Verdict, traversal_blocked}

abbrev pub builtins : WafPolicy
builtins = record { enabled = true; use_builtin_rules = true; rules = [] }

abbrev ask : Bytes → Bytes → RequestView
ask path query = record {
  method = codes "GET";
  path = path;
  query = query;
  user_agent = some (codes "Mozilla");
  accept = none;
  accept_language = none;
  cookie = none;
  client_ip = none;
}

abbrev pub blocked : Bytes → Option WafHit
blocked id = some (record { rule_id = id; action = WafAction.block })

sqli_in_query :
    evaluate_waf builtins (ask (codes "/search") (codes "q=1' or 1=1--"))
    ≡ blocked (codes "builtin-sqli-or")
unfolding evaluate_waf rule_matches found_in found_in_ua contains to_lower
sqli_in_query = refl

sqli_encoded :
    evaluate_waf builtins (ask (codes "/") (codes "id=1%27%20or%201%3D1--"))
    ≡ blocked (codes "builtin-sqli-or")
unfolding evaluate_waf rule_matches found_in found_in_ua contains to_lower
sqli_encoded = refl

union_encoded :
    evaluate_waf builtins (ask (codes "/") (codes "q=UNION%20SELECT"))
    ≡ blocked (codes "builtin-sqli-union")
unfolding evaluate_waf rule_matches found_in found_in_ua contains to_lower
union_encoded = refl

-- "/../x", its second dot and its last slash escaped.
abbrev pub sneaky : RequestView
sneaky = ask (codes "/.%2e%2Fx") []

sneaky-Encodes : Encodes (codes "/" ++ (codes "../" ++ codes "x")) sneaky.path
unfolding hex_pair
sneaky-Encodes = Encodes.plain (ground arith) (ground arith) (
    Encodes.plain (ground arith) (ground arith) (
      Encodes.escaped refl
        (Encodes.escaped refl (Encodes.plain (ground arith) (ground arith) Encodes.done))))

traversal_blocked_example : evaluate_waf builtins sneaky ≡ blocked (codes "builtin-path-traversal")
traversal_blocked_example =
    traversal_blocked builtins sneaky (codes "/") (codes "x") refl refl tt (omega arith)
      sneaky-Encodes

evaluate_waf-Verdict_example : Verdict builtins sneaky (evaluate_waf builtins sneaky)
evaluate_waf-Verdict_example = evaluate_waf-Verdict builtins sneaky
