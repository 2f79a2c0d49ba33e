-- ===== src/Security/Waf/Laws.antt =====
-- src/security/waf.rs: the contract of `evaluate_waf`, and path traversal.
use pertisk_proxy.Base.{
  ℕ, ◌≡◌, ◌⊎◌, inl, inr, refl, ◌∙◌, true, false, ◌&&◌, List, [], ◌∷◌, ◌++◌, Option, none, some,
  arith, Bytes, All, Bool-cases, Option-cases,
}
use pertisk_proxy.Text.{codes, to_lower, contains-append, to_lower-append, IsAscii}
use pertisk_proxy.Security.Request.{RequestView}
use pertisk_proxy.Security.Waf.{
  WafRule, WafPolicy, WafHit, block, hit_of, rule_matches, first_hit, evaluate_waf, builtin_rules,
  waf_is_active, contains_ci, percent_decode_lossy, found_in, method_allowed, path_rule,
}
use pertisk_proxy.Security.Waf.Decode.{Encodes, percent_decode_lossy-Encodes}

-- The rule `r` is enabled and matches, and no enabled rule before it does.
pub data IsFirstHit (req : RequestView) (r : WafRule) : List WafRule → Type 0 where
  here :
      {rs : List WafRule} → r.enabled ≡ true → rule_matches r req ≡ true → IsFirstHit req r (r ∷ rs)
  later :
      {q : WafRule} {rs : List WafRule}
      → (q.enabled && rule_matches q req) ≡ false
      → IsFirstHit req r rs
      → IsFirstHit req r (q ∷ rs)

abbrev pub NoHit : RequestView → List WafRule → Type 0
NoHit req = All (λ r. (r.enabled && rule_matches r req) ≡ false)

first_hit-IsFirstHit :
    (req : RequestView) (rs : List WafRule) (hit : WafHit)
    → first_hit rs req ≡ some hit
    → (r : WafRule) × IsFirstHit req r rs × (hit ≡ hit_of r)
unfolding first_hit
first_hit-IsFirstHit req [] hit e = cc
first_hit-IsFirstHit req (r ∷ rs) hit e = elim (Bool-cases (r.enabled && rule_matches r req)) [
  | inl yes_hit ↦ (r, here (ground arith) (ground arith), ground arith)
  | inr miss ↦
      let (q, first, same) = first_hit-IsFirstHit req rs hit (rw (miss, first_hit) at e) in
      (q, later miss first, same)
]

first_hit-none : (req : RequestView) (rs : List WafRule) → first_hit rs req ≡ none → NoHit req rs
unfolding first_hit
first_hit-none req [] e = tt
first_hit-none req (r ∷ rs) e = (ground arith, first_hit-none req rs (ground arith))

first_hit_of_NoHit :
    (req : RequestView) (rs : List WafRule) → NoHit req rs → first_hit rs req ≡ none
unfolding first_hit
first_hit_of_NoHit req [] h = refl
first_hit_of_NoHit req (r ∷ rs) (h, k) = rw h (first_hit_of_NoHit req rs k)

-- What `evaluate_waf` promises: the rules of the policy come before the built-in ones, the
-- first enabled match decides, and an inactive policy never hits.
pub data Verdict (policy : WafPolicy) (req : RequestView) : Option WafHit → Type 0 where
  inactive : waf_is_active policy ≡ false → Verdict policy req none
  custom :
      {r : WafRule}
      → waf_is_active policy ≡ true
      → IsFirstHit req r policy.rules
      → Verdict policy req (some (hit_of r))
  builtin :
      {r : WafRule}
      → waf_is_active policy ≡ true
      → NoHit req policy.rules
      → policy.use_builtin_rules ≡ true
      → IsFirstHit req r builtin_rules
      → Verdict policy req (some (hit_of r))
  clean :
      waf_is_active policy ≡ true
      → NoHit req policy.rules
      → (policy.use_builtin_rules ≡ false) ⊎ NoHit req builtin_rules
      → Verdict policy req none

evaluate_custom :
    (policy : WafPolicy) (req : RequestView) (hit : WafHit)
    → waf_is_active policy ≡ true
    → first_hit policy.rules req ≡ some hit
    → evaluate_waf policy req ≡ some hit
unfolding evaluate_waf
evaluate_custom policy req hit active e = rw (active, e)

evaluate_builtin :
    (policy : WafPolicy) (req : RequestView)
    → waf_is_active policy ≡ true
    → first_hit policy.rules req ≡ none
    → policy.use_builtin_rules ≡ true
    → evaluate_waf policy req ≡ first_hit builtin_rules req
unfolding evaluate_waf
evaluate_builtin policy req active e b = rw (active, e, b)

evaluate_no_builtin :
    (policy : WafPolicy) (req : RequestView)
    → waf_is_active policy ≡ true
    → first_hit policy.rules req ≡ none
    → policy.use_builtin_rules ≡ false
    → evaluate_waf policy req ≡ none
unfolding evaluate_waf
evaluate_no_builtin policy req active e b = rw (active, e, b)

evaluate_inactive :
    (policy : WafPolicy) (req : RequestView)
    → waf_is_active policy ≡ false
    → evaluate_waf policy req ≡ none
unfolding evaluate_waf
evaluate_inactive policy req h = rw h

Verdict-builtin :
    (policy : WafPolicy) (req : RequestView)
    → waf_is_active policy ≡ true
    → NoHit req policy.rules
    → policy.use_builtin_rules ≡ true
    → Verdict policy req (first_hit builtin_rules req)
Verdict-builtin policy req active miss b = elim (Option-cases (first_hit builtin_rules req)) [
  | inl e ↦ rw e (clean active miss (inr (first_hit-none req builtin_rules e)))
  | inr (hit, e) ↦
      let (r, first, same) = first_hit-IsFirstHit req builtin_rules hit e in
      rw (e, same) (builtin active miss b first)
]

-- `evaluate_waf` gives what `Verdict` says: nothing for a policy that is not active; else the first of
-- the policy's own rules that matches; else the first built-in rule that matches, if these are on; and
-- nothing where none matches.
pub evaluate_waf-Verdict :
    (policy : WafPolicy) (req : RequestView) → Verdict policy req (evaluate_waf policy req)
evaluate_waf-Verdict policy req = elim (Bool-cases (waf_is_active policy)) [
  | inr off ↦ rw (evaluate_inactive policy req off) (inactive off)
  | inl active ↦ elim (Option-cases (first_hit policy.rules req)) [
    | inr (hit, e) ↦
        let (r, first, same) = first_hit-IsFirstHit req policy.rules hit e in
        rw (evaluate_custom policy req hit active e, same) (custom active first)
    | inl e ↦
        let miss = first_hit-none req policy.rules e in
        elim (Bool-cases policy.use_builtin_rules) [
          | inl b ↦
              rw (evaluate_builtin policy req active e b) (Verdict-builtin policy req active miss b)
          | inr b ↦ rw (evaluate_no_builtin policy req active e b) (clean active miss (inl b))
        ]
  ]
]

contains_ci-append : (c : ℕ) (n a b : Bytes) → contains_ci (a ++ ((c ∷ n) ++ b)) (c ∷ n) ≡ true
unfolding contains_ci
contains_ci-append c n a b =
    rw (to_lower-append a ((c ∷ n) ++ b), to_lower-append (c ∷ n) b)
      (contains-append (to_lower (c ∷ n)) (to_lower a) (to_lower b))

path_rule_found :
    (req : RequestView) (id needle : Bytes) (c : ℕ)
    → contains_ci (percent_decode_lossy req.path) (c ∷ needle) ≡ true
    → rule_matches (path_rule id (c ∷ needle)) req ≡ true
unfolding rule_matches found_in method_allowed
path_rule_found req id needle c h = ground arith

first_hit_traversal :
    (req : RequestView)
    → rule_matches (path_rule (codes "builtin-path-traversal") (codes "../")) req ≡ true
    → first_hit builtin_rules req
      ≡ some (record { rule_id = codes "builtin-path-traversal"; action = block })
unfolding first_hit builtin_rules
first_hit_traversal req h = rw h

-- With the policy enabled and its built-in rules on, a request whose path is a percent encoding of an
-- ASCII text that holds "../" is blocked by the path-traversal rule, whichever of its bytes were escaped,
-- where no rule of the policy's own matches.
pub traversal_blocked :
    (policy : WafPolicy) (req : RequestView) (a b : Bytes)
    → policy.enabled ≡ true
    → policy.use_builtin_rules ≡ true
    → NoHit req policy.rules
    → IsAscii (a ++ (codes "../" ++ b))
    → Encodes (a ++ (codes "../" ++ b)) req.path
    → evaluate_waf policy req
      ≡ some (record { rule_id = codes "builtin-path-traversal"; action = block })
traversal_blocked policy req a b on use_builtin miss ascii enc =
    let active : waf_is_active policy ≡ true = unfold waf_is_active in rw (on, use_builtin) in
    let decoded = percent_decode_lossy-Encodes enc ascii in
    let found =
      path_rule_found req (codes "builtin-path-traversal") (codes "./") b'.'
        (rw decoded (contains_ci-append b'.' (codes "./") a b)) in
    evaluate_builtin policy req active (first_hit_of_NoHit req policy.rules miss) use_builtin
    ∙ first_hit_traversal req found
