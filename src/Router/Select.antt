-- ===== src/Router/Select.antt =====
-- src/router.rs: the choice of the host.
use mathlib.Core.Option
use pertisk_proxy.Base.{
  ℕ, ◌-◌, ◌<◌, ◌≡◌, inl, inr, refl, ap, sym, ◌∙◌, Bool, true, false, ◌&&◌, List, [], ◌∷◌, none,
  some, arith, Bytes, ltb, length, All, Bool-cases, Map, lookup, bytes_eq, bytes_eq_iff, is_empty,
}
use pertisk_proxy.Text.{codes, trim, starts_with-eq-true}
use pertisk_proxy.Hosts.{normalize_host, wildcard_covers_host}
use pertisk_proxy.Hosts.Wildcards.{wildcard_unique}
use pertisk_proxy.Router.{
  Route, RouteTable, is_wildcard, best_wildcard, routes_for_normal, routes_for_host, find_route,
  match_route_entry, sort_routes, sort_all, from_routes,
}
use pertisk_proxy.Router.Order.{IsBest, find_route-sort_routes}

module _ (host : Bytes) where
  abbrev covers : Bytes → Bool
  covers key = is_wildcard key && wildcard_covers_host key host

  -- No key but `key` is a wildcard that covers the host.
  abbrev Only : Bytes → Map (List Route) → Type 0
  Only key = All (λ e. covers e.0 ≡ true → e.0 ≡ key)

  not_above : (n : ℕ) → ltb n n ≡ false
  not_above n = ground arith

  above : (n : ℕ) → 0 < n → ltb 0 n ≡ true
  above n h = ground arith

  best_settled :
      (key : Bytes) (m : Map (List Route)) (rs : List Route)
      → Only key m
      → best_wildcard host m (some (length key - 1, rs)) ≡ some (length key - 1, rs)
  unfolding best_wildcard
  best_settled key [] rs h = refl
  best_settled key ((k, qs) ∷ m) rs (one, h) = elim (Bool-cases (covers k)) [
    | inr other ↦ rw other (best_settled key m rs h)
    | inl same ↦ rw (same, one same, not_above (length key - 1)) (best_settled key m rs h)
  ]

  best_found :
      (key : Bytes) (m : Map (List Route))
      → Only key m
      → covers key ≡ true
      → 0 < length key - 1
      → best_wildcard host m none ≡ Option.map (λ rs. (length key - 1, rs)) (lookup key m)
  unfolding best_wildcard lookup
  best_found key [] h c long = refl
  best_found key ((k, qs) ∷ m) (one, h) c long = elim (Bool-cases (bytes_eq k key)) [
    | inl same ↦
        rw (same, (bytes_eq_iff k key).0 same, c, above (length key - 1) long)
          (best_settled key m qs h)
    | inr other ↦ rw other (elim (Bool-cases (covers k)) [
      | inl clash ↦ absurd (differs (one clash) other)
      | inr apart ↦ rw apart (best_found key m h c long)
    ])
  ]
    where
      differs : {k : Bytes} → k ≡ key → bytes_eq k key ≡ false → ⊥
      differs {k} e other = ground (arith, (bytes_eq_iff k key).1 e)

  wildcard_suffix : (key : Bytes) → is_wildcard key ≡ true → (s : Bytes) × (key ≡ b'*' ∷ b'.' ∷ s)
  wildcard_suffix key h = starts_with-eq-true (codes "*.") key h

  covers_unique :
      (key k : Bytes) → trim key ≡ key → trim k ≡ k → covers key ≡ true → covers k ≡ true → k ≡ key
  covers_unique key k tidy tidy_k c d =
      let (s, e) = wildcard_suffix key (ground arith) in
      let (t, f) = wildcard_suffix k (ground arith) in
      let same =
        wildcard_unique k key host t s (tidy_k ∙ f) (tidy ∙ e) (ground arith) (ground arith) in
      f ∙ ap (λ r. b'*' ∷ b'.' ∷ r) same ∙ sym e

  All-tidy-Only :
      (key : Bytes) (m : Map (List Route))
      → trim key ≡ key
      → covers key ≡ true
      → All (λ e. trim e.0 ≡ e.0) m
      → Only key m
  All-tidy-Only key [] tidy c h = tt
  All-tidy-Only key ((k, rs) ∷ m) tidy c (t, h) =
      (λ d. covers_unique key k tidy t c d, All-tidy-Only key m tidy c h)

  wildcard_long : (key : Bytes) → covers key ≡ true → 0 < length key - 1
  wildcard_long key c = let (s, e) = wildcard_suffix key (ground arith) in rw e (omega arith)

  -- Where no key of the table has white space around it and none is the host itself, which is not
  -- empty: the routes of a wildcard `*.…` of the table that covers the host are those of the host,
  -- wherever it stands.
  pub routes_for_normal-wildcard :
      (table : RouteTable) (key : Bytes) (rs : List Route)
      → is_empty host ≡ false
      → All (λ e. trim e.0 ≡ e.0) table.routes
      → trim key ≡ key
      → lookup host table.routes ≡ none
      → is_wildcard key ≡ true
      → wildcard_covers_host key host ≡ true
      → lookup key table.routes ≡ some rs
      → routes_for_normal table host ≡ some rs
  unfolding routes_for_normal
  routes_for_normal-wildcard table key rs full tidy tidy_key absent wild c found =
      let both : covers key ≡ true = ground arith in
      let best =
        best_found key table.routes (All-tidy-Only key table.routes tidy_key both tidy) both
          (wildcard_long key both) in
      rw (full, absent, best, found) refl

lookup-sort_all :
    (k : Bytes) (m : Map (List Route)) → lookup k (sort_all m) ≡ Option.map sort_routes (lookup k m)
unfolding lookup sort_all
lookup-sort_all k [] = refl
lookup-sort_all k ((key, rs) ∷ m) = elim (Bool-cases (bytes_eq key k)) [
  | inl same ↦ rw same refl
  | inr other ↦ rw other (lookup-sort_all k m)
]

listed_normal :
    (by_host : Map (List Route)) (host : Bytes) (rs : List Route)
    → is_empty host ≡ false
    → lookup host by_host ≡ some rs
    → routes_for_normal (from_routes by_host) host ≡ some (sort_routes rs)
unfolding routes_for_normal from_routes
listed_normal by_host host rs full listed = rw (full, lookup-sort_all host by_host, listed) refl

reached :
    (by_host : Map (List Route)) (host path : Bytes) (rs : List Route)
    → routes_for_normal (from_routes by_host) (normalize_host host) ≡ some (sort_routes rs)
    → match_route_entry (from_routes by_host) host path ≡ find_route (sort_routes rs) path
unfolding match_route_entry routes_for_host
reached by_host host path rs e = ap (λ o. elim o [ none ↦ none | some qs ↦ find_route qs path ]) e

-- In a table built from a map: where the map has routes for the host, as it is normalized and not
-- empty, the route that is found is one of them that matches the path, and no longer one matches;
-- where none is found, none of them matches.
pub match_route_entry-IsBest :
    (by_host : Map (List Route)) (host path : Bytes) (rs : List Route)
    → is_empty (normalize_host host) ≡ false
    → lookup (normalize_host host) by_host ≡ some rs
    → IsBest rs path (match_route_entry (from_routes by_host) host path)
match_route_entry-IsBest by_host host path rs full listed =
    rw (reached by_host host path rs (listed_normal by_host (normalize_host host) rs full listed))
      (find_route-sort_routes rs path)

-- The routes of a host in a table that is built.
pub lookup-from_routes :
    (k : Bytes) (by_host : Map (List Route))
    → lookup k (from_routes by_host).routes ≡ Option.map sort_routes (lookup k by_host)
unfolding from_routes
lookup-from_routes k by_host = lookup-sort_all k by_host
