-- ===== src/Router/Order.antt =====
-- src/router.rs: the order of the routes of a host, and the search in it.
use pertisk_proxy.Base.{
  ℕ, ◌≤◌, ◌≡◌, ◌↔◌, ◌⊎◌, inl, inr, refl, sym, subst, true, false, List, [], ◌∷◌, Option, none, some,
  arith, Bytes, leb, length, In, All, Bool-cases,
}
use pertisk_proxy.Router.{Route, path_matches, find_route, insert_longest, sort_routes}

-- The longest path first.
abbrev pub IsSorted : List Route → Type 0
IsSorted [] = Unit
IsSorted (r ∷ rs) = All (λ q. length q.path ≤ length r.path) rs × IsSorted rs

All-insert :
    (n : ℕ) (r : Route) (rs : List Route)
    → length r.path ≤ n
    → All (λ q. length q.path ≤ n) rs
    → All (λ q. length q.path ≤ n) (insert_longest r rs)
unfolding insert_longest
All-insert n r [] h k = (h, tt)
All-insert n r (q ∷ qs) h (l, k) = elim (Bool-cases (leb (length q.path) (length r.path))) [
  | inl longer ↦ rw longer (h, (l, k))
  | inr shorter ↦ rw shorter (l, All-insert n r qs h k)
]

All-weaken :
    (m n : ℕ) (rs : List Route)
    → m ≤ n
    → All (λ q. length q.path ≤ m) rs
    → All (λ q. length q.path ≤ n) rs
All-weaken m n [] h k = tt
All-weaken m n (q ∷ qs) h (l, k) = (omega arith, All-weaken m n qs h k)

insert_longest-IsSorted :
    (r : Route) (rs : List Route) → IsSorted rs → IsSorted (insert_longest r rs)
unfolding insert_longest
insert_longest-IsSorted r [] s = (tt, tt)
insert_longest-IsSorted r (q ∷ qs) (l, s) =
    elim (Bool-cases (leb (length q.path) (length r.path))) [
      | inl longer ↦
          rw longer
            ((ground arith, All-weaken (length q.path) (length r.path) qs (ground arith) l), (l, s))
      | inr shorter ↦
          rw shorter
            (All-insert (length q.path) r qs (ground arith) l, insert_longest-IsSorted r qs s)
    ]

pub sort_routes-IsSorted : (rs : List Route) → IsSorted (sort_routes rs)
unfolding sort_routes
sort_routes-IsSorted [] = tt
sort_routes-IsSorted (r ∷ rs) = insert_longest-IsSorted r (sort_routes rs) (sort_routes-IsSorted rs)

In-insert : (a r : Route) (rs : List Route) → In a (insert_longest r rs) ↔ ((a ≡ r) ⊎ In a rs)
unfolding insert_longest
In-insert a r [] = (λ h. h, λ h. h)
In-insert a r (q ∷ qs) =
    let (to, from) = In-insert a r qs in
    elim (Bool-cases (leb (length q.path) (length r.path))) [
      | inl longer ↦ rw longer (λ h. h, λ h. h)
      | inr shorter ↦ rw shorter (
        λ h. elim h [
          | inl e ↦ inr (inl e)
          | inr k ↦ elim (to k) [ inl e ↦ inl e | inr m ↦ inr (inr m) ]
        ],
        λ h. elim h [
          | inl e ↦ inr (from (inl e))
          | inr k ↦ elim k [ inl e ↦ inl e | inr m ↦ inr (from (inr m)) ]
        ],
      )
    ]

In-sort_routes : (a : Route) (rs : List Route) → In a (sort_routes rs) ↔ In a rs
unfolding sort_routes
In-sort_routes a [] = (λ h. h, λ h. h)
In-sort_routes a (r ∷ rs) =
    let (to, from) = In-sort_routes a rs in
    let (out, back) = In-insert a r (sort_routes rs) in
    (
      λ h. elim (out h) [ inl e ↦ inl e | inr k ↦ inr (to k) ],
      λ h. elim h [ inl e ↦ back (inl e) | inr k ↦ back (inr (from k)) ],
    )

abbrev pub Matches : Route → Bytes → Type 0
Matches r path = path_matches r.path_type r.path path ≡ true

find_route_sound :
    (rs : List Route) (path : Bytes) (r : Route)
    → find_route rs path ≡ some r
    → In r rs × Matches r path
unfolding find_route
find_route_sound [] path r e = cc
find_route_sound (q ∷ qs) path r e = elim (Bool-cases (path_matches q.path_type q.path path)) [
  | inl hit ↦
      let same : q ≡ r = ground arith in (inl (sym same), subst (λ x. Matches x path) same hit)
  | inr miss ↦
      let (listed, matches) = find_route_sound qs path r (rw (miss, find_route) at e) in
      (inr listed, matches)
]

longest_of_All :
    (n : ℕ) (a : Route) (rs : List Route)
    → All (λ q. length q.path ≤ n) rs
    → In a rs
    → length a.path ≤ n
longest_of_All n a [] h k = absurd k
longest_of_All n a (q ∷ qs) (l, h) (inl e) = rw e l
longest_of_All n a (q ∷ qs) (l, h) (inr k) = longest_of_All n a qs h k

find_route_longest :
    (rs : List Route) (path : Bytes) (r a : Route)
    → IsSorted rs
    → find_route rs path ≡ some r
    → In a rs
    → Matches a path
    → length a.path ≤ length r.path
unfolding find_route
find_route_longest [] path r a s e k m = absurd k
find_route_longest (q ∷ qs) path r a (l, s) e k m =
    elim (Bool-cases (path_matches q.path_type q.path path)) [
      | inl hit ↦
          let same : q ≡ r = ground arith in
          subst (λ x. length a.path ≤ length x.path) same (no_longer q qs l k)
      | inr miss ↦
          find_route_longest qs path r a s (rw (miss, find_route) at e) (elsewhere q qs miss k) m
    ]
  where
    no_longer :
        (q : Route) (qs : List Route)
        → All (λ p. length p.path ≤ length q.path) qs
        → In a (q ∷ qs)
        → length a.path ≤ length q.path
    no_longer q qs l (inl e) = rw e (omega arith)
    no_longer q qs l (inr k) = longest_of_All (length q.path) a qs l k

    elsewhere :
        (q : Route) (qs : List Route)
        → path_matches q.path_type q.path path ≡ false
        → In a (q ∷ qs)
        → In a qs
    elsewhere q qs miss (inl e) = absurd (clash (subst (λ x. Matches x path) e m))
      where
        clash : Matches q path → ⊥
        clash h = cc
    elsewhere q qs miss (inr k) = k

find_route_complete :
    (rs : List Route) (path : Bytes) (a : Route)
    → find_route rs path ≡ none
    → In a rs
    → Matches a path
    → ⊥
unfolding find_route
find_route_complete [] path a e k m = k
find_route_complete (q ∷ qs) path a e (inl same) m =
    let hit : Matches q path = subst (λ x. Matches x path) same m in ground arith
find_route_complete (q ∷ qs) path a e (inr k) m = find_route_complete qs path a (ground arith) k m

-- The routes of one host, as a caller sees them: what is found is a route of the host that matches,
-- and no longer one does; where nothing is found, none matches.
pub data IsBest (rs : List Route) (path : Bytes) : Option Route → Type 0 where
  found :
      {r : Route}
      → In r rs
      → Matches r path
      → ((a : Route) → In a rs → Matches a path → length a.path ≤ length r.path)
      → IsBest rs path (some r)
  missing : ((a : Route) → In a rs → ¬ (Matches a path)) → IsBest rs path none

pub find_route-sort_routes :
    (rs : List Route) (path : Bytes) → IsBest rs path (find_route (sort_routes rs) path)
find_route-sort_routes rs path = go (find_route (sort_routes rs) path) refl
  where
    go : (o : Option Route) → find_route (sort_routes rs) path ≡ o → IsBest rs path o
    go none e =
        missing
          (λ a k m. find_route_complete (sort_routes rs) path a e ((In-sort_routes a rs).1 k) m)
    go (some r) e =
        let (listed, matches) = find_route_sound (sort_routes rs) path r e in
        found ((In-sort_routes r rs).0 listed) matches (λ a k m.
          find_route_longest (sort_routes rs) path r a (sort_routes-IsSorted rs) e
            ((In-sort_routes a rs).1 k) m)
