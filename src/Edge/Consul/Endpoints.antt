-- ===== src/Edge/Consul/Endpoints.antt =====
-- src/edge/mod.rs: the endpoints that Consul may give.
use native.Mathlib.Nat.{mod-lt}
use pertisk_proxy.Base.{
  ℕ, zero, suc, ◌==◌, ◌≤◌, ◌<◌, ◌%◌, ◌≡◌, ◌≢◌, inl, inr, refl, sym, ◌∙◌, subst, false, List, [],
  ◌∷◌, Option, none, some, arith, Bytes, lookup, lookup-insert, lookup-insert_self,
  lookup-insert_ne, bytes_eq_iff, In, is_empty, length, get_elem?, All, Bool-cases, Option-cases,
  bytes_eq,
}
use pertisk_proxy.Text.{u16_max}
use pertisk_proxy.Edge.Consul.{
  ConsulState, ConsulItem, consul_pick, pick_from, consul_set, consul_refresh, refresh_one,
  endpoints_of, add_endpoint, port_of, filled, address_of_item,
}

-- An address, and a port that can be dialled.
abbrev pub IsUsable : Bytes × ℕ → Type 0
IsUsable (address, port) = (is_empty address ≡ false) × (0 < port) × (port ≤ u16_max)

abbrev pub AreUsable : ConsulState → Type 0
AreUsable s =
    (service : Bytes) (list : List (Bytes × ℕ))
    → lookup service s.endpoints ≡ some list
    → All IsUsable list

or_text : Option Bytes → Bytes
or_text none = []
or_text (some s) = s

or_list : Option (List (Bytes × ℕ)) → List (Bytes × ℕ)
or_list none = []
or_list (some list) = list

or_peer : Bytes × ℕ → Option (Bytes × ℕ) → Bytes × ℕ
or_peer d none = d
or_peer d (some peer) = peer

port_of-le : (o : Option ℕ) → port_of o ≤ u16_max
unfolding port_of
port_of-le none = omega arith
port_of-le (some n) = omega arith

add_endpoint-AreUsable :
    (o : Option Bytes) (port : ℕ) (rest : List (Bytes × ℕ))
    → ((a : Bytes) → o ≡ some a → is_empty a ≡ false)
    → 0 < port
    → port ≤ u16_max
    → All IsUsable rest
    → All IsUsable (add_endpoint o port rest)
unfolding add_endpoint
add_endpoint-AreUsable none port rest h p q k = k
add_endpoint-AreUsable (some a) port rest h p q k = ((h a refl, p, q), k)

filled-some : (o : Option Bytes) (a : Bytes) → filled o ≡ some a → is_empty a ≡ false
unfolding filled or_text
filled-some none a e = ground (arith, e)
filled-some (some s) a e = elim (Bool-cases (is_empty s)) [
  | inl bare ↦ ground (arith, e, bare)
  | inr full ↦ subst (λ x. is_empty (or_text x) ≡ false) (rw full at e) full
]

address_of_item-some :
    (o other : Option Bytes) (a : Bytes)
    → ((b : Bytes) → o ≡ some b → is_empty b ≡ false)
    → ((b : Bytes) → other ≡ some b → is_empty b ≡ false)
    → address_of_item o other ≡ some a
    → is_empty a ≡ false
unfolding address_of_item
address_of_item-some none other a h k e = k a e
address_of_item-some (some b) other a h k e = h a e

endpoints_of-AreUsable : (items : List ConsulItem) → All IsUsable (endpoints_of items)
unfolding endpoints_of
endpoints_of-AreUsable [] = tt
endpoints_of-AreUsable (item ∷ items) =
    let o = address_of_item (filled item.service_address) (filled item.node_address) in
    let found : (a : Bytes) → o ≡ some a → is_empty a ≡ false = λ a.
      address_of_item-some (filled item.service_address) (filled item.node_address) a
        (filled-some item.service_address) (filled-some item.node_address) in
    elim (Bool-cases (port_of item.port == 0)) [
      | inl closed ↦ rw closed (endpoints_of-AreUsable items)
      | inr open_port ↦ rw open_port (
          add_endpoint-AreUsable o (port_of item.port) (endpoints_of items) found
            (ground (arith, open_port)) (port_of-le item.port) (endpoints_of-AreUsable items))
    ]

set-AreUsable :
    (service : Bytes) (added : List (Bytes × ℕ)) (s : ConsulState)
    → All IsUsable added
    → AreUsable s
    → AreUsable (consul_set service added s)
unfolding consul_set or_list
set-AreUsable service added s k h other list e = elim (Bool-cases (bytes_eq service other)) [
  | inl same ↦
      let there : some added ≡ some list =
        sym (rw same at (lookup-insert service other added s.endpoints)) ∙ e in
      subst (λ x. All IsUsable (or_list x)) there k
  | inr different ↦
      h other list (sym (rw different at (lookup-insert service other added s.endpoints)) ∙ e)
]

refresh_one-AreUsable :
    (service : Bytes) (reply : Option (List ConsulItem)) (s : ConsulState)
    → AreUsable s
    → AreUsable (refresh_one service reply s)
unfolding refresh_one
refresh_one-AreUsable service none s h = h
refresh_one-AreUsable service (some items) s h = elim (Bool-cases (is_empty (endpoints_of items))) [
  | inl bare ↦ rw bare h
  | inr full ↦
      rw full (set-AreUsable service (endpoints_of items) s (endpoints_of-AreUsable items) h)
]

consul_refresh-AreUsable :
    (reply : Bytes → Option (List ConsulItem)) (services : List Bytes) (s : ConsulState)
    → AreUsable s
    → AreUsable (consul_refresh reply services s)
unfolding consul_refresh
consul_refresh-AreUsable reply [] s h = h
consul_refresh-AreUsable reply (service ∷ services) s h =
    consul_refresh-AreUsable reply services (refresh_one service (reply service) s)
      (refresh_one-AreUsable service (reply service) s h)

get_elem?-All :
    {P : Bytes × ℕ → Type 0} (xs : List (Bytes × ℕ)) (i : ℕ)
    → All P xs
    → i < length xs
    → (x : Bytes × ℕ) × (get_elem? xs i ≡ some x) × P x
get_elem?-All [] i h k = ground (arith, k)
get_elem?-All (x ∷ xs) zero (p, h) k = (x, refl, p)
get_elem?-All (x ∷ xs) (suc i) (p, h) k = get_elem?-All xs i h (omega arith)

length-gt : (list : List (Bytes × ℕ)) → is_empty list ≡ false → 0 < length list
length-gt [] e = ground (arith, e)
length-gt (x ∷ xs) e = omega arith

get_elem?-In : (xs : List (Bytes × ℕ)) (i : ℕ) (x : Bytes × ℕ) → get_elem? xs i ≡ some x → In x xs
get_elem?-In [] i x e = ground (arith, e)
get_elem?-In (y ∷ xs) zero x e = inl (ground (arith, e))
get_elem?-In (y ∷ xs) (suc i) x e = inr (get_elem?-In xs i x e)

-- A service whose list is not empty is given an endpoint of the list, and it is usable where all are.
pub consul_pick-IsUsable :
    (service : Bytes) (list : List (Bytes × ℕ)) (s : ConsulState)
    → AreUsable s
    → lookup service s.endpoints ≡ some list
    → is_empty list ≡ false
    → (peer : Bytes × ℕ) × ((consul_pick service s).0 ≡ some peer) × In peer list × IsUsable peer
unfolding consul_pick pick_from
consul_pick-IsUsable service list s h e full =
    let (peer, there, usable) =
      get_elem?-All list (s.rr % length list) (h service list e)
        (mod-lt s.rr (length-gt list full)) in
    (peer, rw (e, full) there, get_elem?-In list (s.rr % length list) peer there, usable)

-- The other way round: an endpoint that is picked is usable where all are.
pub picked-IsUsable :
    (service : Bytes) (s : ConsulState) (peer : Bytes × ℕ)
    → AreUsable s
    → (consul_pick service s).0 ≡ some peer
    → IsUsable peer
unfolding consul_pick pick_from or_peer
picked-IsUsable service s peer h e = elim (Option-cases (lookup service s.endpoints)) [
  | inl missing ↦ ground (arith, e, missing)
  | inr (list, found) ↦ elim (Bool-cases (is_empty list)) [
    | inl bare ↦ ground (arith, e, found, bare)
    | inr full ↦
        let (p, there, member, usable) = consul_pick-IsUsable service list s h found full in
        subst (λ o. IsUsable (or_peer peer o)) (sym there ∙ e) usable
  ]
]

module _ (reply : Bytes → Option (List ConsulItem)) (service : Bytes)
    (items : List ConsulItem) where
  refresh_one_stored :
      (s : ConsulState)
      → is_empty (endpoints_of items) ≡ false
      → lookup service (refresh_one service (some items) s).endpoints ≡ some (endpoints_of items)
  unfolding refresh_one consul_set
  refresh_one_stored s full =
      rw (refresh_one, full) (lookup-insert_self service (endpoints_of items) s.endpoints)

  refresh_one_other :
      (other : Bytes) (o : Option (List ConsulItem)) (s : ConsulState)
      → other ≢ service
      → lookup service (refresh_one other o s).endpoints ≡ lookup service s.endpoints
  unfolding refresh_one consul_set
  refresh_one_other other none s differs = refl
  refresh_one_other other (some new) s differs = elim (Bool-cases (is_empty (endpoints_of new))) [
    | inl bare ↦ rw (refresh_one, bare) refl
    | inr full ↦
        rw (refresh_one, full)
          (lookup-insert_ne other service (endpoints_of new) s.endpoints differs)
  ]

  refresh_one_kept :
      (other : Bytes) (s : ConsulState)
      → reply service ≡ some items
      → is_empty (endpoints_of items) ≡ false
      → lookup service s.endpoints ≡ some (endpoints_of items)
      → lookup service (refresh_one other (reply other) s).endpoints ≡ some (endpoints_of items)
  refresh_one_kept other s e full there = elim (Bool-cases (bytes_eq other service)) [
    | inl same ↦
        subst
          (λ k. lookup service (refresh_one k (reply k) s).endpoints ≡ some (endpoints_of items))
          (sym ((bytes_eq_iff other service).0 same)) (rw e (refresh_one_stored s full))
    | inr different ↦
        refresh_one_other other (reply other) s
          (λ same. ground (arith, different, (bytes_eq_iff other service).1 same))
        ∙ there
  ]

  refresh_kept :
      (services : List Bytes) (s : ConsulState)
      → reply service ≡ some items
      → is_empty (endpoints_of items) ≡ false
      → lookup service s.endpoints ≡ some (endpoints_of items)
      → lookup service (consul_refresh reply services s).endpoints ≡ some (endpoints_of items)
  unfolding consul_refresh
  refresh_kept [] s e full there = there
  refresh_kept (other ∷ services) s e full there =
      refresh_kept services (refresh_one other (reply other) s) e full
        (refresh_one_kept other s e full there)

  consul_refresh-lookup :
      (services : List Bytes) (s : ConsulState)
      → In service services
      → reply service ≡ some items
      → is_empty (endpoints_of items) ≡ false
      → lookup service (consul_refresh reply services s).endpoints ≡ some (endpoints_of items)
  unfolding consul_refresh
  consul_refresh-lookup [] s h e full = absurd h
  consul_refresh-lookup (other ∷ services) s (inl same) e full =
      refresh_kept services (refresh_one other (reply other) s) e full (
        subst
          (λ k. lookup service (refresh_one k (reply k) s).endpoints ≡ some (endpoints_of items))
          same (rw e (refresh_one_stored s full)))
  consul_refresh-lookup (other ∷ services) s (inr h) e full =
      consul_refresh-lookup services (refresh_one other (reply other) s) h e full

  -- Where all endpoints are usable (an address, and a port from 1 to 65535), they are so after a refresh;
  -- and a service that was refreshed, whose reply has endpoints, has exactly those and is given one of
  -- them.
  pub consul_pick-refreshed :
      (services : List Bytes) (s : ConsulState)
      → AreUsable s
      → In service services
      → reply service ≡ some items
      → is_empty (endpoints_of items) ≡ false
      → AreUsable (consul_refresh reply services s)
        × (lookup service (consul_refresh reply services s).endpoints ≡ some (endpoints_of items))
        × ((peer : Bytes × ℕ) × ((consul_pick service (consul_refresh reply services s)).0
              ≡ some peer)
            × In peer (endpoints_of items)
            × IsUsable peer)
  consul_pick-refreshed services s h asked e full =
      let h' = consul_refresh-AreUsable reply services s h in
      let found = consul_refresh-lookup services s asked e full in
      (
        h',
        found,
        consul_pick-IsUsable service (endpoints_of items) (consul_refresh reply services s) h' found
            full,
      )
