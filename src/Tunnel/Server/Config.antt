-- ===== src/Tunnel/Server/Config.antt =====
-- tunnel/server/src/main.rs: the tunnels of a configuration that is taken.
use pertisk_proxy.Base.{
  none, refl, ℕ, ◌≡◌, ◌≢◌, ◌⊎◌, sym, ap, subst, ◌∙◌, inl, inr, true, false, List, [], ◌∷◌, some,
  arith, ◌==◌, ==_iff, any, if◌then◌else◌, Bytes, Map, lookup, has_key, insert, lookup-insert,
  lookup-insert_self, has_key_iff, In, bytes_eq, bytes_eq_iff, is_empty, Bool-cases,
  HasDistinctKeys, insert-HasDistinctKeys,
}
use pertisk_proxy.Text.{trim}
use pertisk_proxy.Tunnel.Server.{
  TunnelDef, empty_name, zero_port, duplicate_port, duplicate_name, TunnelsLoaded, loaded, refused,
  load_from, load_tunnels,
}

-- Every name in the map has a port of its own.
pub record IsPortMap (m : Map ℕ) : Type 0 where
  pub distinct : HasDistinctKeys m
  pub named : (name : Bytes) (port : ℕ) → lookup name m ≡ some port → is_empty (trim name) ≡ false
  pub open_port : (name : Bytes) (port : ℕ) → lookup name m ≡ some port → port ≢ 0
  pub apart : (a b : Bytes) (port : ℕ) → lookup a m ≡ some port → lookup b m ≡ some port → a ≡ b

IsSeen : List ℕ → Map ℕ → Type 0
IsSeen seen m =
    (name : Bytes) (port : ℕ) → lookup name m ≡ some port → any (λ p. p == port) seen ≡ true

lookup_cases :
    (k : Bytes) (v : ℕ) (m : Map ℕ) (name : Bytes) (port : ℕ)
    → lookup name (insert k v m) ≡ some port
    → ((k ≡ name) × (v ≡ port)) ⊎ (lookup name m ≡ some port)
lookup_cases k v m name port e = elim (Bool-cases (bytes_eq k name)) [
  | inl same ↦ inl ((bytes_eq_iff k name).0 same, ground (arith, lookup-insert k name v m, e, same))
  | inr other ↦ inr (ground (arith, lookup-insert k name v m, e, other))
]

insert-IsSeen :
    (k : Bytes) (v : ℕ) (seen : List ℕ) (m : Map ℕ)
    → IsSeen seen m
    → IsSeen (v ∷ seen) (insert k v m)
unfolding IsSeen
insert-IsSeen k v seen m known name port e = elim (lookup_cases k v m name port e) [
  | inl (same, now) ↦ ground (arith, ==_iff v port, now)
  | inr before ↦ ground (arith, known name port before)
]

-- Only a new port may be inserted.
insert-IsPortMap :
    (k : Bytes) (v : ℕ) (seen : List ℕ) (m : Map ℕ)
    → IsPortMap m
    → IsSeen seen m
    → is_empty (trim k) ≡ false
    → v ≢ 0
    → any (λ p. p == v) seen ≡ false
    → IsPortMap (insert k v m)
unfolding IsSeen
insert-IsPortMap k v seen m good known named positive new =
    let fresh : (name : Bytes) → lookup name m ≢ some v =
      λ name e. ground (arith, known name v e, new) in
    record {
      distinct = insert-HasDistinctKeys k v m good.distinct;
      named = λ name port e. elim (lookup_cases k v m name port e) [
        | inl (same, now) ↦ rw (← same) named
        | inr before ↦ good.named name port before
      ];
      open_port = λ name port e. elim (lookup_cases k v m name port e) [
        | inl (same, now) ↦ rw (← now) positive
        | inr before ↦ good.open_port name port before
      ];
      apart = λ a b port ea eb. elim (lookup_cases k v m a port ea) [
        | inl (same_a, now_a) ↦ elim (lookup_cases k v m b port eb) [
          | inl (same_b, now_b) ↦ sym same_a ∙ same_b
          | inr before_b ↦ absurd (fresh b (before_b ∙ ap some (sym now_a)))
        ]
        | inr before_a ↦ elim (lookup_cases k v m b port eb) [
          | inl (same_b, now_b) ↦ absurd (fresh a (before_a ∙ ap some (sym now_b)))
          | inr before_b ↦ good.apart a b port before_a before_b
        ]
      ];
    }

passed_checks :
    (t : TunnelDef) (seen : List ℕ) (m n : Map ℕ) (rest : TunnelsLoaded)
    → (if is_empty (trim t.name)
        then refused empty_name
        else if t.remote_port == 0
        then refused (zero_port t.name)
        else if any (λ p. p == t.remote_port) seen
        then refused (duplicate_port t.remote_port)
        else if has_key t.name m
        then refused (duplicate_name t.name)
        else rest)
      ≡ loaded n
    → (is_empty (trim t.name) ≡ false)
      × (t.remote_port ≢ 0)
      × (any (λ p. p == t.remote_port) seen ≡ false)
      × (has_key t.name m ≡ false)
      × (rest ≡ loaded n)
passed_checks t seen m n rest e = elim (Bool-cases (is_empty (trim t.name))) [
  | inl blank ↦ absurd (ground (arith, e, blank))
  | inr named ↦ elim (Bool-cases (any (λ p. p == t.remote_port) seen)) [
    | inl again ↦ absurd (ground (arith, e, named, again))
    | inr new ↦ elim (Bool-cases (t.remote_port == 0)) [
      | inl zero_one ↦ absurd (ground (arith, e, named, zero_one))
      | inr positive ↦ elim (Bool-cases (has_key t.name m)) [
        | inl twice ↦ absurd (ground (arith, e, named, new, positive, twice))
        | inr once ↦ (
          named,
          λ z. ground (arith, z, positive, ==_iff t.remote_port 0),
          new,
          once,
          ground (arith, e, named, new, positive, once),
        )
      ]
    ]
  ]
]

load_from-IsPortMap :
    (ts : List TunnelDef) (seen : List ℕ) (m n : Map ℕ)
    → IsPortMap m
    → IsSeen seen m
    → load_from ts seen m ≡ loaded n
    → IsPortMap n
unfolding load_from
load_from-IsPortMap [] seen m n good known e = subst IsPortMap (ground (arith, e)) good
load_from-IsPortMap (t ∷ ts) seen m n good known e =
    let rest = load_from ts (t.remote_port ∷ seen) (insert t.name t.remote_port m) in
    let (named, positive, new, once, on) = passed_checks t seen m n rest e in
    load_from-IsPortMap ts (t.remote_port ∷ seen) (insert t.name t.remote_port m) n
      (insert-IsPortMap t.name t.remote_port seen m good known named positive new)
      (insert-IsSeen t.name t.remote_port seen m known) on

-- A tunnel that is in the map stays there.
load_from_keeps :
    (ts : List TunnelDef) (seen : List ℕ) (m n : Map ℕ) (name : Bytes) (port : ℕ)
    → load_from ts seen m ≡ loaded n
    → lookup name m ≡ some port
    → lookup name n ≡ some port
unfolding load_from
load_from_keeps [] seen m n name port e there =
    subst (λ k. lookup name k ≡ some port) (ground (arith, e)) there
load_from_keeps (t ∷ ts) seen m n name port e there =
    let rest = load_from ts (t.remote_port ∷ seen) (insert t.name t.remote_port m) in
    let (named, positive, new, once, on) = passed_checks t seen m n rest e in
    load_from_keeps ts (t.remote_port ∷ seen) (insert t.name t.remote_port m) n name port on
      (elim (Bool-cases (bytes_eq t.name name)) [
        | inl same ↦
            let missing : lookup name m ≡ none =
              subst (λ k. lookup k m ≡ none) ((bytes_eq_iff t.name name).0 same)
                ((has_key_iff t.name m).0 once) in
            absurd (ground (arith, sym missing ∙ there))
        | inr other ↦ lookup-insert t.name name t.remote_port m ∙ rw other there
      ])

load_from-listed :
    (ts : List TunnelDef) (seen : List ℕ) (m n : Map ℕ) (t : TunnelDef)
    → load_from ts seen m ≡ loaded n
    → In t ts
    → lookup t.name n ≡ some t.remote_port
unfolding load_from
load_from-listed [] seen m n t e h = absurd h
load_from-listed (u ∷ ts) seen m n t e h =
    let rest = load_from ts (u.remote_port ∷ seen) (insert u.name u.remote_port m) in
    let (named, positive, new, once, on) = passed_checks u seen m n rest e in
    elim h [
      | inl same ↦
          subst (λ x. lookup x.name n ≡ some x.remote_port) (sym same)
            (load_from_keeps ts (u.remote_port ∷ seen) (insert u.name u.remote_port m) n u.name
              u.remote_port on (lookup-insert_self u.name u.remote_port m))
      | inr later ↦
          load_from-listed ts (u.remote_port ∷ seen) (insert u.name u.remote_port m) n t on later
    ]

-- The tunnel of a list that has a name and a port.
pub Lists : List TunnelDef → Bytes → ℕ → Type 0
Lists ts name port = (t : TunnelDef) × In t ts × (t.name ≡ name) × (t.remote_port ≡ port)

load_from-only :
    (ts : List TunnelDef) (seen : List ℕ) (m n : Map ℕ) (name : Bytes) (port : ℕ)
    → load_from ts seen m ≡ loaded n
    → lookup name n ≡ some port
    → (lookup name m ≡ some port) ⊎ Lists ts name port
unfolding load_from Lists
load_from-only [] seen m n name port e there =
    inl (subst (λ k. lookup name k ≡ some port) (sym (ground (arith, e))) there)
load_from-only (t ∷ ts) seen m n name port e there =
    let rest = load_from ts (t.remote_port ∷ seen) (insert t.name t.remote_port m) in
    let (named, positive, new, once, on) = passed_checks t seen m n rest e in
    elim (load_from-only ts (t.remote_port ∷ seen) (insert t.name t.remote_port m) n name port on
      there) [
        | inl before ↦ elim (lookup_cases t.name t.remote_port m name port before) [
          | inl (same, now) ↦ inr (t, inl refl, same, now)
          | inr old ↦ inl old
        ]
        | inr (u, h, same, now) ↦ inr (u, inr h, same, now)
      ]

-- The map of a configuration: it has the tunnels of the configuration and no others, each with a name
-- that is not blank and a port that is not zero and its own.
pub record IsPortMapOf (ts : List TunnelDef) (m : Map ℕ) : Type 0 where
  pub port_map : IsPortMap m
  pub listed : (t : TunnelDef) → In t ts → lookup t.name m ≡ some t.remote_port
  pub only : (name : Bytes) (port : ℕ) → lookup name m ≡ some port → Lists ts name port

-- A configuration that the server takes has a map with just its tunnels: every tunnel of the
-- configuration is found under its name with its port, though another may come behind it, and every
-- entry is such a tunnel; no name is blank, no port is zero, and no two names have the same port.
pub load_tunnels-IsPortMapOf :
    (ts : List TunnelDef) (m : Map ℕ) → load_tunnels ts ≡ loaded m → IsPortMapOf ts m
unfolding load_tunnels lookup IsSeen
load_tunnels-IsPortMapOf [] m e = absurd (ground (arith, e))
load_tunnels-IsPortMapOf (t ∷ ts) m e = record {
  port_map =
      load_from-IsPortMap (t ∷ ts) [] [] m
        (record {
          distinct = tt;
          named = λ name port f. ground (arith, f);
          open_port = λ name port f. ground (arith, f);
          apart = λ a b port f g. ground (arith, f);
        })
        (λ name port f. ground (arith, f)) e;
  listed = λ u h. load_from-listed (t ∷ ts) [] [] m u e h;
  only = λ name port there. elim (load_from-only (t ∷ ts) [] [] m name port e there) [
    | inl nowhere ↦ absurd (ground (arith, nowhere))
    | inr found ↦ found
  ];
}
