-- ===== src/Proxy/ClientIp/Trusted.antt =====
-- src/proxy/forward.rs: which address is taken for the client's.
use mathlib.Core.List.{reverse, reverse_aux, reverse-reverse}
use mathlib.Core.Path.{◌≡◌}
use pertisk_proxy.Base.{
  ℕ, ◌⊎◌, ◌<◌, ◌^◌, ◌/◌, inl, inr, refl, ap, subst, Bool, true, false, not, ◌&&◌, ◌||◌, [], ◌∷◌,
  Option, none, some, arith, leb, ◌==◌, if◌then◌else◌, Bytes, is_empty, All, Bool-cases,
  Option-cases,
}
use pertisk_proxy.Text.{before_whole, trim-IsSolid, is_solid, IsSolid, has_byte}
use pertisk_proxy.Proxy.ClientIp.{
  IpAddr, v4, v6, unmapped, drop_while, trim_matches, is_bracket, normalize_ip_str, printed, bare,
  resolve_client_ip, keep_public, normalize_maybe, first_hop_from_xff, is_public_routable_ip,
  or_else_maybe,
}

-- Hex digits, dots and colons.
unfoldable pub is_address_char : ℕ → Bool
is_address_char c = (leb b'.' c && leb c b':' && not (c == b'/')) || (leb b'a' c && leb c b'f')

abbrev pub IsAddressText : Bytes → Type 0
IsAddressText = All (λ c. is_address_char c ≡ true)

address-IsSolid : (s : Bytes) → IsAddressText s → IsSolid s
unfolding is_address_char is_solid
address-IsSolid [] h = tt
address-IsSolid (c ∷ s) (h, k) = (ground (arith, h), address-IsSolid s k)

address-has_byte : (s : Bytes) → IsAddressText s → has_byte b'%' s ≡ false
unfolding is_address_char has_byte
address-has_byte [] h = refl
address-has_byte (c ∷ s) (h, k) = ground (arith, h, address-has_byte s k)

drop_while_none : (s : Bytes) → IsAddressText s → drop_while is_bracket s ≡ s
unfolding drop_while is_bracket is_address_char
drop_while_none [] h = refl
drop_while_none (c ∷ s) (h, k) = ground (arith, h)

reverse_aux-IsAddressText :
    (s acc : Bytes) → IsAddressText s → IsAddressText acc → IsAddressText (reverse_aux s acc)
reverse_aux-IsAddressText [] acc h k = k
reverse_aux-IsAddressText (c ∷ s) acc (p, h) k = reverse_aux-IsAddressText s (c ∷ acc) h (p, k)

reverse-IsAddressText : (s : Bytes) → IsAddressText s → IsAddressText (reverse s)
reverse-IsAddressText s h = reverse_aux-IsAddressText s [] h tt

bare-IsAddressText : (s : Bytes) → IsAddressText s → bare s ≡ s
unfolding bare trim_matches
bare-IsAddressText s h =
    let solid = trim-IsSolid s (address-IsSolid s h) in
    rw
      (
        solid,
        drop_while_none s h,
        drop_while_none (reverse s) (reverse-IsAddressText s h),
        reverse-reverse s,
        before_whole b'%' s (address-has_byte s h),
        solid,
      )
      refl

unmapped-unmapped : (a : IpAddr) → unmapped (unmapped a) ≡ unmapped a
unfolding unmapped
unmapped-unmapped (v4 n) = refl
unmapped-unmapped (v6 n) = ground arith

or_text : Bytes → Option Bytes → Bytes
or_text d none = d
or_text d (some s) = s

either :
    {a b : Option Bytes} {r : Bytes}
    → or_else_maybe a b ≡ some r
    → (a ≡ some r) ⊎ ((a ≡ none) × (b ≡ some r))
unfolding or_else_maybe
either {a = none} e = inr (refl, e)
either {a = some x} e = inl e

abbrev pub IsIp : IpAddr → Type 0
IsIp (v4 n) = n < 2 ^ 32
IsIp (v6 n) = n < 2 ^ 128

unmapped-IsIp : (a : IpAddr) → IsIp a → IsIp (unmapped a)
unfolding unmapped
unmapped-IsIp (v4 n) h = h
unmapped-IsIp (v6 n) h = elim (Bool-cases (n / 2 ^ 32 == 65535)) [
  | inl mapped ↦ rw mapped (omega arith)
  | inr other ↦ rw other h
]

-- The reader gives addresses and reads back what is printed of one; what is printed is not empty and
-- has no characters but hex digits, dots and colons.
module _ (parse_ip : Bytes → Option IpAddr) (print_ip : IpAddr → Bytes)
    (parse-IsIp : (s : Bytes) (a : IpAddr) → parse_ip s ≡ some a → IsIp a)
    (parse-print : (a : IpAddr) → IsIp a → parse_ip (print_ip a) ≡ some a)
    (print-IsAddressText : (a : IpAddr) → IsIp a → IsAddressText (print_ip a))
    (print_some : (a : IpAddr) → IsIp a → is_empty (print_ip a) ≡ false) where
  abbrev pub normal : Bytes → Option Bytes
  normal = normalize_ip_str parse_ip print_ip

  abbrev pub normal_of : Option Bytes → Option Bytes
  normal_of = normalize_maybe parse_ip print_ip

  abbrev pub public_of : Option Bytes → Option Bytes
  public_of o = keep_public parse_ip print_ip (normal_of o)

  normalize-printed :
      (a : IpAddr) → IsIp a → normal (print_ip (unmapped a)) ≡ some (print_ip (unmapped a))
  unfolding normalize_ip_str printed
  normalize-printed a h =
      let p = print_ip (unmapped a) in
      let h' = unmapped-IsIp a h in
      rw
        (
          bare-IsAddressText p (print-IsAddressText (unmapped a) h'),
          print_some (unmapped a) h',
          parse-print (unmapped a) h',
          unmapped-unmapped a,
        )
        refl

  printed-normal :
      (s r : Bytes) → printed parse_ip print_ip (parse_ip s) ≡ some r → normal r ≡ some r
  unfolding printed or_text
  printed-normal s r e = elim (Option-cases (parse_ip s)) [
    | inl bad ↦ ground (arith, e, bad)
    | inr (a, good) ↦
        let same : some (print_ip (unmapped a)) ≡ some r = rw good at e in
        subst (λ x. normal x ≡ some x) (ap (or_text []) same)
          (normalize-printed a (parse-IsIp s a good))
  ]

  normal-normal : (s r : Bytes) → normal s ≡ some r → normal r ≡ some r
  unfolding normalize_ip_str
  normal-normal s r = split_empty (is_empty (bare s))
    where
      split_empty :
          (b : Bool)
          → (if b then none else printed parse_ip print_ip (parse_ip (bare s))) ≡ some r
          → normal r ≡ some r
      split_empty true e = ground (arith, e)
      split_empty false e = printed-normal (bare s) r e

  normal_of-normal : (o : Option Bytes) (r : Bytes) → normal_of o ≡ some r → normal r ≡ some r
  unfolding normalize_maybe
  normal_of-normal none r e = ground (arith, e)
  normal_of-normal (some s) r e = normal-normal s r e

  keep_public-some :
      (o : Option Bytes) (r : Bytes) → keep_public parse_ip print_ip o ≡ some r → o ≡ some r
  unfolding keep_public
  keep_public-some none r e = e
  keep_public-some (some ip) r e = elim (Bool-cases (is_public_routable_ip parse_ip print_ip ip)) [
    | inl shown ↦ rw shown at e
    | inr hidden ↦ ground (arith, e, hidden)
  ]

  -- Where the client's address comes from.
  abbrev pub IsTrusted : Option Bytes → Option Bytes → Option Bytes → Bytes → Type 0
  IsTrusted socket_ip xff x_real_ip r =
      (normal_of socket_ip ≡ some r)
      ⊎ ((public_of socket_ip ≡ none)
          × ((normal_of x_real_ip ≡ some r)
              ⊎ ((public_of x_real_ip ≡ none) × (normal_of (first_hop_from_xff xff) ≡ some r))))

  -- For a reader that gives addresses and reads back the printed ones, and a printer that writes at
  -- least one character, of hex digits, dots and colons: an address that is taken for the client's is
  -- its own normal form; and it is the socket's, or else the socket's is not public and it is that of
  -- `X-Real-IP`, or else neither of these is public and it is that of the first hop.
  pub resolve_client_ip-IsTrusted :
      (socket_ip xff x_real_ip : Option Bytes) (r : Bytes)
      → resolve_client_ip parse_ip print_ip socket_ip xff x_real_ip ≡ some r
      → (normal r ≡ some r) × IsTrusted socket_ip xff x_real_ip r
  unfolding resolve_client_ip
  resolve_client_ip-IsTrusted socket_ip xff x_real_ip r e = elim (either e) [
    | inl socket ↦ known socket_ip (keep_public-some (normal_of socket_ip) r socket) inl
    | inr (no_socket, e1) ↦ elim (either e1) [
      | inl real ↦
          known x_real_ip (keep_public-some (normal_of x_real_ip) r real)
            (λ n. inr (no_socket, inl n))
      | inr (no_real, e2) ↦ elim (either e2) [
        | inl hop ↦ known (first_hop_from_xff xff) hop (λ n. inr (no_socket, inr (no_real, n)))
        | inr (no_hop, e3) ↦ elim (either e3) [
          | inl real ↦ known x_real_ip real (λ n. inr (no_socket, inl n))
          | inr (none_real, socket) ↦ known socket_ip socket inl
        ]
      ]
    ]
  ]
    where
      known :
          (o : Option Bytes)
          → normal_of o ≡ some r
          → (normal_of o ≡ some r → IsTrusted socket_ip xff x_real_ip r)
          → (normal r ≡ some r) × IsTrusted socket_ip xff x_real_ip r
      known o n from = (normal_of-normal o r n, from n)
