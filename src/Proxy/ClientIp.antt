-- ===== src/Proxy/ClientIp.antt =====
-- src/proxy/forward.rs: the address of the client. Addresses are the numbers of 32 and of 128 bits; the
-- reader and the printer of the standard library are parameters.
pub mod Trusted
use mathlib.Core.List.{reverse}
use pertisk_proxy.Base.{
  ℕ, ◌+◌, ◌-◌, ◌*◌, ◌/◌, ◌%◌, ◌^◌, Bool, true, false, not, ◌&&◌, ◌||◌, List, [], ◌∷◌, ◌++◌, Option,
  none, some, ltb, leb, ◌==◌, if◌then◌else◌, Bytes, is_empty,
}
use pertisk_proxy.Text.{codes, trim, before}

-- `IpAddr`.
pub data IpAddr : Type 0 where
  v4 v6 : ℕ → IpAddr

-- `trim_matches` of some characters, which are ASCII.
drop_while : (ℕ → Bool) → Bytes → Bytes
drop_while p [] = []
drop_while p (c ∷ s) = let rest = drop_while p s in if p c then rest else c ∷ s

unfoldable pub trim_matches : (ℕ → Bool) → Bytes → Bytes
unfolding drop_while
trim_matches p s = reverse (drop_while p (reverse (drop_while p s)))

is_quote : ℕ → Bool
is_quote c = c == b'"'

is_bracket : ℕ → Bool
is_bracket c = (c == b'[') || (c == b']')

unless_empty : Bytes → Option Bytes
unless_empty s = if is_empty s then none else some s

unfoldable pub first_hop_from_xff : Option Bytes → Option Bytes
unfolding trim_matches is_quote unless_empty
first_hop_from_xff none = none
first_hop_from_xff (some xff) = unless_empty (trim_matches is_quote (trim (before b',' xff)))

existing_or_own : Bytes → Bytes → Bytes
existing_or_own client_ip existing =
    if is_empty existing then client_ip else existing ++ (codes ", " ++ client_ip)

forwarded_for : Bytes → Option Bytes → Bytes
unfolding existing_or_own
forwarded_for client_ip none = client_ip
forwarded_for client_ip (some existing) = existing_or_own client_ip (trim existing)

unfoldable pub forwarded_client_ip_header_pairs : Bytes → Option Bytes → List (Bytes × Bytes)
unfolding forwarded_for
forwarded_client_ip_header_pairs client_ip existing_xff =
    (codes "X-Real-IP", client_ip)
    ∷ ((codes "X-Forwarded-For", forwarded_for client_ip existing_xff) ∷ [])

-- `to_ipv4_mapped`: the addresses ::ffff:a.b.c.d.
unfoldable pub unmapped : IpAddr → IpAddr
unmapped (v4 n) = v4 n
unmapped (v6 n) = if n / 2 ^ 32 == 65535 then v4 (n % 2 ^ 32) else v6 n

-- Of IPv4: 10/8, 172.16/12, 192.168/16, 127/8, 169.254/16, 0.0.0.0 and 255.255.255.255 are not public;
-- of IPv6: ::1, fc00::/7, fe80::/10 and ::.
unfoldable pub is_public : IpAddr → Bool
is_public (v4 n) = not (
    ((n / 2 ^ 24 == 10) || ((n / 2 ^ 20 == 2753) || (n / 2 ^ 16 == 49320)))
    || ((n / 2 ^ 24 == 127) || ((n / 2 ^ 16 == 43518) || ((n == 0) || (n == 4294967295)))))
is_public (v6 n) = not ((n == 1) || ((n / 2 ^ 121 == 126) || ((n / 2 ^ 118 == 1018) || (n == 0))))

or_else_maybe {ℓ} : {A : Type ℓ} → Option A → Option A → Option A
or_else_maybe none o = o
or_else_maybe (some a) o = some a

unfoldable pub bare : Bytes → Bytes
unfolding trim_matches is_bracket
bare ip = trim (before b'%' (trim_matches is_bracket (trim ip)))

module _ (parse_ip : Bytes → Option IpAddr) (print_ip : IpAddr → Bytes) where
  printed : Option IpAddr → Option Bytes
  unfolding unmapped
  printed none = none
  printed (some a) = some (print_ip (unmapped a))

  unfoldable pub normalize_ip_str : Bytes → Option Bytes
  unfolding printed bare
  normalize_ip_str ip = if is_empty (bare ip) then none else printed (parse_ip (bare ip))

  is_public_at : Option IpAddr → Bool
  unfolding is_public
  is_public_at none = false
  is_public_at (some a) = is_public a

  is_public_text : Option Bytes → Bool
  unfolding is_public_at
  is_public_text none = false
  is_public_text (some normalized) = is_public_at (parse_ip normalized)

  unfoldable pub is_public_routable_ip : Bytes → Bool
  unfolding normalize_ip_str is_public_text
  is_public_routable_ip ip = is_public_text (normalize_ip_str ip)

  unfoldable pub normalize_maybe : Option Bytes → Option Bytes
  unfolding normalize_ip_str
  normalize_maybe none = none
  normalize_maybe (some ip) = normalize_ip_str ip

  unfoldable pub keep_public : Option Bytes → Option Bytes
  unfolding is_public_routable_ip
  keep_public none = none
  keep_public (some ip) = if is_public_routable_ip ip then some ip else none

  -- The peer and `X-Real-IP` where they are public, then the first hop of `X-Forwarded-For`, then
  -- `X-Real-IP` and the peer as they are.
  unfoldable pub resolve_client_ip : Option Bytes → Option Bytes → Option Bytes → Option Bytes
  unfolding keep_public normalize_maybe first_hop_from_xff or_else_maybe
  resolve_client_ip socket_ip xff x_real_ip =
      or_else_maybe (keep_public (normalize_maybe socket_ip)) (
        or_else_maybe (keep_public (normalize_maybe x_real_ip)) (
          or_else_maybe (normalize_maybe (first_hop_from_xff xff))
            (or_else_maybe (normalize_maybe x_real_ip) (normalize_maybe socket_ip))))
